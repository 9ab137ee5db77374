-- ===== src/Access/Routes/Submission.antt =====
-- src/api/routes/accessRequests.ts: the handler of a submission.
use octo_docs_backend.Base.{
  not, ◌&&◌, Option, none, some, List, Text, text_eq, ◌==◌, ok, err, if◌then◌else◌,
}
use octo_docs_backend.Permission.Role.{Role, role, role_to_number, role_at_least}
use octo_docs_backend.Permission.Resolve.{resolve_role}
use octo_docs_backend.BotUids.{Value, parse_request_bot_uids}
use octo_docs_backend.Db.Meta.{get_by_doc_id}
use octo_docs_backend.Db.Request.{submit}
use octo_docs_backend.Access.Routes.{
  State, Supplied, Answer, refused, already_granted, created, reason_of, requested_role, all_owned,
  is_nil,
}

module _ (json_parse : Text → Option Value) where
  -- POST: the write, after all tests.
  unfoldable pub submit_write :
      State → Text → Text → Role → Text → List Text → Text → State × Answer
  unfolding submit role_to_number
  submit_write s uid doc_id r reason bots candidate_id =
      let out =
        submit json_parse doc_id uid (role_to_number r) reason bots candidate_id s.requests in
      (record s { requests = out.0 }, created out.1.0)

  -- POST: the tests on the role that the caller has, and on the bots.
  unfoldable pub submit_checked :
      List Text → State → Text → Text → Role → Text → List Text → Text → State × Answer
  unfolding submit_write all_owned role_at_least resolve_role
  submit_checked owned s uid doc_id r reason bots candidate_id =
      let current = resolve_role s.tables uid doc_id in
      if is_nil bots && role_at_least current (role r)
      then (s, already_granted current)
      else if all_owned owned bots
      then submit_write s uid doc_id r reason bots candidate_id
      else (s, refused 403)

  -- POST: the tests on the body.
  unfoldable pub submit_body :
      List Text → State → Text → Text → Supplied → Supplied → Value → Text → State × Answer
  unfolding submit_checked requested_role parse_request_bot_uids
  submit_body owned s uid doc_id supplied reason bot_uids candidate_id =
      elim (requested_role supplied) [
        | none ↦ (s, refused 400)
        | some r ↦ elim (parse_request_bot_uids bot_uids) [
          | err e ↦ (s, refused 400)
          | ok bots ↦ submit_checked owned s uid doc_id r (reason_of reason) bots candidate_id
        ]
      ]

  -- POST /:docId/access-requests.
  unfoldable pub submit_request :
      List Text → State → Text → Text → Text → Supplied → Supplied → Value → Text → State × Answer
  unfolding submit_body
  submit_request owned s uid doc_id space_id supplied reason bot_uids candidate_id =
      elim (get_by_doc_id s.tables.doc_meta doc_id) [
        | none ↦ (s, refused 404)
        | some meta ↦
            if meta.status == 0
            then (s, refused 404)
            else if not (text_eq meta.space_id space_id)
            then (s, refused 404)
            else if meta.status == 2
            then (s, refused 409)
            else submit_body owned s uid doc_id supplied reason bot_uids candidate_id
      ]

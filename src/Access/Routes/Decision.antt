-- ===== src/Access/Routes/Decision.antt =====
-- src/api/routes/accessRequests.ts: the list, and the handlers of approval and denial.
use octo_docs_backend.Base.{
  ℕ, Bool, Option, none, some, List, [], ◌∷◌, Text, text_eq, codes, Result, ok, err, if◌then◌else◌,
}
use octo_docs_backend.Permission.Role.{Role, admin, role_to_number}
use octo_docs_backend.Permission.Resolve.{status, passed, require_doc_role}
use octo_docs_backend.BotUids.{Value}
use octo_docs_backend.Db.Request.{
  ReadRow, request_status_pending, request_status_approved, request_status_denied, decide,
  list_by_status, get_by_request_id,
}
use octo_docs_backend.Access.Bots.{Fault, GrantWithBots, grant_request_with_bots}
use octo_docs_backend.Access.Routes.{
  State, Supplied, absent, other, named, Answer, refused, failed, denied, granted, items,
  access_role, stored_role, caller_of,
}

module _ (json_parse : Text → Option Value) where
  -- The response to a list; it throws when a row has no role that may be requested.
  unfoldable pub list_items : List ReadRow → Option (List (Text × Text × Role × Text × List Text))
  unfolding stored_role
  list_items [] = some []
  list_items (x ∷ xs) = elim (stored_role x.row.requested_role) [
    | none ↦ none
    | some r ↦ elim (list_items xs) [
      | none ↦ none
      | some ys ↦ some ((x.row.request_id, x.row.uid, r, x.row.reason, x.bot_uids) ∷ ys)
    ]
  ]

  -- `req.query.status`.
  unfoldable pub status_number : Supplied → ℕ
  unfolding text_eq
  status_number (named v) =
      if text_eq v (codes "approved")
      then request_status_approved
      else if text_eq v (codes "denied")
      then request_status_denied
      else request_status_pending
  status_number _ = request_status_pending

  -- The role that an approval grants: 400 for an illegal one, `none` where `roleName` throws.
  unfoldable pub approved_role : Supplied → ReadRow → Result ℕ (Option Role)
  unfolding access_role stored_role
  approved_role absent request = ok (stored_role request.row.requested_role)
  approved_role other request = err 400
  approved_role (named v) request = elim (access_role v) [ none ↦ err 400 | some r ↦ ok (some r) ]

  -- The response to an approval: the bots are reported when the request carried some.
  abbrev pub grant_answer : List Text → Option GrantWithBots → Answer
  grant_answer bots none = failed
  grant_answer [] (some out) = granted out.requester_role none
  grant_answer (b ∷ bots) (some out) =
      granted out.requester_role (some (out.bots_succeeded, out.bots_failed))

  module _ (is_space_member : Text → Text → Text → Bool) (unchanged : ℕ) where
    -- GET /:docId/access-requests.
    unfoldable pub list_requests : State → Text → Bool → Text → Text → Supplied → Answer
    unfolding require_doc_role list_by_status list_items status_number
    list_requests s uid is_bot doc_id space_id wanted =
        elim (require_doc_role is_space_member s.tables uid doc_id space_id admin
          (caller_of is_bot)) [
            | status n ↦ refused n
            | passed meta r ↦
                elim (list_items
                  (list_by_status json_parse doc_id (status_number wanted) s.requests)) [
                    | none ↦ failed
                    | some ys ↦ items ys
                  ]
          ]

    -- Approval: `decide`, and the grants if it moved a row.
    unfoldable pub approve_role :
        (Text → Fault) → State → Text → Text → Text → Text → ReadRow → Role → State × Answer
    unfolding decide grant_request_with_bots role_to_number
    approve_role faults s uid meta_id doc_id request_id request r =
        let decided = decide doc_id request_id request_status_approved uid [] s.requests in
        let out =
          grant_request_with_bots faults unchanged meta_id request.row.uid (role_to_number r) uid
            s.tables request.bot_uids in
        if decided.1
        then (record { tables = out.0; requests = decided.0 }, grant_answer request.bot_uids out.1)
        else (s, refused 409)

    -- Approval of the request that was found.
    unfoldable pub approve_found :
        (Text → Fault)
        → State
        → Text
        → Text
        → Text
        → Text
        → Supplied
        → Option ReadRow
        → State × Answer
    unfolding approve_role approved_role
    approve_found faults s uid meta_id doc_id request_id supplied none = (s, refused 404)
    approve_found faults s uid meta_id doc_id request_id supplied (some request) =
        elim (approved_role supplied request) [
          | err n ↦ (s, refused n)
          | ok none ↦ (s, failed)
          | ok (some r) ↦ approve_role faults s uid meta_id doc_id request_id request r
        ]

    -- POST /:docId/access-requests/:requestId/approve.
    unfoldable pub approve :
        (Text → Fault) → State → Text → Bool → Text → Text → Text → Supplied → State × Answer
    unfolding require_doc_role get_by_request_id approve_found
    approve faults s uid is_bot doc_id space_id request_id supplied =
        elim (require_doc_role is_space_member s.tables uid doc_id space_id admin
          (caller_of is_bot)) [
            | status n ↦ (s, refused n)
            | passed meta r ↦
                approve_found faults s uid meta.doc_id doc_id request_id supplied
                  (get_by_request_id json_parse doc_id request_id s.requests)
          ]

    -- Denial of the request that was found.
    unfoldable pub deny_found : State → Text → Text → Text → Option ReadRow → State × Answer
    unfolding decide
    deny_found s uid doc_id request_id none = (s, refused 404)
    deny_found s uid doc_id request_id (some request) =
        let decided = decide doc_id request_id request_status_denied uid [] s.requests in
        if decided.1 then (record s { requests = decided.0 }, denied) else (s, refused 409)

    -- POST /:docId/access-requests/:requestId/deny.
    unfoldable pub deny : State → Text → Bool → Text → Text → Text → State × Answer
    unfolding require_doc_role get_by_request_id deny_found
    deny s uid is_bot doc_id space_id request_id =
        elim (require_doc_role is_space_member s.tables uid doc_id space_id admin
          (caller_of is_bot)) [
            | status n ↦ (s, refused n)
            | passed meta r ↦
                deny_found s uid doc_id request_id
                  (get_by_request_id json_parse doc_id request_id s.requests)
          ]

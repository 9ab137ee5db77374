-- ===== src/Access/Routes/Granted.antt =====
-- A submission and its approval by src/api/routes/accessRequests.ts.
use mathlib.Core.Path.{subst}
use mathlib.Core.Option.{some-injective}
use octo_docs_backend.Base.{
  ℕ, ◌≤◌, ◌≡◌, refl, sym, ap, ◌∙◌, Bool, true, false, Option, some, List, [], Text, ok, map,
}
use octo_docs_backend.Permission.Role.{
  Role, ResolvedRole, role, reader, commenter, writer, admin, role_to_number, role_rank,
}
use octo_docs_backend.Permission.Resolve.{passed, require_doc_role, resolve_role}
use octo_docs_backend.BotUids.{Value, text, array, parse_stored_bot_uids}
use octo_docs_backend.Db.{Tables}
use octo_docs_backend.Db.Meta.{DocMeta, get_by_doc_id}
use octo_docs_backend.Db.Meta.Laws.{get_by_doc_id-id}
use octo_docs_backend.Db.Request.{
  fresh_row, any_open, get_by_request_id, decide, ReadRow, request_status_approved,
}
use octo_docs_backend.Db.Request.Laws.{IsUnused, get_by_request_id-submit, found_open}
use octo_docs_backend.Db.Request.Decided.{decided_row, get_by_request_id-decide}
use octo_docs_backend.Permission.Role.Order.{role_from_number-role_to_number}
use octo_docs_backend.Grant.{grant_forward_access, grant_role, is_admin}
use octo_docs_backend.Access.Bots.{Fault, no_fault, attempt, grant_request_with_bots, GrantWithBots}
use octo_docs_backend.Access.Bots.Laws.{grant_request_reports}
use octo_docs_backend.Access.Routes.{State, absent, caller_of, stored_role}
use octo_docs_backend.Access.Routes.Submission.{submit_write}
use octo_docs_backend.Access.Routes.Decision.{approve, approve_role, approve_found, approved_role}

-- A role that may be requested.
abbrev pub IsRequestable : Role → Type 0
IsRequestable r = stored_role (role_to_number r) ≡ some r

requestable_below : (r : Role) → IsRequestable r → is_admin (role r) ≡ false
requestable_below reader q = refl
requestable_below commenter q = refl
requestable_below writer q = refl
requestable_below admin q = unfold stored_role role_to_number in cc

forward_ok :
    (unchanged : ℕ) (db : Tables) (d u by : Text) (r : Role)
    → IsRequestable r
    → grant_forward_access unchanged db d u (role_to_number r) by
      ≡ ok (grant_role unchanged db d u (role_to_number r) by r)
unfolding grant_forward_access
forward_ok unchanged db d u by r q =
    rw (role_from_number-role_to_number r, requestable_below r q, grant_forward_access) refl

-- A requester whose role may be granted is answered when the database does not fail.
grant_request_answers :
    (faults : Text → Fault) (unchanged : ℕ) (db : Tables) (d u by : Text) (r : Role)
    (bots : List Text)
    → IsRequestable r
    → faults u ≡ no_fault
    → (out : GrantWithBots) × ((grant_request_with_bots faults unchanged d u
          (role_to_number r)
          by
          db
          bots).1
        ≡ some out)
unfolding grant_request_with_bots attempt
grant_request_answers faults unchanged db d u by r bots q f =
    rw (f, grant_request_with_bots) (rw (forward_ok unchanged db d u by r q, attempt) (_, refl))

module _ (json_parse : Text → Option Value) (is_space_member : Text → Text → Text → Bool)
    (unchanged : ℕ) (faults : Text → Fault) where
  -- An approval of an open request that is read with a role that may be granted.
  approve-opened :
      (s : State) (boss doc_id space_id id : Text) (is_bot : Bool) (meta : DocMeta)
      (rr : ResolvedRole) (request : ReadRow) (r : Role)
      → require_doc_role is_space_member s.tables boss doc_id space_id admin (caller_of is_bot)
        ≡ passed meta rr
      → get_by_request_id json_parse doc_id id s.requests ≡ some request
      → stored_role request.row.requested_role ≡ some r
      → any_open doc_id id s.requests ≡ true
      → (approve json_parse is_space_member unchanged faults s boss is_bot doc_id space_id id
          absent).0
        ≡ record {
          tables =
              (grant_request_with_bots faults unchanged meta.doc_id request.row.uid
                (role_to_number r)
                boss
                s.tables
                request.bot_uids).0;
          requests = (decide doc_id id request_status_approved boss [] s.requests).0;
        }
  unfolding approve approve_found approved_role approve_role decide
  approve-opened s boss doc_id space_id id is_bot meta rr request r g q p o =
      rw (g, approve) (rw (q, approve_found) (rw (p, approve_found) (rw (o, approve_role) refl)))

module _ (json_parse : Text → Option Value) (is_space_member : Text → Text → Text → Bool)
    (unchanged : ℕ) (faults : Text → Fault) (s : State) (uid doc_id candidate reason : Text)
    (r : Role) (bots : List Text) where
  abbrev submitted : State
  submitted = (submit_write json_parse s uid doc_id r reason bots candidate).0

  abbrev found_bots : List Text
  found_bots = parse_stored_bot_uids json_parse (array (map text bots))

  abbrev outcome : Text → Tables × Option GrantWithBots
  outcome boss =
      grant_request_with_bots faults unchanged doc_id uid (role_to_number r) boss s.tables
        found_bots

  raised_after :
      (meta : DocMeta) (boss : Text)
      → IsRequestable r
      → get_by_doc_id s.tables.doc_meta doc_id ≡ some meta
      → faults uid ≡ no_fault
      → role_rank (role r) ≤ role_rank (resolve_role (outcome boss).0 uid doc_id)
  raised_after meta boss q m f =
      let (out, e) =
        grant_request_answers faults unchanged s.tables doc_id uid boss r found_bots q f in
      let ((r', known, le), _, _) =
        grant_request_reports faults unchanged doc_id uid (role_to_number r) boss s.tables
          found_bots meta out m e in
      let same : r' ≡ r = some-injective r' r (sym known ∙ role_from_number-role_to_number r) in
      subst (λ x. role_rank (role x) ≤ role_rank (resolve_role (outcome boss).0 uid doc_id)) same le

  -- After a submission under a fresh id, when a caller who passes the guard as an admin approves it
  -- with no role named and the requester's own grant meets no fault, the request reads as submitted
  -- but approved by that caller, the grants that are made are those for the submitted role and the
  -- submitted bots, and the requester resolves to at least that role.
  pub approve-submitted :
      (meta : DocMeta) (rr : ResolvedRole) (boss space_id : Text) (is_bot : Bool)
      → IsRequestable r
      → IsUnused doc_id candidate s.requests
      → get_by_doc_id s.tables.doc_meta doc_id ≡ some meta
      → require_doc_role is_space_member s.tables boss doc_id space_id admin (caller_of is_bot)
        ≡ passed meta rr
      → faults uid ≡ no_fault
      → let a =
          approve json_parse is_space_member unchanged faults submitted boss is_bot doc_id space_id
            candidate absent in
        (a.0.tables
          ≡ (grant_request_with_bots faults unchanged doc_id uid
              (role_to_number r)
              boss
              s.tables
              found_bots).0)
        × (get_by_request_id json_parse doc_id candidate a.0.requests
            ≡ some (record {
              row =
                  decided_row request_status_approved boss []
                    (fresh_row json_parse doc_id uid (role_to_number r) reason bots candidate);
              bot_uids = found_bots;
            }))
        × (role_rank (role r) ≤ role_rank (resolve_role a.0.tables uid doc_id))
  unfolding submit_write fresh_row
  approve-submitted meta rr boss space_id is_bot q u m g f =
      let (_, found) =
        get_by_request_id-submit json_parse doc_id uid (role_to_number r) reason bots candidate
          s.requests u in
      let request : ReadRow = record {
        row = fresh_row json_parse doc_id uid (role_to_number r) reason bots candidate;
        bot_uids = found_bots;
      } in
      let opened = found_open json_parse doc_id candidate submitted.requests request found refl in
      let after =
        approve-opened json_parse is_space_member unchanged faults submitted boss doc_id space_id
          candidate is_bot meta rr request r g found q opened in
      let here : meta.doc_id ≡ doc_id = get_by_doc_id-id s.tables.doc_meta doc_id meta m in
      let grants : (approve json_parse is_space_member unchanged faults submitted boss is_bot doc_id
            space_id candidate absent).0.tables
          ≡ (outcome boss).0 =
        ap (λ x. x.tables) after
        ∙ ap
            (λ d.
              (grant_request_with_bots faults unchanged d uid (role_to_number r) boss s.tables
                found_bots).0)
            here in
      (
        grants,
        ap (λ x. get_by_request_id json_parse doc_id candidate x.requests) after
            ∙ get_by_request_id-decide doc_id candidate request_status_approved boss [] json_parse
                submitted.requests request found refl,
        subst (λ t. role_rank (role r) ≤ role_rank (resolve_role t uid doc_id)) (sym grants)
            (raised_after meta boss q m f),
      )

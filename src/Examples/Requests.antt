-- ===== src/Examples/Requests.antt =====
-- Access requests at concrete rows: Cat asks to write in the document with a bot of hers.
use octo_docs_backend.Base.{
  ◌≡◌, ◌≢◌, text_eq, text_eq_iff, refl, ◌≤◌, if◌then◌else◌, Bool, false, Option, none, some, List,
  [], ◌∷◌, map, Text, codes, All,
}
use octo_docs_backend.Examples.{db, plan}
use octo_docs_backend.Permission.Role.{role, writer, admin, role_rank}
use octo_docs_backend.Permission.Resolve.{resolve_role}
use octo_docs_backend.BotUids.{Value, array, text, undefined, parse_stored_bot_uids}
use octo_docs_backend.BotUids.Normal.{parse_stored-again}
use octo_docs_backend.Db.Request.{
  RequestRow, request_status_approved, request_status_pending, fresh_row, submit, get_by_request_id,
}
use octo_docs_backend.Db.Request.Decided.{decided_row}
use octo_docs_backend.Db.Request.Laws.{get_by_request_id-submit}
use octo_docs_backend.Db.Request.Rotation.{stale_id}
use octo_docs_backend.Access.Bots.{Fault, no_fault, at_bump, GrantWithBots, grant_request_with_bots}
use octo_docs_backend.Access.Bots.Loop.{IsRaised, IsDealt}
use octo_docs_backend.Access.Bots.Laws.{grant_request_reports, grant_request-never_lowers}
use octo_docs_backend.Access.Routes.{State, absent, named}
use octo_docs_backend.Access.Routes.Submission.{submit_write}
use octo_docs_backend.Access.Routes.Decision.{approve}
use octo_docs_backend.Access.Routes.Granted.{approve-submitted}
use octo_docs_backend.Access.Routes.Once.{
  Call, submission, approval, denial, decisions, decided_once,
}

abbrev no_json : Text → Option Value
no_json t = none

abbrev nobody : Text → Text → Text → Bool
nobody uid space token = false

abbrev bots : List Text
bots = codes "b2" ∷ codes "b1" ∷ codes "cat" ∷ []

-- The second bot's grant breaks off before the epoch.
abbrev faults : Text → Fault
faults u = if text_eq u (codes "b2") then at_bump else no_fault

abbrev before : State
before = record { tables = db; requests = [] }

apart_ids : codes "r1" ≢ codes "r0"
unfolding text_eq
apart_ids e = cc ((text_eq_iff (codes "r1") (codes "r0")).1 e)

parse_stored-again_example :
    parse_stored_bot_uids no_json
      (array (map text (parse_stored_bot_uids no_json (array (map text bots)))))
    ≡ parse_stored_bot_uids no_json (array (map text bots))
parse_stored-again_example = parse_stored-again no_json (array (map text bots))

get_by_request_id-submit_example :
    let out = submit no_json (codes "d1") (codes "cat") 2 (codes "please") bots (codes "r1") [] in
    (out.1 ≡ (codes "r1", request_status_pending))
    × (get_by_request_id no_json (codes "d1") (codes "r1") out.0
        ≡ some (record {
          row = fresh_row no_json (codes "d1") (codes "cat") 2 (codes "please") bots (codes "r1");
          bot_uids = parse_stored_bot_uids no_json (array (map text bots));
        }))
get_by_request_id-submit_example =
    get_by_request_id-submit no_json (codes "d1") (codes "cat") 2 (codes "please") bots (codes "r1")
      [] tt

abbrev old : RequestRow
old = record {
  doc_id = codes "d1";
  uid = codes "cat";
  requested_role = 1;
  reason = [];
  status = 1;
  request_id = codes "r0";
  decided_by = [];
  decision_note = [];
  bot_uids = array [];
}

stale_id_example :
    get_by_request_id no_json
      (codes "d1")
      (codes "r0")
      (submit no_json (codes "d1") (codes "cat") 2 (codes "please") bots (codes "r1") (old ∷ [])).0
    ≡ none
unfolding octo_docs_backend.Db.Request.first octo_docs_backend.Db.Request.has_key
stale_id_example =
    stale_id no_json (codes "d1") (codes "cat") 2 (codes "please") bots (codes "r1") (old ∷ []) old
      (tt, tt) refl apart_ids

abbrev reported : GrantWithBots
reported = record {
  requester_role = writer;
  bots_succeeded = codes "b1" ∷ [];
  bots_failed = codes "b2" ∷ [];
}

grant_request_reports_example :
    let after =
      (grant_request_with_bots faults 0 (codes "d1") (codes "cat") 2 (codes "own") db bots).0 in
    IsRaised (codes "d1") 2 after (codes "cat")
    × All (IsRaised (codes "d1") 2 after) (codes "b1" ∷ [])
    × IsDealt (codes "cat") bots (codes "b1" ∷ []) (codes "b2" ∷ [])
unfolding octo_docs_backend.Db.Meta.get_by_doc_id text_eq grant_request_with_bots
    octo_docs_backend.Permission.Role.role_from_number resolve_role
    octo_docs_backend.Db.Member.get_role octo_docs_backend.Db.Member.find_row
    octo_docs_backend.Db.Member.has_key octo_docs_backend.Db.Member.upsert_grant_max
    octo_docs_backend.Db.Meta.bump_epoch octo_docs_backend.Db.Member.upsert
grant_request_reports_example =
    grant_request_reports faults 0 (codes "d1") (codes "cat") 2 (codes "own") db bots plan reported
      refl refl

grant_request-never_lowers_example :
    role_rank (resolve_role db (codes "ann") (codes "d1"))
    ≤ role_rank (
        resolve_role
          (grant_request_with_bots faults 0 (codes "d1") (codes "ann") 2 (codes "own") db bots).0
          (codes "ann")
          (codes "d1"))
grant_request-never_lowers_example =
    grant_request-never_lowers faults 0 (codes "d1") (codes "ann") 2 (codes "own") db bots
      (codes "d1") (codes "ann")

approve-submitted_example :
    let s =
      (submit_write no_json before
        (codes "cat")
        (codes "d1")
        writer
        (codes "please")
        bots
        (codes "r1")).0 in
    let a =
      approve no_json nobody 0 faults s
        (codes "own")
        false
        (codes "d1")
        (codes "s1")
        (codes "r1")
        absent in
    (a.0.tables
      ≡ (grant_request_with_bots faults 0
          (codes "d1")
          (codes "cat")
          2
          (codes "own")
          db
          (parse_stored_bot_uids no_json (array (map text bots)))).0)
    × (get_by_request_id no_json (codes "d1") (codes "r1") a.0.requests
        ≡ some (record {
          row =
              decided_row request_status_approved
                (codes "own")
                []
                (fresh_row no_json (codes "d1") (codes "cat") 2 (codes "please") bots (codes "r1"));
          bot_uids = parse_stored_bot_uids no_json (array (map text bots));
        }))
    × (role_rank (role writer) ≤ role_rank (resolve_role a.0.tables (codes "cat") (codes "d1")))
unfolding octo_docs_backend.Access.Routes.stored_role
    octo_docs_backend.Permission.Role.role_to_number octo_docs_backend.Db.Meta.get_by_doc_id text_eq
    octo_docs_backend.Permission.Resolve.require_doc_role
    octo_docs_backend.Permission.Role.role_at_least resolve_role
approve-submitted_example =
    approve-submitted no_json nobody 0 faults before (codes "cat") (codes "d1") (codes "r1")
      (codes "please") writer bots plan (role admin) (codes "own") (codes "s1") false refl tt refl
      refl refl

-- An approval is sent twice and a denial follows.
abbrev calls : List Call
calls =
    submission [] (codes "cat") (codes "d1") (codes "s1") (named (codes "writer")) absent undefined
      (codes "r1")
    ∷ approval faults (codes "own") false (codes "d1") (codes "s1") (codes "r0") absent
    ∷ approval faults (codes "own") false (codes "d1") (codes "s1") (codes "r0") absent
    ∷ denial (codes "own") false (codes "d1") (codes "s1") (codes "r0")
    ∷ []

decided_once_example :
    decisions no_json nobody 0
      (codes "d1")
      (codes "r0")
      (record { tables = db; requests = old ∷ [] })
      calls
    ≤ 1
decided_once_example =
    decided_once no_json nobody 0 (codes "d1") (codes "r0")
      (record { tables = db; requests = old ∷ [] }) calls (apart_ids, tt)

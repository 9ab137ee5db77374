-- ===== src/Db/Request.antt =====
-- src/db/repos/docAccessRequestRepo.ts: the `doc_access_request` rows, one for each document and
-- user, in the order of `created_at`. The JSON column holds what the driver hands back for it.
pub mod Laws
pub mod Decided
pub mod Rotation
use octo_docs_backend.Base.{
  ℕ, Bool, true, false, ◌&&◌, ◌||◌, Option, none, some, List, [], ◌∷◌, map, Text, text_eq, ◌==◌,
  if◌then◌else◌,
}
use octo_docs_backend.BotUids.{Value, text, array, parse_stored_bot_uids}

abbrev pub request_status_pending : ℕ
request_status_pending = 1

abbrev pub request_status_approved : ℕ
request_status_approved = 2

abbrev pub request_status_denied : ℕ
request_status_denied = 3

abbrev pub request_status_cancelled : ℕ
request_status_cancelled = 4

-- `DocAccessRequestRow` without its times.
pub record RequestRow : Type 0 where
  pub doc_id : Text
  pub uid : Text
  pub requested_role : ℕ
  pub reason : Text
  pub status : ℕ
  pub request_id : Text
  pub decided_by : Text
  pub decision_note : Text
  pub bot_uids : Value

-- A row as the reads return it, with its bots normalised.
pub record ReadRow : Type 0 where
  pub row : RequestRow
  pub bot_uids : List Text

-- The WHERE clause of the primary key.
unfoldable pub has_key : Text → Text → RequestRow → Bool
unfolding text_eq
has_key doc_id uid r = text_eq r.doc_id doc_id && text_eq r.uid uid

-- The WHERE clause `doc_id = ? AND request_id = ?`.
unfoldable pub has_id : Text → Text → RequestRow → Bool
unfolding text_eq
has_id doc_id request_id r = text_eq r.doc_id doc_id && text_eq r.request_id request_id

-- The first row that a test selects.
unfoldable pub first : (RequestRow → Bool) → List RequestRow → Option RequestRow
first test [] = none
first test (r ∷ rows) = if test r then some r else first test rows

-- INSERT … ON DUPLICATE KEY UPDATE of `submit`. The update sets each column that the insert sets,
-- and clears the decision, which a fresh row has blank by default: the row becomes the fresh one.
unfoldable pub put : RequestRow → List RequestRow → List RequestRow
unfolding has_key
put fresh [] = fresh ∷ []
put fresh (r ∷ rows) =
    if has_key fresh.doc_id fresh.uid r
    then record r {
      requested_role = fresh.requested_role;
      reason = fresh.reason;
      status = request_status_pending;
      decided_by = [];
      decision_note = [];
      request_id = fresh.request_id;
      bot_uids = fresh.bot_uids;
    }
      ∷ rows
    else r ∷ put fresh rows

-- `row?.request_id ?? candidateId` and `row?.status ?? REQUEST_STATUS_PENDING`.
abbrev pub read_back : Text → Option RequestRow → Text × ℕ
read_back candidate_id none = (candidate_id, request_status_pending)
read_back candidate_id (some r) = (r.request_id, r.status)

-- `decide`'s WHERE clause.
unfoldable pub is_open : Text → Text → RequestRow → Bool
unfolding has_id
is_open doc_id request_id r = has_id doc_id request_id r && (r.status == request_status_pending)

unfoldable pub mark : Text → Text → ℕ → Text → Text → List RequestRow → List RequestRow
unfolding is_open
mark doc_id request_id status decided_by note [] = []
mark doc_id request_id status decided_by note (r ∷ rows) =
    (if is_open doc_id request_id r
      then record r { status = status; decided_by = decided_by; decision_note = note }
      else r)
    ∷ mark doc_id request_id status decided_by note rows

-- Whether the UPDATE matches a row.
unfoldable pub any_open : Text → Text → List RequestRow → Bool
unfolding is_open
any_open doc_id request_id [] = false
any_open doc_id request_id (r ∷ rows) =
    is_open doc_id request_id r || any_open doc_id request_id rows

-- `decide`: the table after it, and whether a pending row was moved.
unfoldable pub decide : Text → Text → ℕ → Text → Text → List RequestRow → List RequestRow × Bool
unfolding mark any_open
decide doc_id request_id status decided_by note rows =
    (mark doc_id request_id status decided_by note rows, any_open doc_id request_id rows)

module _ (json_parse : Text → Option Value) where
  -- The row that `submit` writes; `newRequestId()` is the last argument.
  unfoldable pub fresh_row : Text → Text → ℕ → Text → List Text → Text → RequestRow
  unfolding parse_stored_bot_uids
  fresh_row doc_id uid requested_role reason bot_uids candidate_id = record {
    doc_id = doc_id;
    uid = uid;
    requested_role = requested_role;
    reason = reason;
    status = request_status_pending;
    request_id = candidate_id;
    decided_by = [];
    decision_note = [];
    bot_uids = array (map text (parse_stored_bot_uids json_parse (array (map text bot_uids))));
  }

  -- `submit`: the table after it, and the request id and the status that it returns.
  unfoldable pub submit :
      Text → Text → ℕ → Text → List Text → Text → List RequestRow → List RequestRow × (Text × ℕ)
  unfolding fresh_row put first
  submit doc_id uid requested_role reason bot_uids candidate_id rows =
      let after = put (fresh_row doc_id uid requested_role reason bot_uids candidate_id) rows in
      (after, read_back candidate_id (first (has_key doc_id uid) after))

  -- The normalisation of a row that was read.
  unfoldable pub normalized : RequestRow → ReadRow
  unfolding parse_stored_bot_uids
  normalized r = record { row = r; bot_uids = parse_stored_bot_uids json_parse r.bot_uids }

  -- `listByStatus`.
  unfoldable pub list_by_status : Text → ℕ → List RequestRow → List ReadRow
  unfolding normalized
  list_by_status doc_id status [] = []
  list_by_status doc_id status (r ∷ rows) =
      if text_eq r.doc_id doc_id && (r.status == status)
      then normalized r ∷ list_by_status doc_id status rows
      else list_by_status doc_id status rows

  -- `getByRequestId`.
  unfoldable pub get_by_request_id : Text → Text → List RequestRow → Option ReadRow
  unfolding first normalized
  get_by_request_id doc_id request_id rows = elim (first (has_id doc_id request_id) rows) [
    | none ↦ none
    | some r ↦ some (normalized r)
  ]

-- ===== src/Db/Member.antt =====
-- src/db/repos/docMemberRepo.ts: the `doc_member` rows, one for each document and user.
pub mod Laws
use octo_docs_backend.Base.{
  ℕ, ◌+◌, Bool, true, false, ◌&&◌, ◌||◌, not, Option, none, some, ◌>>=◌, List, [], ◌∷◌, Text,
  text_eq, ltb, leb, ◌==◌, if◌then◌else◌,
}
use octo_docs_backend.Permission.Role.{Role, role_from_number}

pub record MemberRow : Type 0 where
  pub doc_id : Text
  pub uid : Text
  pub role : ℕ
  pub granted_by : Text
  pub source : ℕ  -- 1 direct, 2 invite
  pub invite_token : Text

abbrev pub source_direct : ℕ
source_direct = 1

abbrev pub source_invite : ℕ
source_invite = 2

-- The WHERE clause `doc_id = ? AND uid = ?`.
unfoldable pub has_key : Text → Text → MemberRow → Bool
has_key doc_id uid r = text_eq r.doc_id doc_id && text_eq r.uid uid

-- The row of a document and a user.
unfoldable pub find_row : List MemberRow → Text → Text → Option MemberRow
find_row [] doc_id uid = none
find_row (r ∷ rows) doc_id uid = if has_key doc_id uid r then some r else find_row rows doc_id uid

-- `getRole` and `getRoleTx`.
unfoldable pub get_role : List MemberRow → Text → Text → Option Role
get_role rows doc_id uid = do r ← find_row rows doc_id uid; role_from_number r.role

-- `list`.
unfoldable pub list : List MemberRow → Text → List MemberRow
list [] doc_id = []
list (r ∷ rows) doc_id = if text_eq r.doc_id doc_id then r ∷ list rows doc_id else list rows doc_id

-- INSERT … ON DUPLICATE KEY UPDATE: `change` on the row with the key of `fresh`, or `fresh` appended.
unfoldable pub upsert : (MemberRow → MemberRow) → MemberRow → List MemberRow → List MemberRow
upsert change fresh [] = fresh ∷ []
upsert change fresh (r ∷ rows) =
    if has_key fresh.doc_id fresh.uid r then change r ∷ rows else r ∷ upsert change fresh rows

-- The row that the direct paths insert.
unfoldable pub direct_row : Text → Text → ℕ → Text → MemberRow
direct_row doc_id uid role_num granted_by = record {
  doc_id = doc_id;
  uid = uid;
  role = role_num;
  granted_by = granted_by;
  source = source_direct;
  invite_token = [];
}

-- `upsertDirect` and `upsertDirectTx`.
unfoldable pub upsert_direct : Text → Text → ℕ → Text → List MemberRow → List MemberRow
unfolding direct_row
upsert_direct doc_id uid role_num granted_by =
    upsert (λ r. record r { role = role_num; granted_by = granted_by })
      (direct_row doc_id uid role_num granted_by)

-- `remove`.
unfoldable pub remove : Text → Text → List MemberRow → List MemberRow
remove doc_id uid [] = []
remove doc_id uid (r ∷ rows) =
    if has_key doc_id uid r then remove doc_id uid rows else r ∷ remove doc_id uid rows

-- The row that an accepted invite inserts.
unfoldable pub invite_row : Text → Text → ℕ → Text → Text → MemberRow
invite_row doc_id uid role_num granted_by token = record {
  doc_id = doc_id;
  uid = uid;
  role = role_num;
  granted_by = granted_by;
  source = source_invite;
  invite_token = token;
}

-- `upsertFromInviteTx`.
unfoldable pub upsert_from_invite : Text → Text → ℕ → Text → Text → List MemberRow → List MemberRow
unfolding invite_row
upsert_from_invite doc_id uid role_num granted_by token =
    upsert
      (λ r. record r {
        role = role_num;
        granted_by = granted_by;
        source = source_invite;
        invite_token = token;
      })
      (invite_row doc_id uid role_num granted_by token)

-- `roleRankSql`: MySQL's `FIELD(n, 1, 4, 2, 3)`, the position of `n` in the list, or 0.
unfoldable pub role_rank_sql : ℕ → ℕ
role_rank_sql n =
    if n == 1 then 1 else if n == 4 then 2 else if n == 2 then 3 else if n == 3 then 4 else 0

-- The two IF assignments of `upsertGrantMax`, made from left to right: `granted_by`, then `role`.
unfoldable pub raise : ℕ → Text → MemberRow → MemberRow
unfolding role_rank_sql
raise role_num granted_by r =
    let audited : MemberRow = record r {
      granted_by =
          if ltb (role_rank_sql r.role) (role_rank_sql role_num) then granted_by else r.granted_by;
    } in
    record audited {
      role =
          if ltb (role_rank_sql audited.role) (role_rank_sql role_num)
          then role_num
          else audited.role;
    }

-- `affectedRows` of `upsertGrantMax`: 1 for an insert, 2 for an update that changes the row; what
-- the driver reports for a row set to its current values is the parameter.
unfoldable pub affected_rows : ℕ → Text → Text → ℕ → List MemberRow → ℕ
unfolding role_rank_sql
affected_rows unchanged doc_id uid role_num rows = elim (find_row rows doc_id uid) [
  | none ↦ 1
  | some r ↦ if ltb (role_rank_sql r.role) (role_rank_sql role_num) then 2 else unchanged
]

-- `upsertGrantMax`: the table after it, and whether a row was inserted or changed.
unfoldable pub upsert_grant_max :
    ℕ → Text → Text → ℕ → Text → List MemberRow → List MemberRow × Bool
unfolding raise direct_row affected_rows
upsert_grant_max unchanged doc_id uid role_num granted_by rows = (
  upsert (raise role_num granted_by) (direct_row doc_id uid role_num granted_by) rows,
  ltb 0 (affected_rows unchanged doc_id uid role_num rows),
)

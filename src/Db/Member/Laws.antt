-- ===== src/Db/Member/Laws.antt =====
-- Member rows (src/db/repos/docMemberRepo.ts) read back after a write.
use octo_docs_backend.Base.{
  ℕ, ◌<◌, ◌≡◌, ◌↔◌, ◌&&◌, Option, none, some, List, [], ◌∷◌, Text, text_eq, text_eq_iff,
  if◌then◌else◌, arith,
}
use octo_docs_backend.Permission.Role.{Role, role, role_rank, role_from_number}
use octo_docs_backend.Db.Member.{MemberRow, has_key, find_row, upsert, remove, role_rank_sql}

-- The SQL rank orders the stored numbers of the roles as `roleRank` orders the roles.
pub role_rank_sql-lt_iff :
    (m n : ℕ) (a b : Role)
    → role_from_number m ≡ some a
    → role_from_number n ≡ some b
    → (role_rank_sql m < role_rank_sql n) ↔ (role_rank (role a) < role_rank (role b))
unfolding role_rank_sql role_rank role_from_number
role_rank_sql-lt_iff m n a b h k = ground arith

-- What an upsert leaves under its key.
abbrev pub written : (MemberRow → MemberRow) → MemberRow → Option MemberRow → MemberRow
written change fresh none = fresh
written change fresh (some r) = change r

module _ (change : MemberRow → MemberRow) (fresh : MemberRow)
    (keeps : (r : MemberRow) → ((change r).doc_id ≡ r.doc_id) × ((change r).uid ≡ r.uid)) where
  -- Reading any key after an upsert: the row written under its own key, every other row as before.
  pub find_row-upsert :
      (doc_id uid : Text) (rows : List MemberRow)
      → find_row (upsert change fresh rows) doc_id uid ≡ (
          if has_key doc_id uid fresh
          then some (written change fresh (find_row rows doc_id uid))
          else find_row rows doc_id uid)
  unfolding find_row upsert has_key
  find_row-upsert doc_id uid [] = ground arith
  find_row-upsert doc_id uid (r ∷ rows) = ground (
    arith,
    keeps r,
    find_row-upsert doc_id uid rows,
    text_eq_iff r.doc_id fresh.doc_id,
    text_eq_iff r.uid fresh.uid,
    text_eq_iff r.doc_id doc_id,
    text_eq_iff r.uid uid,
    text_eq_iff fresh.doc_id doc_id,
    text_eq_iff fresh.uid uid,
  )

-- After a removal the key has no row, and every other row is as before.
pub find_row-remove :
    (d u doc_id uid : Text) (rows : List MemberRow)
    → find_row (remove d u rows) doc_id uid
      ≡ (if text_eq d doc_id && text_eq u uid then none else find_row rows doc_id uid)
unfolding find_row remove has_key
find_row-remove d u doc_id uid [] = ground arith
find_row-remove d u doc_id uid (r ∷ rows) = ground (
  arith,
  find_row-remove d u doc_id uid rows,
  text_eq_iff r.doc_id d,
  text_eq_iff r.uid u,
  text_eq_iff r.doc_id doc_id,
  text_eq_iff r.uid uid,
  text_eq_iff d doc_id,
  text_eq_iff u uid,
)

-- ===== src/Grant/Laws.antt =====
-- The tables before and after a forward grant of src/api/services/grantForward.ts.
use mathlib.Core.Path.{subst}
use octo_docs_backend.Base.{
  ℕ, ◌+◌, ◌<◌, max, ◌≡◌, refl, ◌≢◌, ◌↔◌, ◌⊎◌, inl, inr, true, false, some, List, Text, text_eq_iff,
  text_eq_refl, ltb, if◌then◌else◌, Option-cases, Bool-cases, ok, arith,
}
use octo_docs_backend.Permission.Role.{
  Role, admin, ResolvedRole, no_role, role, role_from_number, role_rank,
}
use octo_docs_backend.Permission.Resolve.{or_none, resolve_role}
use octo_docs_backend.Db.{Tables}
use octo_docs_backend.Db.Meta.{DocMeta, get_by_doc_id, bump_epoch, read_epoch}
use octo_docs_backend.Db.Meta.Laws.{get_by_doc_id-bump_epoch_tx}
use octo_docs_backend.Db.Member.{
  MemberRow, has_key, find_row, get_role, direct_row, role_rank_sql, raise, affected_rows,
  upsert_grant_max,
}
use octo_docs_backend.Db.Member.Laws.{written, find_row-upsert}
use octo_docs_backend.Grant.{
  Granted, final_of, is_admin, grant_below_admin, grant_role, grant_forward_access,
}

-- The stored number of a raised row stands for the larger of the two roles.
raise-role :
    (n : ℕ) (by : Text) (r : MemberRow) (granted : Role)
    → role_from_number n ≡ some granted
    → role_from_number (raise n by r).role
      ≡ some (final_of (or_none (role_from_number r.role)) granted)
unfolding raise role_from_number final_of role_rank
raise-role n by r granted h = ground arith

final_of-no_role : (granted : Role) → final_of no_role granted ≡ granted
unfolding final_of
final_of-no_role granted = refl

raise_fresh :
    (n : ℕ) (granted : Role)
    → role_from_number n ≡ some granted
    → (ltb 0 1 ≡ true) ↔ (role_rank no_role < role_rank (role granted))
unfolding role_rank
raise_fresh n granted h = (λ _. ground arith, λ _. refl)

raise_old :
    (unchanged n old : ℕ) (granted : Role)
    → role_from_number n ≡ some granted
    → unchanged ≡ 0
    → (ltb 0 (if ltb (role_rank_sql old) (role_rank_sql n) then 2 else unchanged) ≡ true)
      ↔ (role_rank (or_none (role_from_number old)) < role_rank (role granted))
unfolding role_rank role_rank_sql role_from_number
raise_old unchanged n old granted h e = (λ c. ground arith, λ c. ground arith)

module _ (unchanged : ℕ) (d u : Text) (n : ℕ) (by : Text) (rows : List MemberRow) where
  pub find_row-grant_max :
      (doc_id uid : Text)
      → find_row (upsert_grant_max unchanged d u n by rows).0 doc_id uid ≡ (
          if has_key doc_id uid (direct_row d u n by)
          then some (written (raise n by) (direct_row d u n by) (find_row rows doc_id uid))
          else find_row rows doc_id uid)
  unfolding upsert_grant_max
  find_row-grant_max doc_id uid =
      find_row-upsert (raise n by) (direct_row d u n by) (λ r. unfold raise in (refl, refl)) doc_id
        uid rows

  -- The grant gives the user the larger of the old and the granted role.
  pub get_role-grant_max :
      (granted : Role)
      → role_from_number n ≡ some granted
      → get_role (upsert_grant_max unchanged d u n by rows).0 d u
        ≡ some (final_of (or_none (get_role rows d u)) granted)
  unfolding get_role has_key direct_row
  get_role-grant_max granted h = elim (Option-cases (find_row rows d u)) [
    | inl e ↦
        ground
          (arith, find_row-grant_max d u, text_eq_refl d, text_eq_refl u, final_of-no_role granted)
    | inr (r, e) ↦
        ground (
          arith,
          find_row-grant_max d u,
          text_eq_refl d,
          text_eq_refl u,
          raise-role n by r granted h,
        )
  ]

  -- With a driver that reports 0 rows for a row that keeps its values, the grant reports a change
  -- exactly when the granted role is above the old one.
  pub grant_max-changed_iff :
      (granted : Role)
      → role_from_number n ≡ some granted
      → unchanged ≡ 0
      → ((upsert_grant_max unchanged d u n by rows).1 ≡ true)
        ↔ (role_rank (or_none (get_role rows d u)) < role_rank (role granted))
  unfolding upsert_grant_max get_role
  grant_max-changed_iff granted h e = elim (Option-cases (find_row rows d u)) [
    | inl f ↦ rw (f, affected_rows, get_role) (raise_fresh n granted h)
    | inr (r, f) ↦ rw (f, affected_rows, get_role) (raise_old unchanged n r.role granted h e)
  ]

final_of-rank :
    (current : ResolvedRole) (granted : Role)
    → role_rank (role (final_of current granted))
      ≡ max (role_rank current) (role_rank (role granted))
unfolding final_of role_rank
final_of-rank no_role granted = ground arith
final_of-rank (role x) granted = ground arith

module _ (unchanged : ℕ) (db : Tables) (d u : Text) (n : ℕ) (by : Text) (granted : Role)
    (m : DocMeta) (stored : get_by_doc_id db.doc_meta d ≡ some m)
    (known : role_from_number n ≡ some granted) where
  -- The document's row after the grant keeps its owner.
  resolve_role-below_admin :
      is_admin (resolve_role db u d) ≡ false
      → resolve_role
          (grant_below_admin unchanged db d u n by (resolve_role db u d) granted).tables
          u
          d
        ≡ role (final_of (resolve_role db u d) granted)
  unfolding grant_below_admin resolve_role bump_epoch
  resolve_role-below_admin h = ground (
    arith,
    get_role-grant_max unchanged d u n by db.doc_member granted known,
    get_by_doc_id-bump_epoch_tx db.doc_meta d d,
    text_eq_refl d,
  )

  epoch-below_admin :
      (current : ResolvedRole)
      → let g = grant_below_admin unchanged db d u n by current granted in
        read_epoch g.tables.doc_meta d
        ≡ (if g.changed then m.permission_epoch + 1 else m.permission_epoch)
  unfolding grant_below_admin bump_epoch read_epoch
  epoch-below_admin current =
      ground (arith, get_by_doc_id-bump_epoch_tx db.doc_meta d d, text_eq_refl d)

  abbrev IsRaised : Granted → Type 0
  IsRaised g =
      (resolve_role g.tables u d ≡ role g.final_role)
      × (role_rank (role g.final_role)
          ≡ max (role_rank (resolve_role db u d)) (role_rank (role granted)))
      × (read_epoch g.tables.doc_meta d
          ≡ (if g.changed then m.permission_epoch + 1 else m.permission_epoch))

  admin_top :
      (current : ResolvedRole)
      → is_admin current ≡ true
      → (current ≡ role admin)
        × (role_rank (role admin) ≡ max (role_rank current) (role_rank (role granted)))
  unfolding role_rank
  admin_top current h = (ground arith, ground arith)

  epoch_stored : read_epoch db.doc_meta d ≡ m.permission_epoch
  unfolding read_epoch
  epoch_stored = ground arith

  grant_role-IsRaised : IsRaised (grant_role unchanged db d u n by granted)
  unfolding grant_role
  grant_role-IsRaised = elim (Bool-cases (is_admin (resolve_role db u d))) [
    | inl h ↦
        let (top, rank) = admin_top (resolve_role db u d) h in
        rw (h, grant_role) (top, rank, epoch_stored)
    | inr h ↦
        rw (h, grant_role)
          (
            resolve_role-below_admin h,
            final_of-rank (resolve_role db u d) granted,
            epoch-below_admin (resolve_role db u d),
          )
  ]

  -- A forward grant of a known role on a stored document leaves the user with the larger of the
  -- role held and the role granted, which is the role that it answers, and it adds one to the
  -- document's epoch exactly when it reports a change.
  pub grant_forward_raises :
      (g : Granted)
      → grant_forward_access unchanged db d u n by ≡ ok g
      → (resolve_role g.tables u d ≡ role g.final_role)
        × (role_rank (role g.final_role)
            ≡ max (role_rank (resolve_role db u d)) (role_rank (role granted)))
        × (read_epoch g.tables.doc_meta d
            ≡ (if g.changed then m.permission_epoch + 1 else m.permission_epoch))
  grant_forward_raises g h = subst IsRaised granted_value grant_role-IsRaised
    where
      granted_value : grant_role unchanged db d u n by granted ≡ g
      granted_value = unfold grant_forward_access in ground arith

-- A successful grant leaves the member rows of every other document or user as before.
pub grant_forward-other :
    (unchanged : ℕ) (db : Tables) (d u : Text) (n : ℕ) (by : Text) (g : Granted) (doc_id uid : Text)
    → grant_forward_access unchanged db d u n by ≡ ok g
    → (doc_id ≢ d) ⊎ (uid ≢ u)
    → find_row g.tables.doc_member doc_id uid ≡ find_row db.doc_member doc_id uid
unfolding grant_forward_access has_key direct_row
grant_forward-other unchanged db d u n by g doc_id uid h other = ground (
  arith,
  find_row-grant_max unchanged d u n by db.doc_member doc_id uid,
  text_eq_iff d doc_id,
  text_eq_iff u uid,
)

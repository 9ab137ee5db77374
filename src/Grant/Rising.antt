-- ===== src/Grant/Rising.antt =====
-- What the forward grant of src/api/services/grantForward.ts leaves of the roles of all users.
use mathlib.Core.Path.{subst}
use octo_docs_backend.Base.{
  ok-injective, ℕ, ◌≤◌, ◌+◌, ◌≡◌, refl, ◌∙◌, inl, inr, some, List, Text, text_eq, Option-cases,
  Bool-cases, ok, arith,
}
use octo_docs_backend.Permission.Role.{Role, ResolvedRole, role, role_from_number, role_rank}
use octo_docs_backend.Permission.Resolve.{or_none, resolve_role}
use octo_docs_backend.Db.{Tables}
use octo_docs_backend.Db.Meta.{DocMeta, get_by_doc_id, bump_epoch}
use octo_docs_backend.Db.Meta.Laws.{get_by_doc_id-bump_epoch_tx}
use octo_docs_backend.Db.Member.{
  MemberRow, find_row, get_role, raise, upsert_grant_max, role_rank_sql,
}
use octo_docs_backend.Grant.{Granted, is_admin, grant_below_admin, grant_role, grant_forward_access}
use octo_docs_backend.Grant.Laws.{find_row-grant_max}

-- No member row loses rank, and no document loses its row or its owner.
pub record Rises (before after : Tables) : Type 0 where
  pub members :
      (d u : Text)
      → role_rank (or_none (get_role before.doc_member d u))
        ≤ role_rank (or_none (get_role after.doc_member d u))
  pub owners :
      (d : Text) (m : DocMeta)
      → get_by_doc_id before.doc_meta d ≡ some m
      → (n : DocMeta) × (get_by_doc_id after.doc_meta d ≡ some n) × (n.owner_id ≡ m.owner_id)

pub Rises-refl : (t : Tables) → Rises t t
Rises-refl t = record { members = λ d u. omega arith; owners = λ d m h. (m, h, refl) }

pub Rises-trans : (s t v : Tables) → Rises s t → Rises t v → Rises s v
Rises-trans s t v h k = record {
  members = λ d u. omega (arith, h.members d u, k.members d u);
  owners =
      λ d m e. let (n, f, p) = h.owners d m e in let (o, g, q) = k.owners d n f in (o, g, q ∙ p);
}

-- A user resolves to at least the role that was resolved before.
pub resolve_role-Rises :
    (s t : Tables) (u d : Text)
    → Rises s t
    → role_rank (resolve_role s u d) ≤ role_rank (resolve_role t u d)
unfolding resolve_role
resolve_role-Rises s t u d h = elim (Option-cases (get_by_doc_id s.doc_meta d)) [
  | inl e ↦ unfold role_rank in rw (e, resolve_role) (omega arith)
  | inr (m, e) ↦
      let (n, f, p) = h.owners d m e in
      rw (e, f, p, resolve_role)
        (elim (Bool-cases (text_eq u m.owner_id)) [
          | inl o ↦ rw (o) (omega arith)
          | inr o ↦ rw (o) (h.members d u)
        ])
]

raise-rank :
    (n : ℕ) (by : Text) (r : MemberRow)
    → role_rank (or_none (role_from_number r.role))
      ≤ role_rank (or_none (role_from_number (raise n by r).role))
unfolding raise role_from_number role_rank role_rank_sql
raise-rank n by r = ground arith

module _ (unchanged : ℕ) (d u : Text) (n : ℕ) (by : Text) where
  grant_max-rank :
      (rows : List MemberRow) (doc_id uid : Text)
      → role_rank (or_none (get_role rows doc_id uid))
        ≤ role_rank (or_none (get_role (upsert_grant_max unchanged d u n by rows).0 doc_id uid))
  unfolding get_role
  grant_max-rank rows doc_id uid = elim (Option-cases (find_row rows doc_id uid)) [
    | inl e ↦ unfold role_rank in rw (e, get_role) (omega arith)
    | inr (r, e) ↦
        ground (arith, find_row-grant_max unchanged d u n by rows doc_id uid, e, raise-rank n by r)
  ]

  bump_epoch-owners :
      (metas : List DocMeta) (doc_id : Text) (m : DocMeta)
      → get_by_doc_id metas doc_id ≡ some m
      → (k : DocMeta) × (get_by_doc_id (bump_epoch metas d).0 doc_id ≡ some k)
        × (k.owner_id ≡ m.owner_id)
  unfolding bump_epoch
  bump_epoch-owners metas doc_id m h = elim (Bool-cases (text_eq d doc_id)) [
    | inl e ↦ (
      record m { permission_epoch = m.permission_epoch + 1 },
      ground (arith, get_by_doc_id-bump_epoch_tx metas d doc_id, e, h),
      refl,
    )
    | inr e ↦ (m, ground (arith, get_by_doc_id-bump_epoch_tx metas d doc_id, e, h), refl)
  ]

  below_admin-Rises :
      (db : Tables) (current : ResolvedRole) (granted : Role)
      → Rises db (grant_below_admin unchanged db d u n by current granted).tables
  unfolding grant_below_admin
  below_admin-Rises db current granted =
      elim (Bool-cases ((upsert_grant_max unchanged d u n by db.doc_member).1)) [
        | inl e ↦
            rw (e, grant_below_admin)
              (record {
                members = grant_max-rank db.doc_member;
                owners = bump_epoch-owners db.doc_meta;
              })
        | inr e ↦
            rw (e, grant_below_admin)
              (record {
                members = grant_max-rank db.doc_member;
                owners = λ doc_id m h. (m, h, refl);
              })
      ]

  grant_role-Rises :
      (db : Tables) (granted : Role) → Rises db (grant_role unchanged db d u n by granted).tables
  unfolding grant_role
  grant_role-Rises db granted = elim (Bool-cases (is_admin (resolve_role db u d))) [
    | inl e ↦ rw (e, grant_role) (Rises-refl db)
    | inr e ↦ rw (e, grant_role) (below_admin-Rises db (resolve_role db u d) granted)
  ]

  -- A forward grant that succeeds is the grant of a known role below admin.
  pub grant_forward-granted :
      (db : Tables) (g : Granted)
      → grant_forward_access unchanged db d u n by ≡ ok g
      → (granted : Role) × (role_from_number n ≡ some granted)
        × (grant_role unchanged db d u n by granted ≡ g)
  unfolding grant_forward_access
  grant_forward-granted db g h = elim (Option-cases (role_from_number n)) [
    | inl e ↦ cc (rw (e, grant_forward_access) at h)
    | inr (granted, e) ↦ elim (Bool-cases (is_admin (role granted))) [
      | inl a ↦ cc (rw (e, a, grant_forward_access) at h)
      | inr a ↦ (
        granted,
        e,
        ok-injective (grant_role unchanged db d u n by granted) g _ refl
            (rw (e, a, grant_forward_access) at h),
      )
    ]
  ]

  pub grant_forward-Rises :
      (db : Tables) (g : Granted)
      → grant_forward_access unchanged db d u n by ≡ ok g
      → Rises db g.tables
  grant_forward-Rises db g h =
      let (granted, e, p) = grant_forward-granted db g h in
      subst (λ k. Rises db k.tables) p (grant_role-Rises db granted)

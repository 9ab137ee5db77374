-- ===== src/Access/Bots/Attempts.antt =====
-- One try of the grants in src/api/services/grantRequestWithBots.ts.
use mathlib.Core.Path.{subst}
use mathlib.Core.Option.{some-injective}
use octo_docs_backend.Base.{
  ℕ, ◌≤◌, ◌≡◌, refl, inl, inr, some, Text, Result-cases, Bool-cases, ok, arith,
}
use octo_docs_backend.Permission.Role.{Role, role, role_from_number, role_rank}
use octo_docs_backend.Permission.Resolve.{resolve_role}
use octo_docs_backend.Db.{Tables}
use octo_docs_backend.Db.Meta.{DocMeta, get_by_doc_id}
use octo_docs_backend.Grant.{Granted, grant_forward_access}
use octo_docs_backend.Grant.Laws.{grant_forward_raises}
use octo_docs_backend.Grant.Rising.{Rises, Rises-refl, grant_forward-Rises, grant_forward-granted}
use octo_docs_backend.Access.Bots.{Fault, no_fault, at_grant, at_bump, attempt}

module _ (unchanged : ℕ) (d : Text) (n : ℕ) (by : Text) where
  -- Whatever fails, a try lowers nobody.
  pub attempt-Rises :
      (f : Fault) (db : Tables) (u : Text) → Rises db (attempt f unchanged db d u n by).0
  unfolding attempt
  attempt-Rises at_grant db u = Rises-refl db
  attempt-Rises no_fault db u = elim (Result-cases (grant_forward_access unchanged db d u n by)) [
    | inl (e, h) ↦ rw (h, attempt) (Rises-refl db)
    | inr (g, h) ↦ rw (h, attempt) (grant_forward-Rises unchanged d u n by db g h)
  ]
  attempt-Rises at_bump db u = elim (Result-cases (grant_forward_access unchanged db d u n by)) [
    | inl (e, h) ↦ rw (h, attempt) (Rises-refl db)
    | inr (g, h) ↦ elim (Bool-cases g.changed) [
      | inl c ↦
          rw (h, c, attempt)
            (record {
              members = (grant_forward-Rises unchanged d u n by db g h).members;
              owners = λ doc_id m e. (m, e, refl);
            })
      | inr c ↦ rw (h, c, attempt) (grant_forward-Rises unchanged d u n by db g h)
    ]
  ]

  -- A try that does not throw leaves the user with the answered role, which is at least the one
  -- granted.
  abbrev pub IsGranted : Text → Tables → Role → Type 0
  IsGranted u t r =
      (granted : Role) × (role_from_number n ≡ some granted)
      × (resolve_role t u d ≡ role r)
      × (role_rank (role granted) ≤ role_rank (role r))

  pub grant_forward-IsGranted :
      (db : Tables) (u : Text) (m : DocMeta) (g : Granted)
      → get_by_doc_id db.doc_meta d ≡ some m
      → grant_forward_access unchanged db d u n by ≡ ok g
      → IsGranted u g.tables g.final_role
  grant_forward-IsGranted db u m g s h =
      let (granted, known, _) = grant_forward-granted unchanged d u n by db g h in
      let (a, b, _) = grant_forward_raises unchanged db d u n by granted m s known g h in
      (granted, known, a, omega (arith, b))

  pub attempt-IsGranted :
      (f : Fault) (db : Tables) (u : Text) (m : DocMeta) (r : Role)
      → get_by_doc_id db.doc_meta d ≡ some m
      → (attempt f unchanged db d u n by).1 ≡ some r
      → IsGranted u (attempt f unchanged db d u n by).0 r
  unfolding attempt
  attempt-IsGranted at_grant db u m r s h = cc
  attempt-IsGranted no_fault db u m r s h =
      elim (Result-cases (grant_forward_access unchanged db d u n by)) [
        | inl (e, q) ↦ cc (rw (q, attempt) at h)
        | inr (g, q) ↦
            rw (q, attempt)
              (subst (IsGranted u g.tables) (some-injective g.final_role r (rw (q, attempt) at h))
                (grant_forward-IsGranted db u m g s q))
      ]
  attempt-IsGranted at_bump db u m r s h =
      elim (Result-cases (grant_forward_access unchanged db d u n by)) [
        | inl (e, q) ↦ cc (rw (q, attempt) at h)
        | inr (g, q) ↦ elim (Bool-cases g.changed) [
          | inl c ↦ cc (rw (q, c, attempt) at h)
          | inr c ↦
              rw (q, c, attempt)
                (subst (IsGranted u g.tables)
                  (some-injective g.final_role r (rw (q, c, attempt) at h))
                  (grant_forward-IsGranted db u m g s q))
        ]
      ]

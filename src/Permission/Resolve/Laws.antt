-- ===== src/Permission/Resolve/Laws.antt =====
-- The three places that resolve a role, and the answers of the REST guard of src/api/guard.ts.
use mathlib.Core.Option.{some-injective}
use octo_docs_backend.Base.{
  ◌≡◌, refl, ap, ◌≢◌, ◌↔◌, ◌⊎◌, Bool, true, Option, none, some, Text, text_eq_iff, if◌then◌else◌,
  Option-cases, inl, inr, arith,
}
use octo_docs_backend.Permission.Role.{Role, ResolvedRole, no_role, role, role_rank, role_at_least}
use octo_docs_backend.Permission.Share.{effective_role}
use octo_docs_backend.Permission.Resolve.{
  direct_role, resolve_role, resolve_doc_meta_by_name, recheck_current_role, Caller, token_or_blank,
  status, passed, resolve_effective_role, guard_role, guard_meta, require_doc_role,
}
use octo_docs_backend.Db.{Tables}
use octo_docs_backend.Db.Meta.{DocMeta, get_by_doc_id}

-- No document that the caller's space may know of.
abbrev pub IsHidden : Text → Option DocMeta → Type 0
IsHidden space_id none = Unit
IsHidden space_id (some m) = (m.status ≡ 0) ⊎ (m.space_id ≢ space_id)

module _ (is_space_member : Text → Text → Text → Bool) where
  -- Whether the caller counts as a member of the document's space.
  abbrev pub is_member : Text → DocMeta → Caller → Bool
  is_member uid meta caller =
      if caller.is_bot
      then true
      else is_space_member uid meta.space_id (token_or_blank caller.token)

  -- Skipping the membership lookup changes no result: the role is always the effective role of the
  -- direct role, the caller's membership and the document's share settings.
  pub resolve_effective_role-eq_effective_role :
      (uid : Text) (direct : ResolvedRole) (meta : DocMeta) (caller : Caller)
      → resolve_effective_role is_space_member uid direct meta caller
        ≡ effective_role direct (is_member uid meta caller) meta.share_scope meta.share_role
  unfolding resolve_effective_role effective_role role_at_least
  resolve_effective_role-eq_effective_role uid direct meta caller = ground arith

  -- The write recheck on a socket resolves the same role as the REST guard: for a document found
  -- by its name and stored under its id, when the claim on the socket is the user's membership.
  pub recheck-eq_resolve_effective_role :
      (db : Tables) (name uid : Text) (meta : DocMeta) (caller : Caller)
      → resolve_doc_meta_by_name db name ≡ some meta
      → get_by_doc_id db.doc_meta meta.doc_id ≡ some meta
      → recheck_current_role db name uid (is_member uid meta caller)
        ≡ resolve_effective_role is_space_member uid (resolve_role db uid meta.doc_id) meta caller
  unfolding recheck_current_role resolve_role
  recheck-eq_resolve_effective_role db name uid meta caller h k = ground (
    arith,
    resolve_effective_role-eq_effective_role uid (direct_role db meta meta.doc_id uid) meta caller,
  )

  guard_role-passed_iff :
      (m meta : DocMeta) (min_role : Role) (e r : ResolvedRole)
      → (guard_role is_space_member m e min_role ≡ passed meta r)
        ↔ ((m ≡ meta) × (e ≡ r) × (role_at_least r (role min_role) ≡ true))
  unfolding guard_role role_at_least role_rank
  guard_role-passed_iff m meta min_role no_role r = (λ h. cc, λ h. ground arith)
  guard_role-passed_iff m meta min_role (role x) r = (λ h. ground arith, λ h. ground arith)

  guard_role-ne-404 :
      (m : DocMeta) (e : ResolvedRole) (min_role : Role)
      → guard_role is_space_member m e min_role ≢ status 404
  unfolding guard_role
  guard_role-ne-404 m no_role min_role = λ h. ground arith
  guard_role-ne-404 m (role x) min_role = λ h. ground arith

  module _ (db : Tables) (uid doc_id space_id : Text) (min_role : Role) (caller : Caller) where
    guard_meta-passed_iff :
        (m meta : DocMeta) (r : ResolvedRole)
        → (guard_meta is_space_member db uid doc_id space_id min_role caller m ≡ passed meta r) ↔ (
            (m ≡ meta)
            × (meta.status ≢ 0)
            × (meta.status ≢ 2)
            × (meta.space_id ≡ space_id)
            × (resolve_effective_role is_space_member uid (resolve_role db uid doc_id) meta caller
                ≡ r)
            × (role_at_least r (role min_role) ≡ true))
    unfolding guard_meta
    guard_meta-passed_iff m meta r =
        let e = resolve_effective_role is_space_member uid (resolve_role db uid doc_id) m caller in
        let law = guard_role-passed_iff m meta min_role e r in
        let same = text_eq_iff m.space_id space_id in
        (λ h. ground (arith, law, same), λ h. ground (arith, law, same))

    guard_meta-404_iff :
        (m : DocMeta)
        → (guard_meta is_space_member db uid doc_id space_id min_role caller m ≡ status 404)
          ↔ ((m.status ≡ 0) ⊎ (m.space_id ≢ space_id))
    unfolding guard_meta
    guard_meta-404_iff m =
        let e = resolve_effective_role is_space_member uid (resolve_role db uid doc_id) m caller in
        let law = guard_role-ne-404 m e min_role in
        let same = text_eq_iff m.space_id space_id in
        (λ h. ground (arith, law, same), λ h. ground (arith, law, same))

    -- The guard passes a request with a role exactly when the document is stored, neither deleted
    -- nor archived, lies in the caller's space, and the role is the caller's effective role and at
    -- least the required one.
    pub require_doc_role-passed_iff :
        (meta : DocMeta) (r : ResolvedRole)
        → (require_doc_role is_space_member db uid doc_id space_id min_role caller ≡ passed meta r)
          ↔ ((get_by_doc_id db.doc_meta doc_id ≡ some meta)
              × (meta.status ≢ 0)
              × (meta.status ≢ 2)
              × (meta.space_id ≡ space_id)
              × (resolve_effective_role is_space_member uid (resolve_role db uid doc_id) meta caller
                  ≡ r)
              × (role_at_least r (role min_role) ≡ true))
    unfolding require_doc_role
    require_doc_role-passed_iff meta r = elim (Option-cases (get_by_doc_id db.doc_meta doc_id)) [
      | inl e ↦ rw (e, require_doc_role) (λ h. cc, λ h. cc)
      | inr (m, e) ↦
          rw (e, require_doc_role)
            (
              λ h.
                  let f = (guard_meta-passed_iff m meta r).0 h in
                  (ap some f.0, f.1, f.2, f.3, f.4, f.5),
              λ h.
                  (guard_meta-passed_iff m meta r).1
                    (some-injective m meta h.0, h.1, h.2, h.3, h.4, h.5),
            )
    ]

    -- The guard answers 404 exactly when no document is stored under the id, or it is deleted, or
    -- it lies in another space: the three cases are not told apart.
    pub require_doc_role-404_iff :
        (require_doc_role is_space_member db uid doc_id space_id min_role caller ≡ status 404)
        ↔ IsHidden space_id (get_by_doc_id db.doc_meta doc_id)
    unfolding require_doc_role
    require_doc_role-404_iff = elim (Option-cases (get_by_doc_id db.doc_meta doc_id)) [
      | inl e ↦ rw (e, require_doc_role) (λ h. tt, λ h. refl)
      | inr (m, e) ↦ rw (e, require_doc_role) (guard_meta-404_iff m)
    ]

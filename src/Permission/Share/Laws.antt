-- ===== src/Permission/Share/Laws.antt =====
-- `effectiveRole` of src/permission/shareScope.ts against the ranks of the roles.
use octo_docs_backend.Base.{◌≢◌, ℕ, max, ◌≡◌, ◌⊎◌, ◌↔◌, Bool, true, false, arith}
use octo_docs_backend.Permission.Role.{
  ResolvedRole, no_role, role, admin, writer, role_rank, role_at_least,
}
use octo_docs_backend.Permission.Share.{share_scope_anyone, share_derived, effective_role}

module _ (direct : ResolvedRole) (member : Bool) (scope share_role : ℕ) where
  -- The rank of the effective role is the maximum of the two ranks.
  pub role_rank-effective_role :
      role_rank (effective_role direct member scope share_role)
      ≡ max (role_rank direct) (role_rank (share_derived member scope share_role))
  unfolding effective_role
  role_rank-effective_role = ground arith

  -- The effective role is never below the direct one, and it differs from the direct one only for a
  -- member of the space, on a document shared with the space, whose direct role is below writer;
  -- sharing never makes an admin.
  pub effective_role_only_raises :
      (role_at_least (effective_role direct member scope share_role) direct ≡ true)
      × ((effective_role direct member scope share_role ≡ direct)
          ⊎ ((scope ≡ share_scope_anyone)
              × (member ≡ true)
              × (role_at_least direct (role writer) ≡ false)))
      × ((effective_role direct member scope share_role ≢ role admin) ⊎ (direct ≡ role admin))
  unfolding effective_role role_at_least
  effective_role_only_raises = (ground arith, ground arith, ground arith)

  -- A requester with no direct role gets in by sharing exactly when the stored scope is "anyone in
  -- space" and the requester is a member.
  pub share_access_iff :
      direct ≡ no_role
      → (effective_role direct member scope share_role ≢ no_role)
        ↔ ((scope ≡ share_scope_anyone) × (member ≡ true))
  unfolding effective_role
  share_access_iff e = ground arith

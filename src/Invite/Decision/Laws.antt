-- ===== src/Invite/Decision/Laws.antt =====
-- The branches of `decideAcceptBranch` (src/api/services/acceptDecision.ts).
use octo_docs_backend.Base.{◌<◌, ◌≡◌, ◌≢◌, ◌↔◌, ◌⊎◌, true, false, arith}
use octo_docs_backend.Permission.Role.{Role, ResolvedRole, no_role}
use octo_docs_backend.Db.Invite.{invite_status_revoked, invite_status_active, invite_status_expired}
use octo_docs_backend.Invite.Decision.{
  DecisionInput, noop, reaccept, first, is_past, decide_accept_branch,
}

-- A first accept is decided exactly for a user without a role who has not redeemed the invite, on
-- an existing document, while the invite is active, not past its expiry and, if its uses are
-- limited, below the limit; the role is the invite's.
pub decide-first_iff :
    (d : DecisionInput) (r : Role)
    → (decide_accept_branch d ≡ first r) ↔ (
        (d.invite.status ≡ invite_status_active)
        × (is_past d.invite.expires_at_ms d.now_ms ≡ false)
        × ((d.invite.max_uses ≡ 0) ⊎ (d.invite.used_count < d.invite.max_uses))
        × (d.redeemed ≡ false)
        × (d.doc_exists ≡ true)
        × (d.cur_role ≡ no_role)
        × (d.invite.role ≡ r))
unfolding decide_accept_branch
decide-first_iff d r = (λ h. ground arith, λ h. ground arith)

-- A second accept is decided exactly for a user without a role who redeemed the invite before, on
-- an existing document, unless the invite is revoked, marked expired or past its expiry: a used-up
-- invite does not stop it.
pub decide-reaccept_iff :
    (d : DecisionInput) (r : Role)
    → (decide_accept_branch d ≡ reaccept r) ↔ (
        (d.invite.status ≢ invite_status_revoked)
        × (d.invite.status ≢ invite_status_expired)
        × (is_past d.invite.expires_at_ms d.now_ms ≡ false)
        × (d.redeemed ≡ true)
        × (d.doc_exists ≡ true)
        × (d.cur_role ≡ no_role)
        × (d.invite.role ≡ r))
unfolding decide_accept_branch
decide-reaccept_iff d r = (λ h. ground arith, λ h. ground arith)

-- A no-op returns the role that the user already has, and only then.
pub decide-noop :
    (d : DecisionInput) (r : ResolvedRole)
    → decide_accept_branch d ≡ noop r
    → (r ≡ d.cur_role) × (d.cur_role ≢ no_role) × (d.doc_exists ≡ true)
unfolding decide_accept_branch
decide-noop d r h = ground arith

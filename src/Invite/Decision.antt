-- ===== src/Invite/Decision.antt =====
-- src/api/services/acceptDecision.ts: the pure decision of the accept flow.
pub mod Laws
use octo_docs_backend.Base.{
  ℕ, Bool, true, false, not, ◌&&◌, ◌||◌, Option, none, some, ltb, leb, ◌==◌, if◌then◌else◌,
}
use octo_docs_backend.Permission.Role.{Role, ResolvedRole, no_role, role, role_at_least}
use octo_docs_backend.Db.Invite.{
  invite_status_revoked, invite_status_active, invite_status_exhausted, invite_status_expired,
}

pub record InviteState : Type 0 where
  pub status : ℕ
  pub role : Role
  pub max_uses : ℕ
  pub used_count : ℕ
  pub expires_at_ms : Option ℕ

pub record DecisionInput : Type 0 where
  pub invite : InviteState
  pub cur_role : ResolvedRole
  pub redeemed : Bool
  pub doc_exists : Bool
  pub now_ms : ℕ

pub data AcceptDecision : Type 0 where
  gone : AcceptDecision
  noop : ResolvedRole → AcceptDecision
  reaccept first : Role → AcceptDecision

-- `invite.expiresAtMs !== null && invite.expiresAtMs <= nowMs`.
unfoldable pub is_past : Option ℕ → ℕ → Bool
is_past none now_ms = false
is_past (some at) now_ms = leb at now_ms

-- The local `exhausted`.
unfoldable pub is_exhausted : InviteState → Bool
is_exhausted i =
    (i.status == invite_status_exhausted) || (ltb 0 i.max_uses && leb i.max_uses i.used_count)

-- `curRole !== 'none'`.
abbrev pub has_role : ResolvedRole → Bool
has_role no_role = false
has_role (role r) = true

-- The branches a to d of step 4.
unfoldable pub decide_branch : ResolvedRole → Role → Bool → AcceptDecision
unfolding role_at_least
decide_branch cur_role invite_role redeemed =
    if has_role cur_role && role_at_least cur_role (role invite_role)
    then noop cur_role
    else if has_role cur_role
    then noop cur_role
    else if redeemed
    then reaccept invite_role
    else first invite_role

-- `decideAcceptBranch`.
unfoldable pub decide_accept_branch : DecisionInput → AcceptDecision
unfolding is_past is_exhausted decide_branch
decide_accept_branch d =
    if (d.invite.status == invite_status_revoked) || (d.invite.status == invite_status_expired)
    then gone
    else if is_past d.invite.expires_at_ms d.now_ms
    then gone
    else if is_exhausted d.invite && not d.redeemed
    then gone
    else if not (d.invite.status == invite_status_active) && not d.redeemed
    then gone
    else if not d.doc_exists
    then gone
    else decide_branch d.cur_role d.invite.role d.redeemed

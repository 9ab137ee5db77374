-- ===== src/Invite/Accept/Exhaustion.antt =====
-- The status that `incrementUsedCountTx` (src/db/repos/docInviteRepo.ts) gives an invite.
use octo_docs_backend.Base.{◌+◌, ◌≤◌, ◌<◌, ◌≡◌, ◌↔◌, false, arith}
use octo_docs_backend.Db.Invite.{
  InviteRow, invite_status_active, invite_status_exhausted, count_use,
}
use octo_docs_backend.Invite.Decision.{DecisionInput, gone, decide_accept_branch}

-- Counting a use of an active invite marks it exhausted exactly when its uses are limited and at
-- most one use is left after this one, since the CASE reads the count already incremented.
pub count_use-exhausted_iff :
    (r : InviteRow)
    → r.status ≡ invite_status_active
    → ((count_use r).status ≡ invite_status_exhausted)
      ↔ ((0 < r.max_uses) × (r.max_uses ≤ r.used_count + 2))
unfolding count_use
count_use-exhausted_iff r h = ground arith

-- So the last use of an invite with a limit of two or more is lost: when an active invite with two
-- uses left is used, one use is left, and yet a user who did not redeem it before is refused.
pub last_use_refused :
    (r : InviteRow) (d : DecisionInput)
    → r.status ≡ invite_status_active
    → r.max_uses ≡ r.used_count + 2
    → d.invite.status ≡ (count_use r).status
    → d.redeemed ≡ false
    → ((count_use r).used_count < (count_use r).max_uses) × (decide_accept_branch d ≡ gone)
unfolding count_use decide_accept_branch
last_use_refused r d a h s n = (ground arith, ground arith)

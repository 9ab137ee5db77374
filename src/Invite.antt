-- ===== src/Invite.antt =====
-- The invite links of a document: src/api/services/acceptDecision.ts and acceptInvite.ts.
pub mod Decision
pub mod Accept

-- ===== src/Db.antt =====
-- src/db/repos: the tables that permissions, invites and grants read and write. A table is the
-- list of its rows in the order of their insertion; the texts of a row compare by their codes.
pub mod Meta
pub mod Member
pub mod Invite
pub mod Request
use octo_docs_backend.Base.{List}
use Meta.{DocMeta}
use Member.{MemberRow}
use Invite.{InviteRow, Redemption}

pub record Tables : Type 0 where
  pub doc_meta : List DocMeta
  pub doc_member : List MemberRow
  pub doc_invite : List InviteRow
  pub doc_invite_redemption : List Redemption

-- ===== src/Examples.antt =====
-- Data for the concrete runs: a document that is shared with its space for reading, a reader `ann`,
-- and an invite for writers that `bob` has used once out of three times.
mod Invites
mod Roles
mod Sockets
mod Guards
mod Sheets
mod Requests
mod Fetches
mod Snapshots
mod Boards
use octo_docs_backend.Base.{ℕ, none, some, [], ◌∷◌, Text, codes, Option, true, Bool}
use octo_docs_backend.Db.{Tables}
use octo_docs_backend.Db.Meta.{DocMeta}
use octo_docs_backend.Db.Member.{MemberRow}
use octo_docs_backend.Db.Invite.{InviteRow, Redemption}

abbrev pub plan_name : Text
plan_name = codes "octo:s1:f1:d1"

abbrev pub plan : DocMeta
plan = record {
  doc_id = codes "d1";
  document_name = plan_name;
  owner_id = codes "own";
  space_id = codes "s1";
  folder_id = codes "f1";
  doc_type = codes "doc";
  status = 1;
  permission_epoch = 4;
  share_scope = 1;
  share_role = 1;
}

abbrev pub ann_row : MemberRow
ann_row = record {
  doc_id = codes "d1";
  uid = codes "ann";
  role = 1;
  granted_by = codes "own";
  source = 1;
  invite_token = [];
}

abbrev pub invite : InviteRow
invite = record {
  invite_token = codes "t";
  doc_id = codes "d1";
  role = 2;
  max_uses = 3;
  used_count = 1;
  expires_at = none;
  status = 1;
  created_by = codes "own";
}

abbrev pub db : Tables
db = record {
  doc_meta = plan ∷ [];
  doc_member = ann_row ∷ [];
  doc_invite = invite ∷ [];
  doc_invite_redemption = record { invite_token = codes "t"; uid = codes "bob" } ∷ [];
}

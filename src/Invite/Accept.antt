-- ===== src/Invite/Accept.antt =====
-- src/api/services/acceptInvite.ts: the accept transaction over the tables.
pub mod Cases
pub mod Ledger
pub mod Effect
pub mod Members
pub mod Exhaustion
pub mod Granted
pub mod Again
use octo_docs_backend.Base.{
  ℕ, ◌+◌, Bool, true, false, not, ◌&&◌, Option, none, some, List, [], ◌∷◌, Text, text_eq, ltb, leb,
  ◌==◌, if◌then◌else◌,
}
use octo_docs_backend.Permission.Role.{Role, ResolvedRole, no_role, role, admin, role_from_number}
use octo_docs_backend.Db.{Tables}
use octo_docs_backend.Db.Meta.{DocMeta, get_by_doc_id, bump_epoch_tx, read_epoch}
use octo_docs_backend.Db.Member.{get_role, upsert_from_invite}
use octo_docs_backend.Db.Invite.{
  InviteRow, invite_status_active, invite_status_exhausted, invite_status_expired, get,
  set_status_tx, increment_used_count_tx, redeemed_by, insert_tx,
}
use octo_docs_backend.Invite.Decision.{
  DecisionInput, AcceptDecision, gone, noop, reaccept, first, decide_accept_branch, is_past,
}

-- The body of a 200 answer.
pub record AcceptBody : Type 0 where
  pub doc : Option (Text × Text)  -- `docId` and `documentName`, absent on a no-op
  pub role : ResolvedRole

pub data AcceptResult : Type 0 where
  accepted : AcceptBody → AcceptResult
  login_required : AcceptResult  -- 401
  invite_invalid : AcceptResult  -- 410

-- The payload of the invalidation that is published after the commit.
pub record Publish : Type 0 where
  pub document_name : Text
  pub epoch : ℕ
  pub uid : Text

-- What the transaction leaves: the tables, the pending publication and the answer.
pub record Outcome : Type 0 where
  pub tables : Tables
  pub publish : Option Publish
  pub result : AcceptResult

-- An answer with nothing to publish.
abbrev pub answer : Tables → AcceptResult → Outcome
answer db r = record { tables = db; publish = none; result = r }

-- `role ?? 'none'`.
abbrev pub or_none : Option Role → ResolvedRole
or_none none = no_role
or_none (some r) = role r

-- `resolveRoleTx`.
unfoldable pub resolve_role_tx : Tables → DocMeta → Text → ResolvedRole
resolve_role_tx db meta uid =
    if text_eq uid meta.owner_id
    then role admin
    else or_none (get_role db.doc_member meta.doc_id uid)

-- `!!meta && meta.status !== 0`.
abbrev pub live : Option DocMeta → Bool
live none = false
live (some m) = not (m.status == 0)

-- The role read of step 3, on a live document.
unfoldable pub current_role : Tables → Option DocMeta → Text → ResolvedRole
unfolding resolve_role_tx
current_role db none uid = no_role
current_role db (some m) uid = if m.status == 0 then no_role else resolve_role_tx db m uid

-- The side effects of a rejected accept on the status of the invite.
unfoldable pub reject : Tables → Text → InviteRow → Bool → ℕ → Outcome
reject db token invite redeemed now_ms =
    if is_past invite.expires_at now_ms && (invite.status == invite_status_active)
    then answer (record db { doc_invite = set_status_tx invite_status_expired token db.doc_invite })
        invite_invalid
    else if (invite.status == invite_status_active)
        && ltb 0 invite.max_uses
        && leb invite.max_uses invite.used_count
        && not redeemed
    then answer
        (record db { doc_invite = set_status_tx invite_status_exhausted token db.doc_invite })
        invite_invalid
    else answer db invite_invalid

-- Branch d only: the redemption and the count of the use.
unfoldable pub redeem : Bool → Text → Text → Tables → Tables
redeem false token uid db = db
redeem true token uid db = record db {
  doc_invite_redemption = insert_tx token uid db.doc_invite_redemption;
  doc_invite = increment_used_count_tx token db.doc_invite;
}

-- Branches c and d: the member row, the redemption, the epoch and the publication.
unfoldable pub grant : Bool → Tables → Text → InviteRow → DocMeta → Text → Role → Outcome
unfolding redeem
grant is_first db token invite meta uid granted =
    let with_member : Tables = record db {
      doc_member =
          upsert_from_invite meta.doc_id uid invite.role invite.created_by token db.doc_member;
    } in
    let redeemed : Tables = redeem is_first token uid with_member in
    let bumped : Tables = record redeemed {
      doc_meta = bump_epoch_tx redeemed.doc_meta meta.doc_id;
    } in
    record {
      tables = bumped;
      publish = some (record {
        document_name = meta.document_name;
        epoch = read_epoch bumped.doc_meta meta.doc_id;
        uid = uid;
      });
      result =
          accepted (record { doc = some (meta.doc_id, meta.document_name); role = role granted });
    }

-- The writes of each decision. A decision to grant is made only where the document exists.
unfoldable pub apply :
    AcceptDecision → Tables → Text → InviteRow → Option DocMeta → Text → Bool → ℕ → Outcome
unfolding reject grant
apply gone db token invite meta uid redeemed now_ms = reject db token invite redeemed now_ms
apply (noop r) db token invite meta uid redeemed now_ms =
    answer db (accepted (record { doc = none; role = r }))
apply (reaccept r) db token invite none uid redeemed now_ms = answer db invite_invalid
apply (reaccept r) db token invite (some m) uid redeemed now_ms =
    grant false db token invite m uid r
apply (first r) db token invite none uid redeemed now_ms = answer db invite_invalid
apply (first r) db token invite (some m) uid redeemed now_ms = grant true db token invite m uid r

-- The argument of `decideAcceptBranch`, for an invite row whose role number is known.
unfoldable pub decision_input : Tables → Text → InviteRow → Role → Text → ℕ → DecisionInput
unfolding current_role
decision_input db token invite invite_role uid now_ms =
    let meta = get_by_doc_id db.doc_meta invite.doc_id in
    record {
      invite = record {
        status = invite.status;
        role = invite_role;
        max_uses = invite.max_uses;
        used_count = invite.used_count;
        expires_at_ms = invite.expires_at;
      };
      cur_role = current_role db meta uid;
      redeemed = redeemed_by db.doc_invite_redemption token uid;
      doc_exists = live meta;
      now_ms = now_ms;
    }

-- The decision of step 2 and step 4.
unfoldable pub decide : Tables → Text → InviteRow → Role → Text → ℕ → AcceptDecision
unfolding decide_accept_branch decision_input
decide db token invite invite_role uid now_ms =
    decide_accept_branch (decision_input db token invite invite_role uid now_ms)

-- `acceptInviteForUid` up to the commit.
unfoldable pub accept_invite_for_uid : Tables → Text → Text → ℕ → Outcome
unfolding apply decide
accept_invite_for_uid db uid token now_ms = elim (get db.doc_invite token) [
  | none ↦ answer db invite_invalid
  | some invite ↦ elim (role_from_number invite.role) [
    | none ↦ answer db invite_invalid
    | some invite_role ↦
        apply (decide db token invite invite_role uid now_ms) db token invite
          (get_by_doc_id db.doc_meta invite.doc_id) uid
          (redeemed_by db.doc_invite_redemption token uid) now_ms
  ]
]

-- `acceptInvite`: the identity service maps a session token to a user, or to none.
unfoldable pub accept_invite : (Text → Option Text) → Tables → Text → Text → ℕ → Outcome
accept_invite verify_token db octo_token token now_ms = elim (verify_token octo_token) [
  | none ↦ answer db login_required
  | some uid ↦ accept_invite_for_uid db uid token now_ms
]

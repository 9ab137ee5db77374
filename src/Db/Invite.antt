-- ===== src/Db/Invite.antt =====
-- src/db/repos/docInviteRepo.ts and docInviteRedemptionRepo.ts: invite links and the ledger of
-- their redemptions. Times are milliseconds.
pub mod Laws
use octo_docs_backend.Base.{
  ℕ, ◌+◌, Bool, false, ◌&&◌, ◌||◌, Option, none, some, List, [], ◌∷◌, ◌++◌, Text, text_eq, ltb, leb,
  ◌==◌, if◌then◌else◌,
}

abbrev pub invite_status_revoked : ℕ
invite_status_revoked = 0

abbrev pub invite_status_active : ℕ
invite_status_active = 1

abbrev pub invite_status_exhausted : ℕ
invite_status_exhausted = 2

abbrev pub invite_status_expired : ℕ
invite_status_expired = 3

pub record InviteRow : Type 0 where
  pub invite_token : Text
  pub doc_id : Text
  pub role : ℕ
  pub max_uses : ℕ  -- 0 is unlimited
  pub used_count : ℕ
  pub expires_at : Option ℕ
  pub status : ℕ
  pub created_by : Text

-- `create`.
unfoldable pub create : Text → Text → ℕ → ℕ → Option ℕ → Text → List InviteRow → List InviteRow
create token doc_id role_num max_uses expires_at created_by rows =
    rows
    ++ (record {
      invite_token = token;
      doc_id = doc_id;
      role = role_num;
      max_uses = max_uses;
      used_count = 0;
      expires_at = expires_at;
      status = invite_status_active;
      created_by = created_by;
    }
        ∷ [])

-- `get` and `getForUpdateTx`.
unfoldable pub get : List InviteRow → Text → Option InviteRow
get [] token = none
get (r ∷ rows) token = if text_eq r.invite_token token then some r else get rows token

-- UPDATE doc_invite SET … WHERE invite_token = ?.
unfoldable pub update : (InviteRow → InviteRow) → Text → List InviteRow → List InviteRow
update change token [] = []
update change token (r ∷ rows) =
    (if text_eq r.invite_token token then change r else r) ∷ update change token rows

-- `setStatusTx`.
unfoldable pub set_status_tx : ℕ → Text → List InviteRow → List InviteRow
unfolding update
set_status_tx status = update (λ r. record r { status = status })

-- `revoke`.
unfoldable pub revoke : Text → List InviteRow → List InviteRow
unfolding set_status_tx
revoke = set_status_tx invite_status_revoked

-- The assignments of `incrementUsedCountTx`. MySQL makes the assignments of an UPDATE from left to
-- right, and a column that is read after its assignment has the new value.
unfoldable pub count_use : InviteRow → InviteRow
count_use r =
    let counted : InviteRow = record r { used_count = r.used_count + 1 } in
    record counted {
      status =
          if ltb 0 counted.max_uses && leb counted.max_uses (counted.used_count + 1)
          then invite_status_exhausted
          else counted.status;
    }

-- `incrementUsedCountTx`.
unfoldable pub increment_used_count_tx : Text → List InviteRow → List InviteRow
unfolding count_use update
increment_used_count_tx = update count_use

pub record Redemption : Type 0 where
  pub invite_token : Text
  pub uid : Text

-- `existsTx` of the redemption ledger.
unfoldable pub redeemed_by : List Redemption → Text → Text → Bool
redeemed_by [] token uid = false
redeemed_by (r ∷ rows) token uid =
    (text_eq r.invite_token token && text_eq r.uid uid) || redeemed_by rows token uid

-- `insertTx` of the redemption ledger.
unfoldable pub insert_tx : Text → Text → List Redemption → List Redemption
insert_tx token uid rows = rows ++ (record { invite_token = token; uid = uid } ∷ [])

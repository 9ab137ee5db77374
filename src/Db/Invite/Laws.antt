-- ===== src/Db/Invite/Laws.antt =====
-- Invite rows and redemptions (src/db/repos/docInviteRepo.ts) read back after a write.
use octo_docs_backend.Base.{
  ℕ, ◌+◌, ◌≡◌, false, ◌&&◌, ◌||◌, Option, none, some, List, [], ◌∷◌, Text, text_eq, text_eq_iff,
  if◌then◌else◌, arith,
}
use octo_docs_backend.Db.Invite.{InviteRow, get, update, Redemption, redeemed_by, insert_tx}

abbrev pub changed : (InviteRow → InviteRow) → Option InviteRow → Option InviteRow
changed f none = none
changed f (some r) = some (f r)

pub get-token :
    (rows : List InviteRow) (token : Text) (r : InviteRow)
    → get rows token ≡ some r
    → r.invite_token ≡ token
unfolding get
get-token [] token r h = cc
get-token (x ∷ rows) token r h =
    ground (arith, get-token rows token r, text_eq_iff x.invite_token token)

pub get-update :
    (f : InviteRow → InviteRow)
    → ((r : InviteRow) → (f r).invite_token ≡ r.invite_token)
    → (token other : Text) (rows : List InviteRow)
    → get (update f token rows) other
      ≡ (if text_eq token other then changed f (get rows other) else get rows other)
unfolding get update
get-update f keeps token other [] = ground arith
get-update f keeps token other (r ∷ rows) = ground (
  arith,
  keeps r,
  get-update f keeps token other rows,
  text_eq_iff r.invite_token token,
  text_eq_iff r.invite_token other,
  text_eq_iff token other,
)

-- How many times an invite was redeemed.
abbrev pub redemptions : Text → List Redemption → ℕ
redemptions token [] = 0
redemptions token (r ∷ rows) =
    (if text_eq r.invite_token token then 1 else 0) + redemptions token rows

-- No user redeemed an invite twice.
abbrev pub NoRepeat : List Redemption → Type 0
NoRepeat [] = Unit
NoRepeat (r ∷ rows) = (redeemed_by rows r.invite_token r.uid ≡ false) × NoRepeat rows

pub redemptions-insert_tx :
    (token uid other : Text) (rows : List Redemption)
    → redemptions other (insert_tx token uid rows)
      ≡ redemptions other rows + (if text_eq token other then 1 else 0)
unfolding insert_tx
redemptions-insert_tx token uid other [] = ground arith
redemptions-insert_tx token uid other (r ∷ rows) =
    ground (arith, redemptions-insert_tx token uid other rows)

pub redeemed_by-insert_tx :
    (token uid t u : Text) (rows : List Redemption)
    → redeemed_by (insert_tx token uid rows) t u
      ≡ (redeemed_by rows t u || (text_eq token t && text_eq uid u))
unfolding insert_tx redeemed_by
redeemed_by-insert_tx token uid t u [] = ground arith
redeemed_by-insert_tx token uid t u (r ∷ rows) =
    ground (arith, redeemed_by-insert_tx token uid t u rows)

pub NoRepeat-insert_tx :
    (token uid : Text) (rows : List Redemption)
    → redeemed_by rows token uid ≡ false
    → NoRepeat rows
    → NoRepeat (insert_tx token uid rows)
unfolding insert_tx redeemed_by
NoRepeat-insert_tx token uid [] h n = ground arith
NoRepeat-insert_tx token uid (r ∷ rows) h (x, n) = ground (
  arith,
  redeemed_by-insert_tx token uid r.invite_token r.uid rows,
  NoRepeat-insert_tx token uid rows,
  text_eq_iff r.invite_token token,
  text_eq_iff token r.invite_token,
  text_eq_iff r.uid uid,
  text_eq_iff uid r.uid,
)

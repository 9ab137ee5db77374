-- ===== src/Invite/Accept/Ledger.antt =====
-- Use counts and redemptions under `acceptInviteForUid` (src/api/services/acceptInvite.ts).
use octo_docs_backend.Base.{
  ℕ, ◌≤◌, ◌<◌, ◌≡◌, refl, ◌⊎◌, Bool, true, false, Option, none, some, List, Text, text_eq,
  text_eq_iff, Bool-cases, if◌then◌else◌, Option-cases, inl, inr, arith,
}
use mathlib.Core.Bool.{false≢true}
use mathlib.Core.Path.{subst}
use octo_docs_backend.Permission.Role.{Role}
use octo_docs_backend.Db.{Tables}
use octo_docs_backend.Db.Meta.{DocMeta, get_by_doc_id}
use octo_docs_backend.Db.Invite.{
  InviteRow, invite_status_expired, invite_status_exhausted, get, count_use, set_status_tx,
  increment_used_count_tx, redeemed_by, Redemption, insert_tx,
}
use octo_docs_backend.Db.Invite.Laws.{
  changed, get-token, get-update, redemptions, NoRepeat, redemptions-insert_tx, NoRepeat-insert_tx,
}
use octo_docs_backend.Invite.Decision.{AcceptDecision, gone, noop, reaccept, first}
use octo_docs_backend.Invite.Decision.Laws.{decide-first_iff}
use octo_docs_backend.Invite.Accept.Cases.{accept_cases}
use octo_docs_backend.Invite.Accept.{
  reject, grant, apply, decision_input, decide, accept_invite_for_uid,
}

-- An invite with a limit is used at most that often, and its count is the number of its entries in
-- the ledger.
pub record IsCounted (ledger : List Redemption) (r : InviteRow) : Type 0 where
  pub within : (r.max_uses ≡ 0) ⊎ (r.used_count ≤ r.max_uses)
  pub counted : r.used_count ≡ redemptions r.invite_token ledger

-- Every invite is counted, and no user redeemed one twice.
pub record IsSound (invites : List InviteRow) (ledger : List Redemption) : Type 0 where
  pub rows : (token : Text) (r : InviteRow) → get invites token ≡ some r → IsCounted ledger r
  pub once : NoRepeat ledger

set_status_tx-IsSound :
    (status : ℕ) (token : Text) (invites : List InviteRow) (ledger : List Redemption)
    → IsSound invites ledger
    → IsSound (set_status_tx status token invites) ledger
unfolding set_status_tx
set_status_tx-IsSound status token invites ledger s = record {
  rows = λ other r h. kept other r (Option-cases (get invites other)) h;
  once = s.once;
}
  where
    kept :
        (other : Text) (r : InviteRow)
        → (get invites other ≡ none) ⊎ ((x : InviteRow) × (get invites other ≡ some x))
        → get (set_status_tx status token invites) other ≡ some r
        → IsCounted ledger r
    kept other r (inl e) h =
        ground
          (arith, get-update (λ x. record x { status = status }) (λ x. refl) token other invites)
    kept other r (inr (x, e)) h =
        let c = s.rows other x e in
        ground
          (arith, get-update (λ x. record x { status = status }) (λ x. refl) token other invites)

reject-IsSound :
    (db : Tables) (token : Text) (invite : InviteRow) (redeemed : Bool) (now_ms : ℕ)
    → IsSound db.doc_invite db.doc_invite_redemption
    → IsSound
        (reject db token invite redeemed now_ms).tables.doc_invite
        (reject db token invite redeemed now_ms).tables.doc_invite_redemption
unfolding reject
reject-IsSound db token invite redeemed now_ms s = ground (
  arith,
  set_status_tx-IsSound invite_status_expired token db.doc_invite db.doc_invite_redemption s,
  set_status_tx-IsSound invite_status_exhausted token db.doc_invite db.doc_invite_redemption s,
)

pub get-increment :
    (token other : Text) (rows : List InviteRow)
    → get (increment_used_count_tx token rows) other
      ≡ (if text_eq token other then changed count_use (get rows other) else get rows other)
unfolding increment_used_count_tx
get-increment token other rows =
    get-update count_use (λ r. unfold count_use in refl) token other rows

module _ (token uid : Text) (invites : List InviteRow) (ledger : List Redemption)
    (invite : InviteRow) (found : get invites token ≡ some invite)
    (below : 0 < invite.max_uses → invite.used_count < invite.max_uses) where
  count_use-IsCounted :
      IsSound invites ledger → IsCounted (insert_tx token uid ledger) (count_use invite)
  unfolding count_use
  count_use-IsCounted s =
      let c = s.rows token invite found in
      ground (
        arith,
        get-token invites token invite found,
        redemptions-insert_tx token uid token ledger,
        redemptions-insert_tx token uid invite.invite_token ledger,
        text_eq_iff token token,
      )

  other-IsCounted :
      (other : Text) (r : InviteRow)
      → text_eq token other ≡ false
      → get invites other ≡ some r
      → IsSound invites ledger
      → IsCounted (insert_tx token uid ledger) r
  other-IsCounted other r e h s =
      let c = s.rows other r h in
      ground (arith, get-token invites other r h, redemptions-insert_tx token uid other ledger)

  increment-IsSound :
      redeemed_by ledger token uid ≡ false
      → IsSound invites ledger
      → IsSound (increment_used_count_tx token invites) (insert_tx token uid ledger)
  increment-IsSound new s = record {
    rows = λ other r h. kept other r h (Bool-cases (text_eq token other));
    once = NoRepeat-insert_tx token uid ledger new s.once;
  }
    where
      kept :
          (other : Text) (r : InviteRow)
          → get (increment_used_count_tx token invites) other ≡ some r
          → (text_eq token other ≡ true) ⊎ (text_eq token other ≡ false)
          → IsCounted (insert_tx token uid ledger) r
      kept other r h (inl e) =
          let same : token ≡ other = (text_eq_iff token other).0 e in
          let found' : get invites other ≡ some invite = rw (← same) found in
          let counted : count_use invite ≡ r = ground (arith, get-increment token other invites) in
          subst (IsCounted (insert_tx token uid ledger)) counted (count_use-IsCounted s)
      kept other r h (inr e) =
          other-IsCounted other r e (ground (arith, get-increment token other invites)) s

grant-IsSound :
    (is_first : Bool) (db : Tables) (token uid : Text) (invite : InviteRow) (meta : DocMeta)
    (r : Role)
    → get db.doc_invite token ≡ some invite
    → (is_first ≡ true
        → (0 < invite.max_uses → invite.used_count < invite.max_uses)
          × (redeemed_by db.doc_invite_redemption token uid ≡ false))
    → IsSound db.doc_invite db.doc_invite_redemption
    → IsSound
        (grant is_first db token invite meta uid r).tables.doc_invite
        (grant is_first db token invite meta uid r).tables.doc_invite_redemption
unfolding grant
grant-IsSound false db token uid invite meta r found fit s = s
grant-IsSound true db token uid invite meta r found fit s =
    let (below, new) = fit refl in
    increment-IsSound token uid db.doc_invite db.doc_invite_redemption invite found below new s

apply-IsSound :
    (d : AcceptDecision) (db : Tables) (token : Text) (invite : InviteRow) (meta : Option DocMeta)
    (uid : Text) (now_ms : ℕ)
    → get db.doc_invite token ≡ some invite
    → ((r : Role)
        → d ≡ first r
        → (0 < invite.max_uses → invite.used_count < invite.max_uses)
          × (redeemed_by db.doc_invite_redemption token uid ≡ false))
    → IsSound db.doc_invite db.doc_invite_redemption
    → (redeemed : Bool)
    → let o = apply d db token invite meta uid redeemed now_ms in
      IsSound o.tables.doc_invite o.tables.doc_invite_redemption
unfolding apply
apply-IsSound gone db token invite meta uid now_ms found fit s redeemed =
    reject-IsSound db token invite redeemed now_ms s
apply-IsSound (noop r) db token invite meta uid now_ms found fit s redeemed = s
apply-IsSound (reaccept r) db token invite none uid now_ms found fit s redeemed = s
apply-IsSound (reaccept r) db token invite (some m) uid now_ms found fit s redeemed =
    grant-IsSound false db token uid invite m r found (λ e. absurd (false≢true e)) s
apply-IsSound (first r) db token invite none uid now_ms found fit s redeemed = s
apply-IsSound (first r) db token invite (some m) uid now_ms found fit s redeemed =
    grant-IsSound true db token uid invite m r found (λ _. fit r refl) s

decide-first_fits :
    (db : Tables) (token : Text) (invite : InviteRow) (granted : Role) (uid : Text) (now_ms : ℕ)
    (r : Role)
    → decide db token invite granted uid now_ms ≡ first r
    → (0 < invite.max_uses → invite.used_count < invite.max_uses)
      × (redeemed_by db.doc_invite_redemption token uid ≡ false)
unfolding decide decision_input
decide-first_fits db token invite granted uid now_ms r h =
    let fit = (decide-first_iff (decision_input db token invite granted uid now_ms) r).0 h in
    (ground arith, ground arith)

-- Accepting an invite, whatever the outcome, keeps the limits: no limited invite is used more often
-- than its limit, each count equals the entries of the ledger, and no user is entered twice.
pub accept-IsSound :
    (db : Tables) (uid token : Text) (now_ms : ℕ)
    → IsSound db.doc_invite db.doc_invite_redemption
    → let o = accept_invite_for_uid db uid token now_ms in
      IsSound o.tables.doc_invite o.tables.doc_invite_redemption
accept-IsSound db uid token now_ms s =
    accept_cases (λ o. IsSound o.tables.doc_invite o.tables.doc_invite_redemption) db uid token
      now_ms s
      λ invite granted e f.
        apply-IsSound (decide db token invite granted uid now_ms) db token invite
          (get_by_doc_id db.doc_meta invite.doc_id) uid now_ms e
          (decide-first_fits db token invite granted uid now_ms) s
          (redeemed_by db.doc_invite_redemption token uid)

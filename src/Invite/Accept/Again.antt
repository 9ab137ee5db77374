-- ===== src/Invite/Accept/Again.antt =====
-- A second call of `acceptInviteForUid` (src/api/services/acceptInvite.ts) after a successful one.
use mathlib.Core.Bool.{false≢true}
use mathlib.Core.Path.{subst}
use octo_docs_backend.Base.{
  ℕ, ◌≡◌, refl, sym, ◌∙◌, ap, ◌≢◌, Bool, true, false, Option, none, some, Text, text_eq_refl, arith,
}
use octo_docs_backend.Permission.Role.{Role, role, no_role, role_from_number}
use octo_docs_backend.Db.{Tables}
use octo_docs_backend.Db.Meta.{DocMeta, get_by_doc_id}
use octo_docs_backend.Db.Meta.Laws.{get_by_doc_id-id, get_by_doc_id-bump_epoch_tx}
use octo_docs_backend.Db.Invite.{
  InviteRow, invite_status_revoked, invite_status_expired, get, count_use, redeemed_by,
}
use octo_docs_backend.Db.Invite.Laws.{redeemed_by-insert_tx}
use octo_docs_backend.Invite.Decision.{AcceptDecision, gone, noop, reaccept, first, is_past}
use octo_docs_backend.Invite.Decision.Laws.{decide-first_iff, decide-reaccept_iff}
use octo_docs_backend.Invite.Accept.{
  Outcome, AcceptBody, accepted, answer, reject, grant, apply, decision_input, decide, live,
  current_role, accept_invite_for_uid,
}
use octo_docs_backend.Invite.Accept.Cases.{accept_cases}
use octo_docs_backend.Invite.Accept.Ledger.{get-increment}
use octo_docs_backend.Invite.Accept.Granted.{
  decide-noop_of_redeemed, current_role-grant, accept-noop,
}

module _ (db : Tables) (token uid : Text) (invite : InviteRow) (m : DocMeta) (r : Role) (now_ms : ℕ)
    (found : get db.doc_invite token ≡ some invite) (known : role_from_number invite.role ≡ some r)
    (stored : get_by_doc_id db.doc_meta invite.doc_id ≡ some m)
    (same_doc : m.doc_id ≡ invite.doc_id) (exists : live (some m) ≡ true)
    (had : current_role db (some m) uid ≡ no_role)
    (open_now : is_past invite.expires_at now_ms ≡ false)
    (not_revoked : invite.status ≢ invite_status_revoked)
    (not_expired : invite.status ≢ invite_status_expired) where
  live_after :
      (is_first : Bool)
      → let db' = (grant is_first db token invite m uid r).tables in
        live (get_by_doc_id db'.doc_meta invite.doc_id) ≡ true
  unfolding grant
  live_after false = ground (
    arith,
    get_by_doc_id-bump_epoch_tx db.doc_meta m.doc_id invite.doc_id,
    text_eq_refl invite.doc_id,
  )
  live_after true = ground (
    arith,
    get_by_doc_id-bump_epoch_tx db.doc_meta m.doc_id invite.doc_id,
    text_eq_refl invite.doc_id,
  )

  found_after :
      get (grant true db token invite m uid r).tables.doc_invite token ≡ some (count_use invite)
  unfolding grant
  found_after = ground (arith, get-increment token token db.doc_invite, text_eq_refl token)

  redeemed_after :
      redeemed_by (grant true db token invite m uid r).tables.doc_invite_redemption token uid ≡ true
  unfolding grant
  redeemed_after = ground (
    arith,
    redeemed_by-insert_tx token uid token uid db.doc_invite_redemption,
    text_eq_refl token,
    text_eq_refl uid,
  )

  -- The document still exists and the user has the role, read under the invite's document.
  granted_state :
      (is_first : Bool)
      → let db' = (grant is_first db token invite m uid r).tables in
        (live (get_by_doc_id db'.doc_meta invite.doc_id) ≡ true)
        × (current_role db' (get_by_doc_id db'.doc_meta invite.doc_id) uid ≡ role r)
  granted_state is_first =
      let db' = (grant is_first db token invite m uid r).tables in
      let stored' : get_by_doc_id db.doc_meta m.doc_id ≡ some m =
        subst (λ t. get_by_doc_id db.doc_meta t ≡ some m) (sym same_doc) stored in
      (
        live_after is_first,
        subst (λ t. current_role db' (get_by_doc_id db'.doc_meta t) uid ≡ role r) same_doc
            (current_role-grant db token uid invite m r stored' exists known is_first had),
      )

  grant_again :
      (is_first : Bool)
      → (is_first ≡ false → redeemed_by db.doc_invite_redemption token uid ≡ true)
      → let db' = (grant is_first db token invite m uid r).tables in
        accept_invite_for_uid db' uid token now_ms
        ≡ answer db' (accepted (record { doc = none; role = role r }))
  grant_again false ledger =
      let db' = (grant false db token invite m uid r).tables in
      accept-noop db' uid token now_ms invite r (unfold grant in found) known (role r) (
        unfold decide decision_input in
        decide-noop_of_redeemed (decision_input db' token invite r uid now_ms) r not_revoked
          not_expired open_now (unfold grant in ledger refl) (granted_state false).0
          (granted_state false).1)
  grant_again true ledger =
      let db' = (grant true db token invite m uid r).tables in
      let invite' = count_use invite in
      accept-noop db' uid token now_ms invite' r found_after (unfold count_use in known) (role r) (
        unfold decide decision_input count_use in
        decide-noop_of_redeemed (decision_input db' token invite' r uid now_ms) r (ground arith)
          (ground arith) open_now redeemed_after (granted_state true).0 (granted_state true).1)

-- The body that a second accept answers.
abbrev pub IsSettled : Text → Text → ℕ → Outcome → Type 0
IsSettled uid token now_ms o =
    (b : AcceptBody)
    → o.result ≡ accepted b
    → accept_invite_for_uid o.tables uid token now_ms
      ≡ answer o.tables (accepted (record { doc = none; role = b.role }))

reject-ne-accepted :
    (db : Tables) (token : Text) (invite : InviteRow) (redeemed : Bool) (now_ms : ℕ)
    (b : AcceptBody)
    → (reject db token invite redeemed now_ms).result ≢ accepted b
unfolding reject
reject-ne-accepted db token invite redeemed now_ms b = ground arith

role-grant :
    (is_first : Bool) (db : Tables) (token : Text) (invite : InviteRow) (m : DocMeta) (uid : Text)
    (r : Role) (b : AcceptBody)
    → (grant is_first db token invite m uid r).result ≡ accepted b
    → role r ≡ b.role
unfolding grant
role-grant is_first db token invite m uid r b h = ground arith

module _ (db : Tables) (token uid : Text) (invite : InviteRow) (r : Role) (now_ms : ℕ)
    (found : get db.doc_invite token ≡ some invite)
    (known : role_from_number invite.role ≡ some r) where
  grant-IsSettled :
      (is_first : Bool) (m : DocMeta) (x : Role)
      → get_by_doc_id db.doc_meta invite.doc_id ≡ some m
      → live (get_by_doc_id db.doc_meta invite.doc_id) ≡ true
      → current_role db (get_by_doc_id db.doc_meta invite.doc_id) uid ≡ no_role
      → is_past invite.expires_at now_ms ≡ false
      → invite.status ≢ invite_status_revoked
      → invite.status ≢ invite_status_expired
      → r ≡ x
      → (is_first ≡ false → redeemed_by db.doc_invite_redemption token uid ≡ true)
      → IsSettled uid token now_ms (grant is_first db token invite m uid x)
  grant-IsSettled is_first m x f exists had open_now not_revoked not_expired same ledger =
      subst (λ y. IsSettled uid token now_ms (grant is_first db token invite m uid y)) same
        λ b h.
          grant_again db token uid invite m r now_ms found known f
            (get_by_doc_id-id db.doc_meta invite.doc_id m f) (subst (λ o. live o ≡ true) f exists)
            (subst (λ o. current_role db o uid ≡ no_role) f had) open_now not_revoked not_expired
            is_first ledger
          ∙ ap
              (λ y.
                answer (grant is_first db token invite m uid r).tables
                  (accepted (record { doc = none; role = y })))
              (role-grant is_first db token invite m uid r b h)

  apply-IsSettled :
      (d : AcceptDecision) (meta : Option DocMeta)
      → decide db token invite r uid now_ms ≡ d
      → get_by_doc_id db.doc_meta invite.doc_id ≡ meta
      → IsSettled uid token now_ms
          (apply d db token invite meta uid (redeemed_by db.doc_invite_redemption token uid) now_ms)
  unfolding apply
  apply-IsSettled gone meta e f b h = absurd (reject-ne-accepted db token invite _ now_ms b h)
  apply-IsSettled (noop x) meta e f b h =
      let same : x ≡ b.role = ground arith in
      rw (← same) (accept-noop db uid token now_ms invite r found known x e)
  apply-IsSettled (reaccept x) none e f b h = cc
  apply-IsSettled (reaccept x) (some m) e f b h =
      let d = decision_input db token invite r uid now_ms in
      let (not_revoked, not_expired, open_now, again, exists, had, same) =
        (decide-reaccept_iff d x).0 (unfold decide in e) in
      unfold decision_input in
      grant-IsSettled false m x f exists had open_now not_revoked not_expired same (λ _. again) b h
  apply-IsSettled (first x) none e f b h = cc
  apply-IsSettled (first x) (some m) e f b h =
      let d = decision_input db token invite r uid now_ms in
      let (active, open_now, below, new, exists, had, same) =
        (decide-first_iff d x).0 (unfold decide in e) in
      unfold decision_input in
      grant-IsSettled true m x f exists had open_now (ground arith) (ground arith) same
        (λ k. absurd (false≢true (sym k))) b h

-- After an accept that answered 200, accepting again at the same time answers 200 with the same
-- role and changes nothing: no use is counted twice, no epoch is bumped and nothing is published.
pub accept_again :
    (db : Tables) (uid token : Text) (now_ms : ℕ) (b : AcceptBody)
    → (accept_invite_for_uid db uid token now_ms).result ≡ accepted b
    → let db' = (accept_invite_for_uid db uid token now_ms).tables in
      accept_invite_for_uid db' uid token now_ms
      ≡ answer db' (accepted (record { doc = none; role = b.role }))
accept_again db uid token now_ms b h =
    accept_cases (IsSettled uid token now_ms) db uid token now_ms (λ b h. cc)
      (λ invite r found known.
        apply-IsSettled db token uid invite r now_ms found known
          (decide db token invite r uid now_ms) (get_by_doc_id db.doc_meta invite.doc_id) refl refl)
      b h

-- ===== src/Invite/Accept/Cases.antt =====
-- The ways through the accept transaction of src/api/services/acceptInvite.ts.
use octo_docs_backend.Base.{ℕ, ◌≡◌, some, Text, Option-cases, inl, inr}
use octo_docs_backend.Permission.Role.{Role, role_from_number}
use octo_docs_backend.Db.{Tables}
use octo_docs_backend.Db.Meta.{get_by_doc_id}
use octo_docs_backend.Db.Invite.{InviteRow, get, redeemed_by}
use octo_docs_backend.Invite.Accept.{
  Outcome, answer, invite_invalid, apply, decide, accept_invite_for_uid,
}

-- What holds of the plain refusal and of every decision that is applied holds of the outcome.
pub accept_cases {ℓ} :
    (P : Outcome → Type ℓ) (db : Tables) (uid token : Text) (now_ms : ℕ)
    → P (answer db invite_invalid)
    → ((invite : InviteRow) (granted : Role)
        → get db.doc_invite token ≡ some invite
        → role_from_number invite.role ≡ some granted
        → P (
            apply
              (decide db token invite granted uid now_ms)
              db
              token
              invite
              (get_by_doc_id db.doc_meta invite.doc_id)
              uid
              (redeemed_by db.doc_invite_redemption token uid)
              now_ms))
    → P (accept_invite_for_uid db uid token now_ms)
unfolding accept_invite_for_uid
accept_cases P db uid token now_ms refused applied = elim (Option-cases (get db.doc_invite token)) [
  | inl e ↦ rw (e, accept_invite_for_uid) refused
  | inr (invite, e) ↦ elim (Option-cases (role_from_number invite.role)) [
    | inl f ↦ rw (e, f, accept_invite_for_uid) refused
    | inr (granted, f) ↦ rw (e, f, accept_invite_for_uid) (applied invite granted e f)
  ]
]

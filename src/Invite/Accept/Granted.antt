-- ===== src/Invite/Accept/Granted.antt =====
-- The role after a grant, and the no-op branch, of src/api/services/acceptInvite.ts.
use octo_docs_backend.Base.{
  ℕ, ◌≡◌, refl, ◌∙◌, ap, ◌≢◌, Bool, true, false, none, some, List, Text, text_eq_refl, arith,
}
use octo_docs_backend.Permission.Role.{Role, ResolvedRole, role, no_role, role_from_number}
use octo_docs_backend.Db.{Tables}
use octo_docs_backend.Db.Meta.{DocMeta, get_by_doc_id}
use octo_docs_backend.Db.Meta.Laws.{get_by_doc_id-bump_epoch_tx}
use octo_docs_backend.Db.Member.{
  MemberRow, source_invite, invite_row, get_role, has_key, upsert_from_invite,
}
use octo_docs_backend.Db.Member.Laws.{find_row-upsert}
use octo_docs_backend.Db.Invite.{
  InviteRow, invite_status_revoked, invite_status_expired, get, redeemed_by,
}
use octo_docs_backend.Invite.Decision.{DecisionInput, noop, is_past, decide_accept_branch}
use octo_docs_backend.Invite.Accept.{
  accepted, answer, grant, apply, decide, live, current_role, accept_invite_for_uid,
}

-- A user with a role who redeemed an invite that is neither withdrawn nor expired gets a no-op.
pub decide-noop_of_redeemed :
    (d : DecisionInput) (r : Role)
    → d.invite.status ≢ invite_status_revoked
    → d.invite.status ≢ invite_status_expired
    → is_past d.invite.expires_at_ms d.now_ms ≡ false
    → d.redeemed ≡ true
    → d.doc_exists ≡ true
    → d.cur_role ≡ role r
    → decide_accept_branch d ≡ noop (role r)
unfolding decide_accept_branch
decide-noop_of_redeemed d r a b c e f g = ground arith

get_role-upsert_from_invite :
    (d u : Text) (n : ℕ) (by token : Text) (rows : List MemberRow)
    → get_role (upsert_from_invite d u n by token rows) d u ≡ role_from_number n
unfolding upsert_from_invite get_role has_key invite_row
get_role-upsert_from_invite d u n by token rows = ground (
  arith,
  find_row-upsert
      (λ r. record r { role = n; granted_by = by; source = source_invite; invite_token = token })
      (invite_row d u n by token) (λ r. (refl, refl)) d u rows,
  text_eq_refl d,
  text_eq_refl u,
)

module _ (db : Tables) (token uid : Text) (invite : InviteRow) (m : DocMeta) (r : Role)
    (stored : get_by_doc_id db.doc_meta m.doc_id ≡ some m) (exists : live (some m) ≡ true)
    (known : role_from_number invite.role ≡ some r) where
  -- After a grant the user has the role of the invite on the document, or is its owner.
  pub current_role-grant :
      (is_first : Bool)
      → current_role db (some m) uid ≡ no_role
      → let db' = (grant is_first db token invite m uid r).tables in
        current_role db' (get_by_doc_id db'.doc_meta m.doc_id) uid ≡ role r
  unfolding grant current_role
  current_role-grant false had = ground (
    arith,
    get_by_doc_id-bump_epoch_tx db.doc_meta m.doc_id m.doc_id,
    text_eq_refl m.doc_id,
    get_role-upsert_from_invite m.doc_id uid invite.role invite.created_by token db.doc_member,
  )
  current_role-grant true had = ground (
    arith,
    get_by_doc_id-bump_epoch_tx db.doc_meta m.doc_id m.doc_id,
    text_eq_refl m.doc_id,
    get_role-upsert_from_invite m.doc_id uid invite.role invite.created_by token db.doc_member,
  )

-- The run of an accept whose invite and role number are known.
pub accept-eq_apply :
    (db : Tables) (uid token : Text) (now_ms : ℕ) (invite : InviteRow) (r : Role)
    → get db.doc_invite token ≡ some invite
    → role_from_number invite.role ≡ some r
    → accept_invite_for_uid db uid token now_ms
      ≡ apply
          (decide db token invite r uid now_ms)
          db
          token
          invite
          (get_by_doc_id db.doc_meta invite.doc_id)
          uid
          (redeemed_by db.doc_invite_redemption token uid)
          now_ms
unfolding accept_invite_for_uid
accept-eq_apply db uid token now_ms invite r e f = rw (e, f, accept_invite_for_uid)

-- An accept where the decision is a no-op.
pub accept-noop :
    (db : Tables) (uid token : Text) (now_ms : ℕ) (invite : InviteRow) (r : Role)
    → get db.doc_invite token ≡ some invite
    → role_from_number invite.role ≡ some r
    → (cur : ResolvedRole) → decide db token invite r uid now_ms ≡ noop cur
    → accept_invite_for_uid db uid token now_ms
      ≡ answer db (accepted (record { doc = none; role = cur }))
accept-noop db uid token now_ms invite r e f cur h =
    accept-eq_apply db uid token now_ms invite r e f
    ∙ ap
        (λ d.
          apply d db token invite (get_by_doc_id db.doc_meta invite.doc_id) uid
            (redeemed_by db.doc_invite_redemption token uid) now_ms)
        h
    ∙ unfold apply in refl

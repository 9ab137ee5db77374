-- ===== src/Invite/Accept/Members.antt =====
-- Member rows under src/api/services/acceptInvite.ts.
use octo_docs_backend.Base.{
  ℕ, ◌≡◌, refl, ◌∙◌, ◌⊎◌, inl, inr, Bool, true, false, Option, none, some, List, Text, text_eq_iff,
  arith,
}
use octo_docs_backend.Permission.Role.{Role, no_role, role_from_number}
use octo_docs_backend.Db.{Tables}
use octo_docs_backend.Db.Meta.{DocMeta, get_by_doc_id}
use octo_docs_backend.Db.Meta.Laws.{get_by_doc_id-id}
use octo_docs_backend.Db.Member.{
  MemberRow, has_key, find_row, get_role, source_invite, invite_row, upsert_from_invite,
}
use octo_docs_backend.Db.Member.Laws.{find_row-upsert}
use octo_docs_backend.Db.Invite.{InviteRow, get}
use octo_docs_backend.Invite.Decision.{AcceptDecision, gone, noop, reaccept, first}
use octo_docs_backend.Invite.Decision.Laws.{decide-first_iff, decide-reaccept_iff}
use octo_docs_backend.Invite.Accept.{
  Outcome, reject, grant, apply, decision_input, decide, current_role, accept_invite_for_uid,
}
use octo_docs_backend.Invite.Accept.Cases.{accept_cases}

-- After the upsert a key has the row that it had, or it is the key written and has the new role.
find_row-upsert_from_invite :
    (d u : Text) (n : ℕ) (by token doc_id uid : Text) (rows : List MemberRow)
    → (find_row (upsert_from_invite d u n by token rows) doc_id uid ≡ find_row rows doc_id uid)
      ⊎ ((doc_id ≡ d)
          × (uid ≡ u)
          × (get_role (upsert_from_invite d u n by token rows) doc_id uid ≡ role_from_number n))
unfolding upsert_from_invite get_role has_key
find_row-upsert_from_invite d u n by token doc_id uid rows =
    let law =
      find_row-upsert
        (λ r. record r { role = n; granted_by = by; source = source_invite; invite_token = token })
        (invite_row d u n by token) (λ r. (refl, refl)) doc_id uid rows in
    ground (arith, law, text_eq_iff d doc_id, text_eq_iff u uid)

-- What an accept does to the row of a document and a user: nothing, or it gives the accepting user,
-- who had no role on the invite's document, the role of the invite.
pub data RowEffect (db : Tables) (uid token : Text) (o : Outcome) (doc_id u : Text) : Type 0 where
  same :
      find_row o.tables.doc_member doc_id u ≡ find_row db.doc_member doc_id u
      → RowEffect db uid token o doc_id u
  granted :
      (invite : InviteRow) (r : Role)
      → get db.doc_invite token ≡ some invite
      → role_from_number invite.role ≡ some r
      → doc_id ≡ invite.doc_id
      → u ≡ uid
      → current_role db (get_by_doc_id db.doc_meta doc_id) uid ≡ no_role
      → get_role o.tables.doc_member doc_id u ≡ some r
      → RowEffect db uid token o doc_id u

module _ (db : Tables) (uid token : Text) (invite : InviteRow) (r : Role)
    (found : get db.doc_invite token ≡ some invite) (known : role_from_number invite.role ≡ some r)
    (doc_id u : Text) where
  written-RowEffect :
      (o : Outcome)
      → current_role db (get_by_doc_id db.doc_meta invite.doc_id) uid ≡ no_role
      → o.tables.doc_member
        ≡ upsert_from_invite invite.doc_id uid invite.role invite.created_by token db.doc_member
      → RowEffect db uid token o doc_id u
  written-RowEffect o had e =
      elim (find_row-upsert_from_invite invite.doc_id uid invite.role invite.created_by token doc_id
        u db.doc_member) [
          | inl unchanged ↦ same (rw e unchanged)
          | inr (this_doc, this_user, now) ↦
              granted invite r found known this_doc this_user (rw this_doc had) (rw e (now ∙ known))
        ]

  grant-RowEffect :
      (is_first : Bool) (m : DocMeta) (answered : Role)
      → m.doc_id ≡ invite.doc_id
      → current_role db (get_by_doc_id db.doc_meta invite.doc_id) uid ≡ no_role
      → RowEffect db uid token (grant is_first db token invite m uid answered) doc_id u
  unfolding grant
  grant-RowEffect false m answered e had = written-RowEffect _ had (ground arith)
  grant-RowEffect true m answered e had = written-RowEffect _ had (ground arith)

  reject-RowEffect :
      (redeemed : Bool) (now_ms : ℕ)
      → RowEffect db uid token (reject db token invite redeemed now_ms) doc_id u
  unfolding reject
  reject-RowEffect redeemed now_ms = same (ground arith)

  apply-RowEffect :
      (d : AcceptDecision) (meta : Option DocMeta) (redeemed : Bool) (now_ms : ℕ)
      → ((m : DocMeta) → meta ≡ some m → m.doc_id ≡ invite.doc_id)
      → ((x : Role)
          → (d ≡ first x) ⊎ (d ≡ reaccept x)
          → current_role db (get_by_doc_id db.doc_meta invite.doc_id) uid ≡ no_role)
      → RowEffect db uid token (apply d db token invite meta uid redeemed now_ms) doc_id u
  unfolding apply
  apply-RowEffect gone meta redeemed now_ms h had = reject-RowEffect redeemed now_ms
  apply-RowEffect (noop x) meta redeemed now_ms h had = same refl
  apply-RowEffect (reaccept x) none redeemed now_ms h had = same refl
  apply-RowEffect (reaccept x) (some m) redeemed now_ms h had =
      grant-RowEffect false m x (h m refl) (had x (inr refl))
  apply-RowEffect (first x) none redeemed now_ms h had = same refl
  apply-RowEffect (first x) (some m) redeemed now_ms h had =
      grant-RowEffect true m x (h m refl) (had x (inl refl))

  decide-no_role :
      (now_ms : ℕ) (x : Role)
      → (decide db token invite r uid now_ms ≡ first x)
        ⊎ (decide db token invite r uid now_ms ≡ reaccept x)
      → current_role db (get_by_doc_id db.doc_meta invite.doc_id) uid ≡ no_role
  unfolding decide decision_input
  decide-no_role now_ms x (inl h) =
      let e = (decide-first_iff (decision_input db token invite r uid now_ms) x).0 h in e.5
  decide-no_role now_ms x (inr h) =
      let e = (decide-reaccept_iff (decision_input db token invite r uid now_ms) x).0 h in e.5

-- Of every document and every user, an accept leaves the member row as it was, except that it may
-- give the accepting user, who had no role on the invite's document, the role of the invite.
pub accept-RowEffect :
    (db : Tables) (uid token : Text) (now_ms : ℕ) (doc_id u : Text)
    → RowEffect db uid token (accept_invite_for_uid db uid token now_ms) doc_id u
accept-RowEffect db uid token now_ms doc_id u =
    accept_cases (λ o. RowEffect db uid token o doc_id u) db uid token now_ms (same refl)
      λ invite r found known.
        apply-RowEffect db uid token invite r found known doc_id u
          (decide db token invite r uid now_ms) (get_by_doc_id db.doc_meta invite.doc_id) _ now_ms
          (λ m e. get_by_doc_id-id db.doc_meta invite.doc_id m e)
          (decide-no_role db uid token invite r found known doc_id u now_ms)

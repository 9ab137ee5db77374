-- ===== src/Examples/Invites.antt =====
-- Accepting, deciding and counting at concrete invites.
use mathlib.Core.Path.{subst}
use mathlib.Core.Option.{some-injective}
use octo_docs_backend.Base.{
  ℕ, ◌<◌, true, false, Bool-cases, ◌≡◌, refl, inl, inr, none, some, Text, codes, text_eq, arith,
}
use octo_docs_backend.Examples.{db, invite}
use octo_docs_backend.Permission.Role.{no_role, role, writer}
use octo_docs_backend.Db.Invite.{InviteRow, get, redeemed_by}
use octo_docs_backend.Invite.Decision.{DecisionInput, gone, decide_accept_branch}
use octo_docs_backend.Db.Invite.{count_use}
use octo_docs_backend.Invite.Accept.Exhaustion.{last_use_refused}
use octo_docs_backend.Invite.Accept.{AcceptBody, accepted, answer, accept_invite_for_uid}
use octo_docs_backend.Invite.Accept.Ledger.{IsCounted, IsSound, accept-IsSound}
use octo_docs_backend.Invite.Accept.Again.{accept_again}
use octo_docs_backend.Invite.Accept.Members.{RowEffect, accept-RowEffect}
use octo_docs_backend.Invite.Accept.Effect.{Announced, accept-Announced}

invite-IsCounted :
    (token : Text) (r : InviteRow)
    → get db.doc_invite token ≡ some r
    → IsCounted db.doc_invite_redemption r
unfolding get text_eq
invite-IsCounted token r h = elim (Bool-cases (text_eq (codes "t") token)) [
  | inl e ↦
      subst (IsCounted db.doc_invite_redemption) (some-injective invite r (rw (e) at h))
        (record { within = inr (omega arith); counted = refl })
  | inr e ↦ cc (rw (e) at h)
]

db-IsSound : IsSound db.doc_invite db.doc_invite_redemption
unfolding redeemed_by
db-IsSound = record { rows = invite-IsCounted; once = (refl, tt) }

accept-IsSound_example :
    let o = accept_invite_for_uid db (codes "cat") (codes "t") 10 in
    IsSound o.tables.doc_invite o.tables.doc_invite_redemption
accept-IsSound_example = accept-IsSound db (codes "cat") (codes "t") 10 db-IsSound

abbrev body : AcceptBody
body = record { doc = some (codes "d1", codes "octo:s1:f1:d1"); role = role writer }

cat_accepts : (accept_invite_for_uid db (codes "cat") (codes "t") 10).result ≡ accepted body
unfolding accept_invite_for_uid get text_eq octo_docs_backend.Permission.Role.role_from_number
    octo_docs_backend.Db.Meta.get_by_doc_id octo_docs_backend.Db.Member.get_role
    octo_docs_backend.Db.Member.find_row octo_docs_backend.Db.Member.has_key redeemed_by
cat_accepts = refl

accept_again_example :
    let db' = (accept_invite_for_uid db (codes "cat") (codes "t") 10).tables in
    accept_invite_for_uid db' (codes "cat") (codes "t") 10
    ≡ answer db' (accepted (record { doc = none; role = role writer }))
accept_again_example = accept_again db (codes "cat") (codes "t") 10 body cat_accepts

accept-RowEffect_example :
    RowEffect db
      (codes "cat")
      (codes "t")
      (accept_invite_for_uid db (codes "cat") (codes "t") 10)
      (codes "d1")
      (codes "cat")
accept-RowEffect_example =
    accept-RowEffect db (codes "cat") (codes "t") 10 (codes "d1") (codes "cat")

accept-Announced_example :
    Announced db (codes "cat") (accept_invite_for_uid db (codes "cat") (codes "t") 10)
accept-Announced_example = accept-Announced db (codes "cat") (codes "t") 10

-- An invite for writers with three uses, and a user who did not use it before.
abbrev input : ℕ → ℕ → DecisionInput
input status used = record {
  invite = record {
    status = status;
    role = writer;
    max_uses = 3;
    used_count = used;
    expires_at_ms = none;
  };
  cur_role = no_role;
  redeemed = false;
  doc_exists = true;
  now_ms = 10;
}

last_use_refused_example :
    ((count_use invite).used_count < (count_use invite).max_uses)
    × (decide_accept_branch (input 2 2) ≡ gone)
unfolding count_use
last_use_refused_example = last_use_refused invite (input 2 2) refl refl refl refl

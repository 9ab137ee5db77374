-- ===== src/Invite/Accept/Effect.antt =====
-- Epochs and publications of src/api/services/acceptInvite.ts.
use mathlib.Core.Path.{subst, sym}
use octo_docs_backend.Base.{ℕ, ◌+◌, ◌≡◌, refl, Bool, true, false, Option, none, some, Text, arith}
use octo_docs_backend.Permission.Role.{Role}
use octo_docs_backend.Db.{Tables}
use octo_docs_backend.Db.Meta.{DocMeta, get_by_doc_id, read_epoch}
use octo_docs_backend.Db.Meta.Laws.{get_by_doc_id-id, read_epoch-bump_epoch_tx}
use octo_docs_backend.Db.Invite.{InviteRow}
use octo_docs_backend.Invite.Decision.{AcceptDecision, gone, noop, reaccept, first}
use octo_docs_backend.Invite.Accept.{
  Outcome, Publish, reject, grant, apply, decide, accept_invite_for_uid,
}
use octo_docs_backend.Invite.Accept.Cases.{accept_cases}

-- Either nothing is published, and then members and documents are as before; or one publication
-- announces the accepting user with the new epoch, one above the old one, which the table then has.
pub data Announced (db : Tables) (uid : Text) (o : Outcome) : Type 0 where
  silent :
      o.publish ≡ none
      → o.tables.doc_member ≡ db.doc_member
      → o.tables.doc_meta ≡ db.doc_meta
      → Announced db uid o
  published :
      (p : Publish) (m : DocMeta)
      → o.publish ≡ some p
      → p.uid ≡ uid
      → p.document_name ≡ m.document_name
      → get_by_doc_id db.doc_meta m.doc_id ≡ some m
      → p.epoch ≡ m.permission_epoch + 1
      → read_epoch o.tables.doc_meta m.doc_id ≡ p.epoch
      → Announced db uid o

grant-Announced :
    (is_first : Bool) (db : Tables) (token : Text) (invite : InviteRow) (m : DocMeta) (uid : Text)
    (r : Role)
    → get_by_doc_id db.doc_meta m.doc_id ≡ some m
    → Announced db uid (grant is_first db token invite m uid r)
unfolding grant
grant-Announced false db token invite m uid r h =
    published _ m refl refl refl h (read_epoch-bump_epoch_tx db.doc_meta m.doc_id m h) refl
grant-Announced true db token invite m uid r h =
    published _ m refl refl refl h (read_epoch-bump_epoch_tx db.doc_meta m.doc_id m h) refl

reject-Announced :
    (db : Tables) (token : Text) (invite : InviteRow) (redeemed : Bool) (now_ms : ℕ) (uid : Text)
    → Announced db uid (reject db token invite redeemed now_ms)
unfolding reject
reject-Announced db token invite redeemed now_ms uid =
    silent (ground arith) (ground arith) (ground arith)

apply-Announced :
    (d : AcceptDecision) (db : Tables) (token : Text) (invite : InviteRow) (meta : Option DocMeta)
    (uid : Text) (redeemed : Bool) (now_ms : ℕ)
    → ((m : DocMeta) → meta ≡ some m → get_by_doc_id db.doc_meta m.doc_id ≡ some m)
    → Announced db uid (apply d db token invite meta uid redeemed now_ms)
unfolding apply
apply-Announced gone db token invite meta uid redeemed now_ms h =
    reject-Announced db token invite redeemed now_ms uid
apply-Announced (noop r) db token invite meta uid redeemed now_ms h = silent refl refl refl
apply-Announced (reaccept r) db token invite none uid redeemed now_ms h = silent refl refl refl
apply-Announced (reaccept r) db token invite (some m) uid redeemed now_ms h =
    grant-Announced false db token invite m uid r (h m refl)
apply-Announced (first r) db token invite none uid redeemed now_ms h = silent refl refl refl
apply-Announced (first r) db token invite (some m) uid redeemed now_ms h =
    grant-Announced true db token invite m uid r (h m refl)

-- Without a publication an accept leaves the members and the documents as they were; a publication
-- names the accepting user, a stored document and the epoch that its row then has, which is one
-- above the epoch before.
pub accept-Announced :
    (db : Tables) (uid token : Text) (now_ms : ℕ)
    → Announced db uid (accept_invite_for_uid db uid token now_ms)
accept-Announced db uid token now_ms =
    accept_cases (Announced db uid) db uid token now_ms (silent refl refl refl)
      λ invite granted e f.
        apply-Announced (decide db token invite granted uid now_ms) db token invite _ uid _ now_ms
          λ m h.
            subst (λ t. get_by_doc_id db.doc_meta t ≡ some m)
              (sym (get_by_doc_id-id db.doc_meta invite.doc_id m h)) h

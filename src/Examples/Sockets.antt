-- ===== src/Examples/Sockets.antt =====
-- Tokens, handshakes, epochs and messages at a concrete document.
use octo_docs_backend.Base.{
  ℕ, ◌≤◌, ◌<◌, ◌≡◌, ◌≢◌, ◌↔◌, ◌⊎◌, refl, inl, inr, Bool, true, false, Option, none, some, List, [],
  ◌∷◌, Text, codes, ok, err, All, arith,
}
use octo_docs_backend.Examples.{db, plan, plan_name}
use octo_docs_backend.Permission.Role.{ResolvedRole, no_role, role, reader, writer, role_at_least}
use octo_docs_backend.Permission.Resolve.{recheck_current_role}
use octo_docs_backend.Permission.Epoch.{hit, down}
use octo_docs_backend.Permission.Epoch.Staleness.{
  Call, reads, publishes, IsFresh, current_epoch-IsFresh,
}
use octo_docs_backend.Db.Meta.{get_by_doc_id, get_by_document_name, get_epoch_by_document_name}
use octo_docs_backend.Collab.Token.{sign_payload, verify_payload}
use octo_docs_backend.Collab.Issue.{Identity, IdentityService, Issued, issued, issue_collab_token}
use octo_docs_backend.Collab.Issue.Laws.{IsGrounded, issue-IsGrounded}
use octo_docs_backend.Collab.Handshake.{Admitted, authenticate}
use octo_docs_backend.Collab.Handshake.Laws.{authenticate-issued, recheck-issued}
use octo_docs_backend.Collab.Socket.{Connection, advance, message, cannot_write, run}
use octo_docs_backend.Collab.Socket.Revocation.{revoked-run}

-- A service that knows the token of `cat`, a member of every space.
abbrev verify : Text → Option Identity
verify token = some (record { uid = codes "cat"; name = some (codes "Cat") })

abbrev profile : Text → Text → Option (Option Text)
profile uid token = none

abbrev everywhere : Text → Text → Text → Bool
everywhere uid space token = true

abbrev service : IdentityService
service = record { verify_token = verify; get_user = profile; is_space_member = everywhere }

abbrev token_of_cat : Issued
token_of_cat = record {
  claims = record {
    uid = codes "cat";
    document_name = plan_name;
    role = reader;
    permission_epoch = 4;
    name = some (codes "Cat");
    space_member = some true;
  };
  viewed_doc = codes "d1";
  viewed_in = codes "s1";
}

cat_issued : issue_collab_token service db (codes "x") plan_name none ≡ issued token_of_cat
unfolding issue_collab_token octo_docs_backend.Permission.Name.parse_document_name
    octo_docs_backend.Permission.Resolve.resolve_doc_meta_by_name get_by_document_name
    octo_docs_backend.Permission.Share.effective_role
    octo_docs_backend.Permission.Resolve.resolve_role get_by_doc_id
    octo_docs_backend.Db.Member.get_role octo_docs_backend.Db.Member.find_row
    octo_docs_backend.Db.Member.has_key
cat_issued = refl

issue-IsGrounded_example : IsGrounded service db (codes "x") plan_name token_of_cat
issue-IsGrounded_example =
    issue-IsGrounded service db (codes "x") plan_name none token_of_cat cat_issued

abbrev unreachable : Text → Text → Bool → Option ResolvedRole
unreachable name uid member = none

authenticate-issued_example :
    (a : Admitted) × (authenticate
        (get_epoch_by_document_name db.doc_meta)
        unreachable
        (verify_payload (sign_payload token_of_cat.claims))
        plan_name
      ≡ ok a)
    × (a.context.uid ≡ codes "cat")
    × (a.context.role ≡ reader)
    × ((a.read_only ≡ true) ↔ (role_at_least (role reader) (role writer) ≡ false))
authenticate-issued_example =
    authenticate-issued service db (codes "x") plan_name none token_of_cat cat_issued unreachable

recheck-issued_example : recheck_current_role db plan_name (codes "cat") true ≡ role reader
unfolding get_by_doc_id get_by_document_name octo_docs_backend.Base.text_eq
recheck-issued_example =
    recheck-issued service db (codes "x") plan_name none token_of_cat cat_issued plan refl refl

abbrev five : Text → Option ℕ
five name = some 5

abbrev lost : Text → Text → Bool → Option ResolvedRole
lost name uid member = some no_role

abbrev socket : Connection
socket = record { document_name = plan_name; permission_epoch = 4; read_only = false }

revoked-run_example :
    All
      (λ b. b ≡ false)
      (run [] socket
        (advance plan_name 5 ∷ message (role reader) ∷ advance plan_name 3 ∷ message no_role ∷ []))
unfolding cannot_write
revoked-run_example =
    revoked-run [] socket 5 (message (role reader) ∷ advance plan_name 3 ∷ message no_role ∷ [])
      (omega arith) (refl, (refl, tt))

-- Every text in Redis reads as 7.
abbrev seven : Text → Option ℕ
seven t = some 7

-- A read finds 7 in Redis, and the next one in the cache.
abbrev calls : List Call
calls = reads 50 (hit []) db.doc_meta plan_name ∷ publishes 60 (codes "elsewhere") 3 none ∷ []

current_epoch-IsFresh_example : IsFresh seven 2000 calls 100 down db.doc_meta plan_name 7
unfolding run octo_docs_backend.Permission.Epoch.current_epoch
    octo_docs_backend.Permission.Epoch.Staleness.run
current_epoch-IsFresh_example =
    current_epoch-IsFresh seven 2000 calls 100 down db.doc_meta plan_name 7 refl

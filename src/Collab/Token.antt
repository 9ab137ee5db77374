-- ===== src/Collab/Token.antt =====
-- src/auth/collabToken.ts: the claims of a collab token. Signing and decoding are the JWT
-- library's; what the token says is the payload that is signed.
use octo_docs_backend.Base.{
  ℕ, Bool, true, false, Option, none, some, ◌>>=◌, [], ◌∷◌, Text, text_eq, ◌≡◌, refl, if◌then◌else◌,
  arith,
}
use octo_docs_backend.Permission.Role.{Role, reader, commenter, writer, admin, role_name}

-- `CollabClaims`; an absent `space_member` is `none`.
pub record Claims : Type 0 where
  pub uid : Text
  pub document_name : Text
  pub role : Role
  pub permission_epoch : ℕ
  pub name : Option Text
  pub space_member : Option Bool

-- A decoded payload: a field that is absent or has another type than it should is `none`.
pub record Payload : Type 0 where
  pub uid : Option Text
  pub document_name : Option Text
  pub role : Option Text
  pub permission_epoch : Option ℕ
  pub name : Option Text
  pub space_member : Option Bool

-- `typeof name === 'string' && name !== ''`.
unfoldable pub nonempty_name : Option Text → Option Text
nonempty_name none = none
nonempty_name (some []) = none
nonempty_name (some (c ∷ s)) = some (c ∷ s)

-- `space_member === true`, with any other value absent.
unfoldable pub only_true : Option Bool → Option Bool
only_true none = none
only_true (some true) = some true
only_true (some false) = none

-- The payload that `signCollabToken` signs.
unfoldable pub sign_payload : Claims → Payload
unfolding nonempty_name only_true
sign_payload c = record {
  uid = some c.uid;
  document_name = some c.document_name;
  role = some (role_name c.role);
  permission_epoch = some c.permission_epoch;
  name = nonempty_name c.name;
  space_member = only_true c.space_member;
}

-- The test of `role` against the four wire names.
unfoldable pub role_of_name : Text → Option Role
unfolding text_eq
role_of_name v =
    if text_eq v (role_name reader)
    then some reader
    else if text_eq v (role_name commenter)
    then some commenter
    else if text_eq v (role_name writer)
    then some writer
    else if text_eq v (role_name admin)
    then some admin
    else none

-- `verifyCollabToken` on the decoded payload; `none` is the thrown error.
unfoldable pub verify_payload : Payload → Option Claims
unfolding nonempty_name only_true role_of_name
verify_payload p = do
  uid ← p.uid
  document_name ← p.document_name
  role_text ← p.role
  role ← role_of_name role_text
  permission_epoch ← p.permission_epoch
  some (record {
    uid = uid;
    document_name = document_name;
    role = role;
    permission_epoch = permission_epoch;
    name = nonempty_name p.name;
    space_member = only_true p.space_member;
  })

-- Claims as a verified token has them: no empty name and no `false` membership.
abbrev pub normal : Claims → Claims
normal c = record c { name = nonempty_name c.name; space_member = only_true c.space_member }

nonempty_name_idem : (n : Option Text) → nonempty_name (nonempty_name n) ≡ nonempty_name n
unfolding nonempty_name
nonempty_name_idem none = refl
nonempty_name_idem (some []) = refl
nonempty_name_idem (some (c ∷ s)) = refl

only_true_idem : (b : Option Bool) → only_true (only_true b) ≡ only_true b
unfolding only_true
only_true_idem b = ground arith

role_of_name-role_name : (r : Role) → role_of_name (role_name r) ≡ some r
unfolding role_of_name
role_of_name-role_name reader = refl
role_of_name-role_name _ = refl

-- Verifying what was signed gives the claims back, except that an empty name and a membership of
-- `false` are absent.
pub verify-sign : (c : Claims) → verify_payload (sign_payload c) ≡ some (normal c)
unfolding verify_payload sign_payload
verify-sign c =
    ground (
      arith,
      nonempty_name_idem c.name,
      only_true_idem c.space_member,
      role_of_name-role_name c.role,
    )

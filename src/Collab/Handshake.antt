-- ===== src/Collab/Handshake.antt =====
-- src/collab/authenticate.ts: the handshake of a socket.
pub mod Laws
use octo_docs_backend.Base.{
  ℕ, Bool, true, false, not, Option, none, some, Text, text_eq, ltb, if◌then◌else◌, Result, ok, err,
}
use octo_docs_backend.Permission.Role.{Role, reader, commenter, ResolvedRole, no_role, role}
use octo_docs_backend.Permission.Name.{
  ParsedName, document, whiteboard, html, ppt, parse_document_name,
}
use octo_docs_backend.Permission.Resolve.{name_space, name_folder}
use octo_docs_backend.Collab.Token.{Claims}

-- `AuthError`, by its close code.
pub data AuthError : Type 0 where
  unauthorized : AuthError  -- 4401, refreshable
  forbidden : AuthError  -- 4403, permanent

-- The kind-tagged id: `doc` or `board`.
pub data Target : Type 0 where
  doc board : Text → Target

pub record AuthContext : Type 0 where
  pub uid : Text
  pub name : Option Text
  pub role : Role
  pub permission_epoch : ℕ
  pub space_member : Bool
  pub space : Text
  pub folder : Text
  pub target : Target

-- The context, and whether `connectionConfig.readOnly` was set.
pub record Admitted : Type 0 where
  pub context : AuthContext
  pub read_only : Bool

-- `claims.space_member ?? false`.
abbrev pub member_claim : Option Bool → Bool
member_claim none = false
member_claim (some b) = b

-- `parsed.kind === 'whiteboard' ? … : …`.
abbrev pub target_of : ParsedName → Target
target_of (whiteboard space folder id) = board id
target_of (document space folder id) = doc id
target_of (html space folder id) = doc id
target_of (ppt space folder id) = doc id

abbrev pub is_read_only : Role → Bool
is_read_only reader = true
is_read_only commenter = true
is_read_only _ = false

-- Steps 4 to 7, on the parsed name.
unfoldable pub admit : Claims → ParsedName → Admitted
admit claims parsed = record {
  context = record {
    uid = claims.uid;
    name = claims.name;
    role = claims.role;
    permission_epoch = claims.permission_epoch;
    space_member = member_claim claims.space_member;
    space = name_space parsed;
    folder = name_folder parsed;
    target = target_of parsed;
  };
  read_only = is_read_only claims.role;
}

-- The stale branch: what the recheck found, `none` where it failed.
unfoldable pub stale : Option ResolvedRole → Result AuthError Admitted
stale none = err unauthorized
stale (some no_role) = err forbidden
stale (some (role r)) = err unauthorized

-- Steps 3 to 7, on the current epoch.
unfoldable pub authenticate_epoch :
    (Text → Text → Bool → Option ResolvedRole) → Claims → Text → ℕ → Result AuthError Admitted
unfolding stale admit
authenticate_epoch recheck claims name epoch =
    if ltb claims.permission_epoch epoch
    then stale (recheck name claims.uid (member_claim claims.space_member))
    else elim (parse_document_name name) [
      | err e ↦ err forbidden
      | ok parsed ↦ ok (admit claims parsed)
    ]

-- `authenticate`, on what the token verifies to. `current_epoch` and `recheck` are `none` where
-- they throw.
unfoldable pub authenticate :
    (Text → Option ℕ)
    → (Text → Text → Bool → Option ResolvedRole)
    → Option Claims
    → Text
    → Result AuthError Admitted
unfolding authenticate_epoch
authenticate current_epoch recheck none name = err unauthorized
authenticate current_epoch recheck (some claims) name =
    if not (text_eq claims.document_name name) then err forbidden else elim (current_epoch name) [
      | none ↦ err unauthorized
      | some epoch ↦ authenticate_epoch recheck claims name epoch
    ]

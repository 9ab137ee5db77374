-- ===== src/Collab/Issue.antt =====
-- src/auth/issueCollabToken.ts: who gets a collab token for a document name.
pub mod Laws
use octo_docs_backend.Base.{
  ℕ, Bool, true, false, not, ◌||◌, Option, none, some, [], ◌∷◌, Text, text_eq, ◌==◌, if◌then◌else◌,
  Result, ok, err, trim,
}
use octo_docs_backend.Permission.Role.{Role, ResolvedRole, no_role, role}
use octo_docs_backend.Permission.Share.{share_scope_anyone, effective_role}
use octo_docs_backend.Permission.Name.{
  ParsedName, html_doc_type, html_ppt_doc_type, parse_document_name,
  is_doc_type_consistent_with_name,
}
use octo_docs_backend.Permission.Resolve.{resolve_role, resolve_doc_meta_by_name}
use octo_docs_backend.Db.{Tables}
use octo_docs_backend.Db.Meta.{DocMeta}
use octo_docs_backend.Collab.Token.{Claims}

-- What the identity service answers for a session token.
pub record Identity : Type 0 where
  pub uid : Text
  pub name : Option Text

-- The identity service: token verification, the user directory and space membership.
pub record IdentityService : Type 0 where
  pub verify_token : Text → Option Identity
  pub get_user : Text → Text → Option (Option Text)  -- a profile with its name, if it has one
  pub is_space_member : Text → Text → Text → Bool

-- The claims to sign, and the row of the view history that is recorded on the way.
pub record Issued : Type 0 where
  pub claims : Claims
  pub viewed_doc : Text
  pub viewed_in : Text

pub data IssueResult : Type 0 where
  refused : ℕ → IssueResult
  issued : Issued → IssueResult

abbrev pub is_blank : Text → Bool
is_blank [] = true
is_blank (c ∷ s) = false

-- `typeof name === 'string' ? name.trim() : ''`.
abbrev pub trimmed : Option Text → Text
trimmed none = []
trimmed (some n) = trim n

-- The name of a profile that the directory may not have.
abbrev pub profile_name : Option (Option Text) → Text
profile_name none = []
profile_name (some n) = trimmed n

abbrev pub nonblank : Text → Option Text
nonblank [] = none
nonblank (c ∷ s) = some (c ∷ s)

module _ (service : IdentityService) where
  -- The local `displayName`.
  unfoldable pub display_name : Identity → Text → Text
  unfolding trim
  display_name identity octo_token =
      if is_blank (trimmed identity.name)
      then profile_name (service.get_user identity.uid octo_token)
      else trimmed identity.name

  -- The local `spaceMember`.
  unfoldable pub member_of_shared : Text → DocMeta → Text → Bool
  member_of_shared uid meta octo_token =
      if meta.share_scope == share_scope_anyone
      then service.is_space_member uid meta.space_id octo_token
      else false

  -- The local `ingestSpaceId`.
  unfoldable pub ingest_space : Option Text → DocMeta → Text
  unfolding trim
  ingest_space viewer_space meta =
      if is_blank (trimmed viewer_space) then meta.space_id else trimmed viewer_space

  -- The answer for a resolved role.
  unfoldable pub issue_role :
      Identity → Text → Text → Option Text → DocMeta → Bool → ResolvedRole → IssueResult
  unfolding display_name ingest_space
  issue_role identity octo_token name viewer_space meta member no_role = refused 403
  issue_role identity octo_token name viewer_space meta member (role r) = issued (record {
    claims = record {
      uid = identity.uid;
      document_name = name;
      role = r;
      permission_epoch = meta.permission_epoch;
      name = nonblank (display_name identity octo_token);
      space_member = if member then some true else none;
    };
    viewed_doc = meta.doc_id;
    viewed_in = ingest_space viewer_space meta;
  })

  -- The checks on the document's type, and the role.
  unfoldable pub issue_meta :
      Tables → Identity → Text → Text → Option Text → ParsedName → DocMeta → IssueResult
  unfolding issue_role member_of_shared is_doc_type_consistent_with_name text_eq
  issue_meta db identity octo_token name viewer_space parsed meta =
      let member = member_of_shared identity.uid meta octo_token in
      let direct = resolve_role db identity.uid meta.doc_id in
      if not (is_doc_type_consistent_with_name parsed meta.doc_type)
      then refused 404
      else if text_eq meta.doc_type html_doc_type || text_eq meta.doc_type html_ppt_doc_type
      then refused 422
      else issue_role identity octo_token name viewer_space meta member
          (effective_role direct member meta.share_scope meta.share_role)

  -- The resolution of the document for a known identity.
  unfoldable pub issue_identity : Tables → Identity → Text → Text → Option Text → IssueResult
  unfolding issue_meta
  issue_identity db identity octo_token name viewer_space = elim (parse_document_name name) [
    | err e ↦ refused 403
    | ok parsed ↦ elim (resolve_doc_meta_by_name db name) [
      | none ↦ refused 404
      | some meta ↦ issue_meta db identity octo_token name viewer_space parsed meta
    ]
  ]

  -- `issueCollabToken`.
  unfoldable pub issue_collab_token : Tables → Text → Text → Option Text → IssueResult
  unfolding issue_identity
  issue_collab_token db octo_token name viewer_space = elim (service.verify_token octo_token) [
    | none ↦ refused 401
    | some identity ↦ issue_identity db identity octo_token name viewer_space
  ]

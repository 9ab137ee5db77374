-- ===== src/Permission/Resolve.antt =====
-- src/permission/resolveRole.ts, resolveEffectiveRole.ts and src/api/guard.ts: the role of a user on
-- a document, from its row, the member rows and the share settings.
pub mod Laws
use octo_docs_backend.Base.{
  ℕ, Bool, true, false, not, ◌||◌, Option, none, some, [], Text, text_eq, ◌==◌, if◌then◌else◌, ok,
  err,
}
use octo_docs_backend.Permission.Role.{
  Role, ResolvedRole, no_role, role, admin, writer, role_at_least,
}
use octo_docs_backend.Permission.Share.{share_scope_anyone, effective_role}
use octo_docs_backend.Permission.Name.{
  ParsedName, document, whiteboard, html, ppt, parse_document_name,
}
use octo_docs_backend.Db.{Tables}
use octo_docs_backend.Db.Meta.{DocMeta, get_by_doc_id, get_by_document_name}
use octo_docs_backend.Db.Member.{get_role}

-- `memberRole ?? 'none'`.
abbrev pub or_none : Option Role → ResolvedRole
or_none none = no_role
or_none (some r) = role r

-- Owner, else member, else none: the role on a document whose row is at hand.
unfoldable pub direct_role : Tables → DocMeta → Text → Text → ResolvedRole
direct_role db meta doc_id uid =
    if text_eq uid meta.owner_id then role admin else or_none (get_role db.doc_member doc_id uid)

-- `resolveRole`.
unfoldable pub resolve_role : Tables → Text → Text → ResolvedRole
unfolding direct_role
resolve_role db uid doc_id = elim (get_by_doc_id db.doc_meta doc_id) [
  | none ↦ no_role
  | some meta ↦ direct_role db meta doc_id uid
]

abbrev pub name_space : ParsedName → Text
name_space (document space folder doc) = space
name_space (whiteboard space folder doc) = space
name_space (html space folder doc) = space
name_space (ppt space folder doc) = space

abbrev pub name_folder : ParsedName → Text
name_folder (document space folder doc) = folder
name_folder (whiteboard space folder doc) = folder
name_folder (html space folder doc) = folder
name_folder (ppt space folder doc) = folder

-- The checks of `resolveDocMetaByName` on the row that was found.
unfoldable pub consistent_row : ParsedName → DocMeta → Option DocMeta
consistent_row parsed meta =
    if meta.status == 0
    then none
    else if not (text_eq (name_space parsed) meta.space_id)
        || not (text_eq (name_folder parsed) meta.folder_id)
    then none
    else some meta

-- `resolveDocMetaByName`.
unfoldable pub resolve_doc_meta_by_name : Tables → Text → Option DocMeta
unfolding consistent_row
resolve_doc_meta_by_name db name = elim (parse_document_name name) [
  | err e ↦ none
  | ok parsed ↦ elim (get_by_document_name db.doc_meta name) [
    | none ↦ none
    | some meta ↦ consistent_row parsed meta
  ]
]

-- `recheckCurrentRole`.
unfoldable pub recheck_current_role : Tables → Text → Text → Bool → ResolvedRole
unfolding direct_role
recheck_current_role db name uid space_member = elim (resolve_doc_meta_by_name db name) [
  | none ↦ no_role
  | some meta ↦
      effective_role (direct_role db meta meta.doc_id uid) space_member meta.share_scope
        meta.share_role
]

-- `ShareCaller`, which is also `DocRoleCaller`.
pub record Caller : Type 0 where
  pub is_bot : Bool
  pub token : Option Text

-- `caller.token ?? ''`.
abbrev pub token_or_blank : Option Text → Text
token_or_blank none = []
token_or_blank (some t) = t

-- The outcome of the REST guard: the answer that it wrote, or the document and the role.
pub data Guarded : Type 0 where
  status : ℕ → Guarded
  passed : DocMeta → ResolvedRole → Guarded

-- The membership test is the identity service's.
module _ (is_space_member : Text → Text → Text → Bool) where
  -- `resolveEffectiveRole`.
  unfoldable pub resolve_effective_role : Text → ResolvedRole → DocMeta → Caller → ResolvedRole
  resolve_effective_role uid direct meta caller =
      if not (meta.share_scope == share_scope_anyone) || role_at_least direct (role writer)
      then direct
      else effective_role direct
          (if caller.is_bot
            then true
            else is_space_member uid meta.space_id (token_or_blank caller.token))
          meta.share_scope meta.share_role

  -- The last test of the guard, on the role.
  unfoldable pub guard_role : DocMeta → ResolvedRole → Role → Guarded
  guard_role meta no_role min_role = status 403
  guard_role meta (role r) min_role =
      if role_at_least (role r) (role min_role) then passed meta (role r) else status 403

  -- The tests of the guard on the row that was found.
  unfoldable pub guard_meta : Tables → Text → Text → Text → Role → Caller → DocMeta → Guarded
  unfolding resolve_effective_role guard_role
  guard_meta db uid doc_id space_id min_role caller meta =
      if meta.status == 0
      then status 404
      else if not (text_eq meta.space_id space_id)
      then status 404
      else if meta.status == 2
      then status 409
      else guard_role meta (resolve_effective_role uid (resolve_role db uid doc_id) meta caller)
          min_role

  -- `requireDocRole`, with `requireSameSpace`.
  unfoldable pub require_doc_role : Tables → Text → Text → Text → Role → Caller → Guarded
  unfolding guard_meta
  require_doc_role db uid doc_id space_id min_role caller =
      elim (get_by_doc_id db.doc_meta doc_id) [
        | none ↦ status 404
        | some meta ↦ guard_meta db uid doc_id space_id min_role caller meta
      ]

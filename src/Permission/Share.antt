-- ===== src/Permission/Share.antt =====
-- src/permission/shareScope.ts: the share scope of a document and the effective role.
pub mod Laws
use octo_docs_backend.Base.{
  ℕ, Bool, ◌&&◌, Option, none, some, Text, codes, text_eq, leb, ◌==◌, if◌then◌else◌,
}
use octo_docs_backend.Permission.Role.{ResolvedRole, no_role, role, reader, writer, role_rank}

abbrev pub share_scope_restricted : ℕ
share_scope_restricted = 0

abbrev pub share_scope_anyone : ℕ
share_scope_anyone = 1

abbrev pub share_role_read : ℕ
share_role_read = 1

abbrev pub share_role_edit : ℕ
share_role_edit = 2

-- `shareScopeName`.
unfoldable pub share_scope_name : ℕ → Text
share_scope_name n = if n == share_scope_anyone then codes "anyone_in_space" else codes "restricted"

-- `shareRoleName`.
unfoldable pub share_role_name : ℕ → Text
share_role_name n = if n == share_role_edit then codes "edit" else codes "read"

-- `parseShareScope` on a string; `null` is `none`.
unfoldable pub parse_share_scope : Text → Option ℕ
unfolding text_eq
parse_share_scope v =
    if text_eq v (codes "restricted")
    then some share_scope_restricted
    else if text_eq v (codes "anyone_in_space")
    then some share_scope_anyone
    else none

-- `parseShareRole` on a string.
unfoldable pub parse_share_role : Text → Option ℕ
unfolding text_eq
parse_share_role v =
    if text_eq v (codes "read")
    then some share_role_read
    else if text_eq v (codes "edit")
    then some share_role_edit
    else none

-- The local `shareDerived` of `effectiveRole`.
unfoldable pub share_derived : Bool → ℕ → ℕ → ResolvedRole
share_derived member scope share_role =
    if scope == share_scope_anyone && member
    then if share_role == share_role_edit then role writer else role reader
    else no_role

-- `effectiveRole`.
unfoldable pub effective_role : ResolvedRole → Bool → ℕ → ℕ → ResolvedRole
unfolding share_derived role_rank
effective_role direct member scope share_role =
    let derived = share_derived member scope share_role in
    if leb (role_rank derived) (role_rank direct) then direct else derived

-- ===== src/Permission/Role.antt =====
-- src/permission/role.ts: `Role`, the stored numbers and the comparison rank.
pub mod Order
use octo_docs_backend.Base.{
  ℕ, Bool, ◌||◌, Option, none, some, List, [], ◌∷◌, Text, codes, text_eq, leb, ◌==◌, if◌then◌else◌,
}

pub data Role : Type 0 where
  reader commenter writer admin : Role

-- `ResolvedRole`, that is `Role | 'none'`.
pub data ResolvedRole : Type 0 where
  no_role : ResolvedRole
  role : Role → ResolvedRole

abbrev pub role_reader : ℕ
role_reader = 1

abbrev pub role_writer : ℕ
role_writer = 2

abbrev pub role_admin : ℕ
role_admin = 3

abbrev pub role_commenter : ℕ
role_commenter = 4

abbrev pub stored_role_values : List ℕ
stored_role_values = role_reader ∷ role_writer ∷ role_admin ∷ role_commenter ∷ []

-- `roleFromNumber`, the lookup in `NUM_TO_ROLE`; `undefined` is `none`.
unfoldable pub role_from_number : ℕ → Option Role
role_from_number n =
    if n == role_reader
    then some reader
    else if n == role_writer
    then some writer
    else if n == role_admin
    then some admin
    else if n == role_commenter
    then some commenter
    else none

-- `roleToNumber`, the lookup in `ROLE_TO_NUM`.
unfoldable pub role_to_number : Role → ℕ
role_to_number reader = role_reader
role_to_number writer = role_writer
role_to_number admin = role_admin
role_to_number commenter = role_commenter

-- `roleRank`, the lookup in `ROLE_RANK`.
unfoldable pub role_rank : ResolvedRole → ℕ
role_rank no_role = 0
role_rank (role reader) = 10
role_rank (role commenter) = 20
role_rank (role writer) = 30
role_rank (role admin) = 40

-- `roleAtLeast`.
unfoldable pub role_at_least : ResolvedRole → ResolvedRole → Bool
unfolding role_rank
role_at_least a b = leb (role_rank b) (role_rank a)

-- The wire names of the roles.
abbrev pub role_name : Role → Text
role_name reader = codes "reader"
role_name commenter = codes "commenter"
role_name writer = codes "writer"
role_name admin = codes "admin"

-- `isMemberRole` on a string.
unfoldable pub is_member_role : Text → Bool
unfolding text_eq
is_member_role v =
    text_eq v (role_name reader)
    || text_eq v (role_name commenter)
    || text_eq v (role_name writer)
    || text_eq v (role_name admin)

-- `isForwardGrantRole` on a string.
unfoldable pub is_forward_grant_role : Text → Bool
unfolding text_eq
is_forward_grant_role v =
    text_eq v (role_name reader) || text_eq v (role_name commenter) || text_eq v (role_name writer)

-- `isAccessRequestRole` on a string.
unfoldable pub is_access_request_role : Text → Bool
unfolding text_eq
is_access_request_role v =
    text_eq v (role_name reader) || text_eq v (role_name commenter) || text_eq v (role_name writer)

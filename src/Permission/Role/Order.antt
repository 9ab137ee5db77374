-- ===== src/Permission/Role/Order.antt =====
-- The order of the roles of src/permission/role.ts and their stored numbers.
use octo_docs_backend.Base.{ℕ, ◌≡◌, refl, true, some, arith}
use octo_docs_backend.Permission.Role.{
  Role, reader, ResolvedRole, role_from_number, role_to_number, role_rank, role_at_least,
}

pub role_from_number-role_to_number : (r : Role) → role_from_number (role_to_number r) ≡ some r
unfolding role_from_number role_to_number
role_from_number-role_to_number reader = refl
role_from_number-role_to_number _ = refl

pub role_to_number_of : (n : ℕ) (r : Role) → role_from_number n ≡ some r → role_to_number r ≡ n
unfolding role_from_number role_to_number
role_to_number_of n r h = ground arith

pub role_rank_injective : (a b : ResolvedRole) → role_rank a ≡ role_rank b → a ≡ b
unfolding role_rank
role_rank_injective a b h = ground arith

pub role_at_least_refl : (a : ResolvedRole) → role_at_least a a ≡ true
unfolding role_at_least
role_at_least_refl a = ground arith

pub role_at_least_trans :
    (a b c : ResolvedRole)
    → role_at_least a b ≡ true
    → role_at_least b c ≡ true
    → role_at_least a c ≡ true
unfolding role_at_least
role_at_least_trans a b c h k = ground arith

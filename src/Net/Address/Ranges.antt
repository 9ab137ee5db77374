-- ===== src/Net/Address/Ranges.antt =====
-- The blocked IPv4 ranges of src/util/ssrfGuard.ts as CIDR blocks, and the mapped addresses.
use octo_docs_backend.Base.{
  ℕ, ◌+◌, ◌*◌, ◌<◌, ◌≤◌, ◌≡◌, ◌⊎◌, ◌↔◌, refl, true, [], ◌∷◌, ◌++◌, replicate, arith,
}
use octo_docs_backend.Net.Address.{is_blocked_ipv4, is_blocked_ipv6}

-- The 32-bit number of an address.
abbrev pub address : ℕ → ℕ → ℕ → ℕ → ℕ
address a c d e = a * 16777216 + c * 65536 + d * 256 + e

-- The blocks 0/8, 10/8, 127/8, 172.16/12, 192.168/16, 169.254/16 and 100.64/10: the first
-- number of a block, and the number after its last.
abbrev pub IsPrivate : ℕ → Type 0
IsPrivate n =
    (n < address 1 0 0 0)
    ⊎ ((address 10 0 0 0 ≤ n) × (n < address 11 0 0 0))
    ⊎ ((address 127 0 0 0 ≤ n) × (n < address 128 0 0 0))
    ⊎ ((address 172 16 0 0 ≤ n) × (n < address 172 32 0 0))
    ⊎ ((address 192 168 0 0 ≤ n) × (n < address 192 169 0 0))
    ⊎ ((address 169 254 0 0 ≤ n) × (n < address 169 255 0 0))
    ⊎ ((address 100 64 0 0 ≤ n) × (n < address 100 128 0 0))

-- An IPv4 address is blocked exactly if its number lies in one of the seven blocks.
pub is_blocked_ipv4_iff :
    (a c d e : ℕ)
    → a < 256
    → c < 256
    → d < 256
    → e < 256
    → (is_blocked_ipv4 (a ∷ c ∷ d ∷ e ∷ []) ≡ true) ↔ IsPrivate (address a c d e)
unfolding is_blocked_ipv4
is_blocked_ipv4_iff a c d e ha hc hd he = ground arith

-- An IPv4-mapped IPv6 address, ten zero bytes and two bytes 0xff before the IPv4 address, is
-- blocked exactly when the IPv4 address is.
pub is_blocked_ipv6-mapped :
    (a c d e : ℕ)
    → is_blocked_ipv6 (replicate 10 0 ++ (0xff ∷ 0xff ∷ a ∷ c ∷ d ∷ e ∷ []))
      ≡ is_blocked_ipv4 (a ∷ c ∷ d ∷ e ∷ [])
unfolding is_blocked_ipv6
is_blocked_ipv6-mapped a c d e = refl

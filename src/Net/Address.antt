-- ===== src/Net/Address.antt =====
-- src/util/ssrfGuard.ts: parsing of IP literals and the blocked ranges.
pub mod Ranges
use octo_docs_backend.Base.{
  ℕ, ◌+◌, ◌-◌, ◌*◌, ◌/◌, ◌%◌, Bool, true, false, not, ◌&&◌, ◌||◌, Option, none, some, ◌>>=◌, List,
  [], ◌∷◌, ◌++◌, map, Text, all, any, length, get_or, take, drop, replicate, ltb, leb, ◌==◌,
  if◌then◌else◌,
}
use octo_docs_backend.Permission.Name.{split_on}

unfoldable pub is_digit : ℕ → Bool
is_digit c = leb b'0' c && leb c b'9'

-- `Number(p)` of decimal digits.
unfoldable pub number_from : ℕ → Text → ℕ
number_from acc [] = acc
number_from acc (c ∷ s) = number_from (acc * 10 + (c - b'0')) s

-- `/^\d{1,3}$/.test(p)` and `n <= 255`: the value of an octet.
unfoldable pub octet : Text → Option ℕ
unfolding is_digit number_from
octet p =
    if ltb 0 (length p) && leb (length p) 3 && all is_digit p
    then if ltb 255 (number_from 0 p) then none else some (number_from 0 p)
    else none

-- The loop over the parts.
unfoldable pub octets : List Text → Option (List ℕ)
unfolding octet
octets [] = some []
octets (p ∷ parts) = do n ← octet p; rest ← octets parts; some (n ∷ rest)

-- `parseIpv4`.
unfoldable pub parse_ipv4 : Text → Option (List ℕ)
unfolding octets split_on
parse_ipv4 s = let parts = split_on b'.' s in if length parts == 4 then octets parts else none

-- `isBlockedIpv4`, on the first two octets.
unfoldable pub is_blocked_ipv4 : List ℕ → Bool
is_blocked_ipv4 b =
    let a = get_or b 0 0 in
    let c = get_or b 1 0 in
    (a == 0)
    || (a == 127)
    || (a == 10)
    || ((a == 172) && leb 16 c && leb c 31)
    || ((a == 192) && (c == 168))
    || ((a == 169) && (c == 254))
    || ((a == 100) && leb 64 c && leb c 127)

unfoldable pub is_hex : ℕ → Bool
unfolding is_digit
is_hex c = is_digit c || (leb b'a' c && leb c b'f') || (leb b'A' c && leb c b'F')

unfoldable pub hex_value : ℕ → ℕ
unfolding is_digit
hex_value c = if is_digit c then c - b'0' else if leb b'a' c then c - b'a' + 10 else c - b'A' + 10

-- `parseInt(g, 16)` of hexadecimal digits.
unfoldable pub hex_from : ℕ → Text → ℕ
unfolding hex_value
hex_from acc [] = acc
hex_from acc (c ∷ s) = hex_from (acc * 16 + hex_value c) s

-- One hexadecimal group.
unfoldable pub hextet : Text → Option ℕ
unfolding is_hex hex_from
hextet g =
    if ltb 0 (length g) && leb (length g) 4 && all is_hex g then some (hex_from 0 g) else none

-- The two groups of an embedded IPv4 address: `(v4[0] << 8) | v4[1]` and so on.
unfoldable pub embedded : Text → Option (List ℕ)
embedded g = do
  v4 ← parse_ipv4 g
  some ((get_or v4 0 0 * 256 + get_or v4 1 0) ∷ (get_or v4 2 0 * 256 + get_or v4 3 0) ∷ [])

abbrev pub is_last : List Text → Bool
is_last [] = true
is_last (g ∷ gs) = false

-- The groups that one group stands for.
unfoldable pub group : Text → Bool → Option (List ℕ)
unfolding embedded hextet
group g last =
    if any (λ c. c == b'.') g
    then if last then embedded g else none
    else do h ← hextet g; some (h ∷ [])

-- The loop of `expand`.
unfoldable pub groups : List Text → Option (List ℕ)
unfolding group
groups [] = some []
groups (g ∷ gs) = do here ← group g (is_last gs); rest ← groups gs; some (here ++ rest)

-- `expand`.
unfoldable pub expand : Text → Option (List ℕ)
unfolding groups split_on
expand [] = some []
expand (c ∷ s) = groups (split_on b':' (c ∷ s))

-- `addr.split('::')`; `first` is the part that is being read.
unfoldable pub split_double : Text → List Text
split_double [] = [] ∷ []
split_double (c ∷ []) = (c ∷ []) ∷ []
split_double (c ∷ d ∷ s) = elim ((c == b':') && (d == b':')) [
  | true ↦ [] ∷ split_double s
  | false ↦ elim (split_double (d ∷ s)) [ [] ↦ (c ∷ []) ∷ [] | p ∷ ps ↦ (c ∷ p) ∷ ps ]
]

-- The part before a zone id.
unfoldable pub strip_zone : Text → Text
strip_zone [] = []
strip_zone (c ∷ s) = if c == b'%' then [] else c ∷ strip_zone s

-- Both sides of a `::`, filled up with zero groups.
unfoldable pub fill : List ℕ → List ℕ → Option (List ℕ)
fill head tail =
    if ltb (8 - (length head + length tail)) 1
    then none
    else some (head ++ (replicate (8 - (length head + length tail)) 0 ++ tail))

-- The hextets of the halves.
unfoldable pub hextets : Text → List Text → Option (List ℕ)
unfolding expand fill
hextets addr (h ∷ t ∷ []) = do head ← expand h; tail ← expand t; fill head tail
hextets addr (h ∷ []) = expand addr
hextets addr _ = none

-- `(h >> 8) & 0xff` and `h & 0xff` of each hextet.
unfoldable pub bytes_of : List ℕ → List ℕ
bytes_of [] = []
bytes_of (h ∷ hs) = (h / 256 % 256) ∷ (h % 256) ∷ bytes_of hs

-- `parseIpv6`.
unfoldable pub parse_ipv6 : Text → Option (List ℕ)
unfolding hextets split_double strip_zone bytes_of
parse_ipv6 input =
    let addr = strip_zone input in
    do hs ← hextets addr (split_double addr); if length hs == 8 then some (bytes_of hs) else none

abbrev pub is_zero : ℕ → Bool
is_zero x = x == 0

-- `isBlockedIpv6`. `x & 0xfe` keeps all bits but the lowest, `x & 0xc0` the two highest of a byte.
unfoldable pub is_blocked_ipv6 : List ℕ → Bool
unfolding is_blocked_ipv4
is_blocked_ipv6 b =
    if all is_zero (take 10 b) && (get_or b 10 0 == 0xff) && (get_or b 11 0 == 0xff)
    then is_blocked_ipv4 (take 4 (drop 12 b))
    else all is_zero b
      || (all is_zero (take 15 b) && (get_or b 15 0 == 1))
      || (get_or b 0 0 / 2 * 2 == 0xfc)
      || ((get_or b 0 0 == 0xfe) && (get_or b 1 0 / 64 * 64 == 0x80))

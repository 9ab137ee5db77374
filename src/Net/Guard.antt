-- ===== src/Net/Guard.antt =====
-- src/util/ssrfGuard.ts: `isBlockedIp` and `resolveAndValidate`. Node's `isIP` and `dns.lookup` are
-- parameters; `none` is a lookup that throws. A host is lower-cased on ASCII letters.
pub mod Laws
use octo_docs_backend.Base.{
  ℕ, ◌+◌, Bool, true, false, not, ◌&&◌, ◌||◌, Option, none, some, List, [], ◌∷◌, map, Text, codes,
  text_eq, trim, any, leb, ◌==◌, Result, ok, err, if◌then◌else◌,
}
use mathlib.Core.List.{reverse}
use octo_docs_backend.Net.Address.{parse_ipv4, parse_ipv6, is_blocked_ipv4, is_blocked_ipv6}

-- `LinkCardErrorCode`.
pub data LinkCardError : Type 0 where
  url_required url_invalid scheme_not_allowed ssrf_blocked : LinkCardError
  fetch_failed unsupported_content_type response_too_large : LinkCardError

-- What a fetch may connect to.
pub record Validated : Type 0 where
  pub hostname : Text
  pub validated_ips : List Text

abbrev pub is_terminator : ℕ → Bool
is_terminator c = (c == 10) || (c == 13) || (c == 0x2028) || (c == 0x2029)

-- The part before a final `]`, read backwards.
abbrev pub before_bracket : Text → Text → Text
before_bracket whole [] = whole
before_bracket whole (c ∷ s) = if (c == b']') && not (any is_terminator s) then reverse s else whole

-- `hostname.replace(/^\[(.*)\]$/, '$1')`.
unfoldable pub debracket : Text → Text
debracket [] = []
debracket (c ∷ s) = if c == b'[' then before_bracket (c ∷ s) (reverse s) else c ∷ s

abbrev pub lower : ℕ → ℕ
lower c = if leb b'A' c && leb c b'Z' then c + 32 else c

unfoldable pub host_of : Text → Text
unfolding debracket trim
host_of hostname = map lower (trim (debracket hostname))

abbrev pub blocked_unless : (List ℕ → Bool) → Option (List ℕ) → Bool
blocked_unless test none = true
blocked_unless test (some bytes) = test bytes

module _ (is_ip : Text → ℕ) where
  -- `isBlockedIp`.
  unfoldable pub is_blocked_ip : Text → Bool
  unfolding parse_ipv4 is_blocked_ipv4 parse_ipv6 is_blocked_ipv6
  is_blocked_ip ip =
      if is_ip ip == 4
      then blocked_unless is_blocked_ipv4 (parse_ipv4 ip)
      else if is_ip ip == 6
      then blocked_unless is_blocked_ipv6 (parse_ipv6 ip)
      else true

  -- The checks after `dnsLookup`.
  unfoldable pub validate : Text → Option (List Text) → Result LinkCardError Validated
  unfolding is_blocked_ip
  validate hostname none = err fetch_failed
  validate hostname (some []) = err fetch_failed
  validate hostname (some (ip ∷ ips)) =
      if any is_blocked_ip (ip ∷ ips)
      then err ssrf_blocked
      else ok (record { hostname = hostname; validated_ips = ip ∷ ips })

  -- `resolveAndValidate`.
  unfoldable pub resolve_and_validate :
      (Text → Option (List Text)) → Text → Result LinkCardError Validated
  unfolding is_blocked_ip validate host_of
  resolve_and_validate dns_lookup hostname =
      let host = host_of hostname in
      if text_eq host [] || text_eq host (codes "localhost")
      then err ssrf_blocked
      else if not (is_ip host == 0)
      then if is_blocked_ip host
        then err ssrf_blocked
        else ok (record { hostname = host; validated_ips = host ∷ [] })
      else validate hostname (dns_lookup hostname)

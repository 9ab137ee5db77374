-- ===== src/Net/Guard/Laws.antt =====
-- What passes the guard of src/util/ssrfGuard.ts.
use mathlib.Core.Path.{subst}
use octo_docs_backend.Base.{
  ℕ, ◌≡◌, ◌≢◌, refl, false, Option, none, some, List, [], ◌∷◌, Text, any, All, ok, inl, inr, ==_iff,
  ok-injective, text_eq, codes, ◌==◌, ◌||◌, Bool-cases, arith,
}
use octo_docs_backend.Net.Guard.{Validated, host_of, is_blocked_ip, validate, resolve_and_validate}

module _ (is_ip : Text → ℕ) where
  abbrev pub IsOpen : Text → Type 0
  IsOpen ip = is_blocked_ip is_ip ip ≡ false

  any-IsOpen : (ips : List Text) → any (is_blocked_ip is_ip) ips ≡ false → All IsOpen ips
  any-IsOpen [] h = tt
  any-IsOpen (ip ∷ ips) h = elim (Bool-cases (is_blocked_ip is_ip ip)) [
    | inl e ↦ cc (rw (e) at h)
    | inr e ↦ (e, any-IsOpen ips (rw (e) at h))
  ]

  -- There is a first address.
  abbrev IsNonempty : List Text → Type 0
  IsNonempty found = (ip : Text) × (ips : List Text) × (found ≡ ip ∷ ips)

  validate-IsOpen :
      (hostname : Text) (found : Option (List Text)) (v : Validated)
      → validate is_ip hostname found ≡ ok v
      → All IsOpen v.validated_ips × (found ≡ some v.validated_ips) × IsNonempty v.validated_ips
  unfolding validate
  validate-IsOpen hostname none v h = cc
  validate-IsOpen hostname (some []) v h = cc
  validate-IsOpen hostname (some (ip ∷ ips)) v h =
      elim (Bool-cases (any (is_blocked_ip is_ip) (ip ∷ ips))) [
        | inl e ↦ cc (rw (e) at h)
        | inr e ↦
            let p = ok-injective _ v _ refl (rw (e) at h) in
            subst
              (λ w.
                All IsOpen w.validated_ips
                × (some (ip ∷ ips) ≡ some w.validated_ips)
                × IsNonempty w.validated_ips)
              p (any-IsOpen (ip ∷ ips) e, refl, (ip, ips, refl))
      ]

  -- What an accepted host may connect to: the literal itself, or all that the name resolved to.
  pub data IsResolved (dns_lookup : Text → Option (List Text)) (hostname : Text) (v : Validated)
      : Type 0 where
    literal :
        is_ip (host_of hostname) ≢ 0
        → v.validated_ips ≡ host_of hostname ∷ []
        → IsResolved dns_lookup hostname v
    looked_up :
        is_ip (host_of hostname) ≡ 0
        → dns_lookup hostname ≡ some v.validated_ips
        → IsResolved dns_lookup hostname v

  -- What an accepted host comes with.
  accepted :
      (dns_lookup : Text → Option (List Text)) (hostname : Text) (v : Validated)
      → resolve_and_validate is_ip dns_lookup hostname ≡ ok v
      → All IsOpen v.validated_ips × IsResolved dns_lookup hostname v × IsNonempty v.validated_ips
  unfolding resolve_and_validate
  accepted dns_lookup hostname v h =
      elim (Bool-cases
        (text_eq (host_of hostname) [] || text_eq (host_of hostname) (codes "localhost"))) [
          | inl e ↦ cc (rw (e) at h)
          | inr e ↦ elim (Bool-cases (is_ip (host_of hostname) == 0)) [
            | inl z ↦
                let r = validate-IsOpen hostname (dns_lookup hostname) v (rw (e, z) at h) in
                (r.0, looked_up ((==_iff (is_ip (host_of hostname)) 0).0 z) r.1, r.2)
            | inr z ↦ elim (Bool-cases (is_blocked_ip is_ip (host_of hostname))) [
              | inl b ↦ cc (rw (e, z, b) at h)
              | inr b ↦
                  let p = ok-injective _ v _ refl (rw (e, z, b) at h) in
                  subst
                    (λ w.
                      All IsOpen w.validated_ips
                      × IsResolved dns_lookup hostname w
                      × IsNonempty w.validated_ips)
                    p
                    (
                      (b, tt),
                      literal (λ q. ground (arith, q, z)) refl,
                      (host_of hostname, [], refl),
                    )
            ]
          ]
        ]

  -- When the guard accepts a host, none of the addresses that it returns is blocked, and they are
  -- the literal address itself or else everything that the one lookup of the name found.
  pub resolve_and_validate-IsOpen :
      (dns_lookup : Text → Option (List Text)) (hostname : Text) (v : Validated)
      → resolve_and_validate is_ip dns_lookup hostname ≡ ok v
      → All IsOpen v.validated_ips × IsResolved dns_lookup hostname v
  resolve_and_validate-IsOpen dns_lookup hostname v h =
      let (a, b, _) = accepted dns_lookup hostname v h in (a, b)

  -- An accepted host comes with a first address, which is not blocked.
  pub resolve_and_validate-first :
      (dns_lookup : Text → Option (List Text)) (hostname : Text) (v : Validated)
      → resolve_and_validate is_ip dns_lookup hostname ≡ ok v
      → (ip : Text) × (ips : List Text) × (v.validated_ips ≡ ip ∷ ips) × IsOpen ip
  resolve_and_validate-first dns_lookup hostname v h =
      let (a, _, (ip, ips, e)) = accepted dns_lookup hostname v h in
      (ip, ips, e, (subst (All IsOpen) e a).0)

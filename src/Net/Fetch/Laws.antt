-- ===== src/Net/Fetch/Laws.antt =====
-- The requests that src/util/ogFetch.ts makes, and what they end with.
use mathlib.Core.Path.{subst}
use mathlib.Core.Option.{some-injective}
use octo_docs_backend.Base.{
  text_eq, text_eq_iff, codes, ℕ, zero, suc, ◌+◌, ◌-◌, ◌≤◌, ◌<◌, ◌≡◌, refl, ap, ◌∙◌, true, false,
  ◌&&◌, ◌||◌, ◌⊎◌, inl, inr, Option, none, some, List, [], ◌∷◌, Text, All, length, length-append,
  leb, ltb, ◌==◌, Result, ok, err, Result-cases, Option-cases, Bool-cases, ok-injective,
  if◌then◌else◌, arith, ◌++◌,
}
use octo_docs_backend.Net.Guard.{LinkCardError, Validated, resolve_and_validate}
use octo_docs_backend.Net.Guard.Laws.{
  IsOpen, resolve_and_validate-IsOpen, resolve_and_validate-first,
}
use octo_docs_backend.Net.Fetch.{
  allowed_ports, port_of, includes, UrlClass, HopResponse, Config, StreamEvent, chunk, end_of_body,
  broken, receive, respond, is_html, with_body, static_lookup, Request, Net, assert_scheme_and_port,
  prepare, examine, Next, follow, stop, hops, fetch_og_card,
}

module _ {Url : Type 0} (url : UrlClass Url) (number : Text → Option ℕ) (is_ip : Text → ℕ)
    (config : Config) where
  -- A request to an allowed scheme and port, whose socket can only reach an address that is not
  -- blocked, within the time that a fetch has.
  pub record IsSafe (r : Request Url) : Type 0 where
    pub scheme : (url.protocol r.target ≡ codes "http:") ⊎ (url.protocol r.target ≡ codes "https:")
    pub port :
        includes url number is_ip config
          (allowed_ports url number is_ip config)
          (port_of url number is_ip config r.target)
        ≡ true
    pub all_open : All (IsOpen is_ip) r.validated_ips
    pub ip : Text
    pub family : ℕ
    pub connects : static_lookup is_ip r.validated_ips ≡ some (ip, family)
    pub ip_open : IsOpen is_ip ip
    pub in_time : r.timeout_ms ≤ config.fetch_timeout_ms
    pub some_time : 0 < r.timeout_ms

  assert_scheme_and_port_lem :
      (u : Url)
      → assert_scheme_and_port url number is_ip config u ≡ none
      → ((url.protocol u ≡ codes "http:") ⊎ (url.protocol u ≡ codes "https:"))
        × (includes url number is_ip config
              (allowed_ports url number is_ip config)
              (port_of url number is_ip config u)
            ≡ true)
  unfolding assert_scheme_and_port
  assert_scheme_and_port_lem u h = elim (Bool-cases (text_eq (url.protocol u) (codes "http:"))) [
    | inl e ↦
        elim (Bool-cases (
          includes url number is_ip config (allowed_ports url number is_ip config)
            (port_of url number is_ip config u))) [
              | inl p ↦ (inl ((text_eq_iff (url.protocol u) (codes "http:")).0 e), p)
              | inr p ↦ cc (rw (e, p, assert_scheme_and_port) at h)
            ]
    | inr e ↦ elim (Bool-cases (text_eq (url.protocol u) (codes "https:"))) [
      | inr f ↦ cc (rw (e, f, assert_scheme_and_port) at h)
      | inl f ↦
          elim (Bool-cases (
            includes url number is_ip config (allowed_ports url number is_ip config)
              (port_of url number is_ip config u))) [
                | inl p ↦ (inr ((text_eq_iff (url.protocol u) (codes "https:")).0 f), p)
                | inr p ↦ cc (rw (p, e, f, assert_scheme_and_port) at h)
              ]
    ]
  ]

  pub Next-cases :
      (n : Next url number is_ip config)
      → ((out : _) × (n ≡ stop out)) ⊎ ((u : Url) × (n ≡ follow u))
  Next-cases (stop out) = inl (out, refl)
  Next-cases (follow u) = inr (u, refl)

  module _ (net : Net Url) (start : ℕ) (later : (k : ℕ) → start ≤ net.now k) where
    prepared :
        (hop : ℕ) (u : Url) (v : Validated)
        → assert_scheme_and_port url number is_ip config u ≡ none
        → resolve_and_validate is_ip (net.dns_lookup hop) (url.hostname u) ≡ ok v
        → leb (start + config.fetch_timeout_ms) (net.now hop) ≡ false
        → IsSafe (record {
          target = u;
          validated_ips = v.validated_ips;
          timeout_ms = start + config.fetch_timeout_ms - net.now hop;
        })
    prepared hop u v a b c =
        let (unblocked, _) =
          resolve_and_validate-IsOpen is_ip (net.dns_lookup hop) (url.hostname u) v b in
        let (ip, ips, e, o) =
          resolve_and_validate-first is_ip (net.dns_lookup hop) (url.hostname u) v b in
        record {
          scheme = (assert_scheme_and_port_lem u a).0;
          port = (assert_scheme_and_port_lem u a).1;
          all_open = unblocked;
          ip = ip;
          family = if is_ip ip == 0 then 4 else is_ip ip;
          connects = unfold static_lookup in rw (e, static_lookup) refl;
          ip_open = o;
          in_time = ground (arith, later hop);
          some_time = ground (arith, c);
        }

    prepare-IsSafe :
        (hop : ℕ) (u : Url) (r : Request Url)
        → prepare url number is_ip config net (start + config.fetch_timeout_ms) hop u ≡ ok r
        → IsSafe r × (r.target ≡ u)
    unfolding prepare
    prepare-IsSafe hop u r h =
        elim (Option-cases (assert_scheme_and_port url number is_ip config u)) [
          | inr (e, a) ↦ cc (rw (a, prepare) at h)
          | inl a ↦
              elim (Result-cases
                (resolve_and_validate is_ip (net.dns_lookup hop) (url.hostname u))) [
                  | inl (e, b) ↦ cc (rw (a, b, prepare) at h)
                  | inr (v, b) ↦
                      elim (Bool-cases (leb (start + config.fetch_timeout_ms) (net.now hop))) [
                        | inl c ↦ cc (rw (a, b, c, prepare) at h)
                        | inr c ↦
                            let p = ok-injective _ r _ refl (rw (a, b, c, prepare) at h) in
                            subst (λ x. IsSafe x × (x.target ≡ u)) p (prepared hop u v a b c, refl)
                      ]
                ]
        ]

    hops-IsSafe :
        (left hop : ℕ) (u : Url)
        → All IsSafe
            (hops url number is_ip config net (start + config.fetch_timeout_ms) left hop u).requests
    unfolding hops
    hops-IsSafe zero hop u = tt
    hops-IsSafe (suc left) hop u =
        let deadline = start + config.fetch_timeout_ms in
        elim (Result-cases (prepare url number is_ip config net deadline hop u)) [
          | inl (e, a) ↦ rw (a, hops) tt
          | inr (r, a) ↦
              let (safe, _) = prepare-IsSafe hop u r a in
              elim (Next-cases (examine url number is_ip config hop u (net.transport hop r))) [
                | inl (out, b) ↦ rw (a, b, hops) (safe, tt)
                | inr (v, b) ↦ rw (a, b, hops) (safe, hops-IsSafe left (hop + 1) v)
              ]
        ]

    -- When the clock never falls below its first reading, every request of a fetch goes to an
    -- allowed scheme and port, its validated addresses and the one that its socket connects to are
    -- not blocked, and it has a positive timeout within that of the fetch, at every redirect.
    pub fetch_og_card-IsSafe :
        (raw_url : Text)
        → All IsSafe (fetch_og_card url number is_ip config net start raw_url).requests
    unfolding fetch_og_card
    fetch_og_card-IsSafe raw_url = elim (Option-cases (url.parse raw_url)) [
      | inl e ↦ rw (e, fetch_og_card) tt
      | inr (u, e) ↦ rw (e, fetch_og_card) (hops-IsSafe (config.max_redirects + 1) 0 u)
    ]

  module _ (net : Net Url) where
    length-hops :
        (deadline left hop : ℕ) (u : Url)
        → length (hops url number is_ip config net deadline left hop u).requests ≤ left
    unfolding hops
    length-hops deadline zero hop u = omega arith
    length-hops deadline (suc left) hop u =
        elim (Result-cases (prepare url number is_ip config net deadline hop u)) [
          | inl (e, a) ↦ rw (a, hops) (omega arith)
          | inr (r, a) ↦
              elim (Next-cases (examine url number is_ip config hop u (net.transport hop r))) [
                | inl (out, b) ↦ rw (a, b, hops) (omega arith)
                | inr (v, b) ↦
                    rw (a, b, hops) (omega (arith, length-hops deadline left (hop + 1) v))
              ]
        ]

    -- A fetch ends after at most one request more than the redirects that are allowed, whatever the
    -- servers, the resolver and the clock answer.
    pub length-fetch_og_card :
        (start : ℕ) (raw_url : Text)
        → length (fetch_og_card url number is_ip config net start raw_url).requests
          ≤ config.max_redirects + 1
    unfolding fetch_og_card
    length-fetch_og_card start raw_url = elim (Option-cases (url.parse raw_url)) [
      | inl e ↦ rw (e, fetch_og_card) (omega arith)
      | inr (u, e) ↦
          rw (e, fetch_og_card)
            (length-hops (start + config.fetch_timeout_ms) (config.max_redirects + 1) 0 u)
    ]

receive-bounded :
    (cap total : ℕ) (chunks : List ℕ) (events : List StreamEvent) (bytes : List ℕ)
    → length chunks ≡ total
    → total ≤ cap
    → receive cap total chunks events ≡ some (ok bytes)
    → length bytes ≤ cap
unfolding receive
receive-bounded cap total chunks [] bytes l h e = cc
receive-bounded cap total chunks (broken ∷ events) bytes l h e = cc
receive-bounded cap total chunks (end_of_body ∷ events) bytes l h e =
    let p : chunks ≡ bytes =
      ok-injective chunks bytes (ok chunks) refl (some-injective (ok chunks) (ok bytes) e) in
    ground (arith, ap length p, l, h)
receive-bounded cap total chunks (chunk c ∷ events) bytes l h e =
    elim (Bool-cases (ltb cap (total + length c))) [
      | inl q ↦ cc (rw (q, receive) at e)
      | inr q ↦
          receive-bounded cap (total + length c) (chunks ++ c) events bytes
            (length-append chunks c ∙ ap (λ n. n + length c) l) (ground (arith, q))
            (rw (q, receive) at e)
    ]

with_body-bytes :
    (status : ℕ) (out : Option (Result LinkCardError (List ℕ))) (resp : HopResponse)
    (bytes : List ℕ)
    → with_body status out ≡ some (ok resp)
    → resp.body ≡ some bytes
    → out ≡ some (ok bytes)
with_body-bytes status none resp bytes h e = cc
with_body-bytes status (some (err x)) resp bytes h e = cc
with_body-bytes status (some (ok b)) resp bytes h e =
    let q = some-injective _ (ok resp) h in
    let p = ok-injective _ resp _ refl q in
    ap (λ x. some (ok x)) (some-injective b bytes (ap (λ r. r.body) p ∙ e))

-- A body is handed on only with a status from 200 to 299 and an HTML content type, and it is never
-- longer than the cap, however the server cuts it into chunks.
pub respond-bounded :
    (cap status : ℕ) (location : Option Text) (content_type : Text) (events : List StreamEvent)
    (resp : HopResponse) (bytes : List ℕ)
    → respond cap status location content_type events ≡ some (ok resp)
    → resp.body ≡ some bytes
    → (200 ≤ status) × (status < 300) × (is_html content_type ≡ true) × (length bytes ≤ cap)
unfolding respond
respond-bounded cap status location content_type events resp bytes h e =
    elim (Bool-cases (leb 300 status && ltb status 400)) [
      | inl a ↦
          let p = ok-injective _ resp _ refl (some-injective _ (ok resp) (rw (a, respond) at h)) in
          let q = ap (λ r. r.body) p ∙ e in cc
      | inr a ↦ elim (Bool-cases (ltb status 200 || leb 300 status)) [
        | inl b ↦
            let p =
              ok-injective _ resp _ refl (some-injective _ (ok resp) (rw (a, b, respond) at h)) in
            let q = ap (λ r. r.body) p ∙ e in cc
        | inr b ↦ elim (Bool-cases (is_html content_type)) [
          | inr c ↦ cc (rw (a, b, c, respond) at h)
          | inl c ↦ (
            ground (arith, b),
            ground (arith, b),
            c,
            receive-bounded cap 0 [] events bytes refl (omega arith) (
                with_body-bytes status (receive cap 0 [] events) resp bytes
                  (rw (a, b, c, respond) at h) e),
          )
        ]
      ]
    ]

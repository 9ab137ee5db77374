-- ===== src/Net/Fetch/Chain.antt =====
-- The redirects that src/util/ogFetch.ts follows.
use octo_docs_backend.Base.{
  ℕ, zero, suc, ◌+◌, ◌≤◌, ◌<◌, ◌≡◌, ◌≢◌, refl, sym, ap, ◌∙◌, ◌&&◌, ◌||◌, inl, inr, Option, some,
  List, [], ◌∷◌, Text, leb, ltb, ◌==◌, Result, ok, err, Result-cases, Option-cases, Bool-cases,
  ok-injective, arith,
}
use mathlib.Core.Path.{subst}
use octo_docs_backend.Net.Guard.{LinkCardError, resolve_and_validate}
use octo_docs_backend.Net.Fetch.{
  UrlClass, HopResponse, Config, Request, Net, assert_scheme_and_port, prepare, examine, redirect,
  Next, follow, stop, hops, fetch_og_card, location_of,
}
use octo_docs_backend.Net.Fetch.Laws.{Next-cases}

module _ {Url : Type 0} (url : UrlClass Url) (number : Text → Option ℕ) (is_ip : Text → ℕ)
    (config : Config) (net : Net Url) where
  -- The requests from a hop and a URL on, up to the URL whose 2xx response has the body: each
  -- response but the last is a redirect whose location leads to the next URL.
  pub data IsChain : ℕ → Url → List (Request Url) → Url → Option (List ℕ) → Type 0 where
    arrived :
        (hop : ℕ) (r : Request Url) (resp : HopResponse)
        → net.transport hop r ≡ ok resp
        → 200 ≤ resp.status
        → resp.status < 300
        → IsChain hop r.target (r ∷ []) r.target resp.body
    redirected :
        (hop : ℕ) (r : Request Url) (resp : HopResponse) (location : Text) (next : Url)
        (rs : List (Request Url)) (last : Url) (body : Option (List ℕ))
        → net.transport hop r ≡ ok resp
        → 300 ≤ resp.status
        → resp.status < 400
        → resp.location ≡ some location
        → url.resolve location r.target ≡ some next
        → IsChain (hop + 1) next rs last body
        → IsChain hop r.target (r ∷ rs) last body

  -- A response that lets the loop go on.
  record IsFollowed (u : Url) (out : Result LinkCardError HopResponse) (v : Url) : Type 0 where
    resp : HopResponse
    answered : out ≡ ok resp
    above : 300 ≤ resp.status
    below : resp.status < 400
    location : Text
    located : resp.location ≡ some location
    resolved : url.resolve location u ≡ some v

  -- A response that ends it well.
  record IsArrival (u : Url) (out : Result LinkCardError HopResponse) (w : Url)
      (body : Option (List ℕ)) : Type 0 where
    resp : HopResponse
    answered : out ≡ ok resp
    above : 200 ≤ resp.status
    below : resp.status < 300
    here : u ≡ w
    handed : resp.body ≡ body

  abbrev url_of : Url → Next url number is_ip config → Url
  url_of u (follow v) = v
  url_of u (stop out) = u

  abbrev end_of :
      Result LinkCardError (Url × Option (List ℕ))
      → Next url number is_ip config
      → Result LinkCardError (Url × Option (List ℕ))
  end_of d (follow v) = d
  end_of d (stop out) = out

  location_of-some :
      (resp : HopResponse) (location : Text)
      → location_of url number is_ip config resp ≡ some location
      → resp.location ≡ some location
  location_of-some resp location h = elim (Option-cases resp.location) [
    | inl e ↦ cc (rw (e) at h)
    | inr ([], e) ↦ cc (rw (e) at h)
    | inr (c ∷ s, e) ↦ e ∙ (rw (e) at h)
  ]

  redirect_follows :
      (hop : ℕ) (u v : Url) (resp : HopResponse)
      → redirect url number is_ip config hop u resp ≡ follow v
      → (location : Text) × (resp.location ≡ some location) × (url.resolve location u ≡ some v)
  unfolding redirect
  redirect_follows hop u v resp h = elim (Bool-cases (hop == config.max_redirects)) [
    | inl a ↦ cc (rw (a, redirect) at h)
    | inr a ↦ elim (Option-cases (location_of url number is_ip config resp)) [
      | inl b ↦ cc (rw (a, b, redirect) at h)
      | inr (location, b) ↦ elim (Option-cases (url.resolve location u)) [
        | inl c ↦ cc (rw (a, b, c, redirect) at h)
        | inr (w, c) ↦
            let q : w ≡ v = ap (url_of u) (rw (a, b, c, redirect) at h) in
            (location, location_of-some resp location b, c ∙ ap some q)
      ]
    ]
  ]

  redirect_ends :
      (hop : ℕ) (u w : Url) (resp : HopResponse) (body : Option (List ℕ))
      → redirect url number is_ip config hop u resp ≢ stop (ok (w, body))
  unfolding redirect
  redirect_ends hop u w resp body h = elim (Bool-cases (hop == config.max_redirects)) [
    | inl a ↦ cc (rw (a, redirect) at h)
    | inr a ↦ elim (Option-cases (location_of url number is_ip config resp)) [
      | inl b ↦ cc (rw (a, b, redirect) at h)
      | inr (location, b) ↦ elim (Option-cases (url.resolve location u)) [
        | inl c ↦ cc (rw (a, b, c, redirect) at h)
        | inr (v, c) ↦ cc (rw (a, b, c, redirect) at h)
      ]
    ]
  ]

  examine_follows :
      (hop : ℕ) (u v : Url) (out : Result LinkCardError HopResponse)
      → examine url number is_ip config hop u out ≡ follow v
      → IsFollowed u out v
  unfolding examine
  examine_follows hop u v (err e) h = cc
  examine_follows hop u v (ok resp) h =
      elim (Bool-cases (leb 300 resp.status && ltb resp.status 400)) [
        | inl a ↦
            let (location, located, resolved) =
              redirect_follows hop u v resp (rw (a, examine) at h) in
            record {
              resp = resp;
              answered = refl;
              above = ground (arith, a);
              below = ground (arith, a);
              location = location;
              located = located;
              resolved = resolved;
            }
        | inr a ↦ elim (Bool-cases (ltb resp.status 200 || leb 300 resp.status)) [
          | inl b ↦ cc (rw (a, b, examine) at h)
          | inr b ↦ cc (rw (a, b, examine) at h)
        ]
      ]

  examine_ends :
      (hop : ℕ) (u w : Url) (out : Result LinkCardError HopResponse) (body : Option (List ℕ))
      → examine url number is_ip config hop u out ≡ stop (ok (w, body))
      → IsArrival u out w body
  unfolding examine
  examine_ends hop u w (err e) body h = cc (ap (end_of (ok (w, body))) h)
  examine_ends hop u w (ok resp) body h =
      elim (Bool-cases (leb 300 resp.status && ltb resp.status 400)) [
        | inl a ↦ absurd (redirect_ends hop u w resp body (rw (a, examine) at h))
        | inr a ↦ elim (Bool-cases (ltb resp.status 200 || leb 300 resp.status)) [
          | inl b ↦ cc (ap (end_of (ok (w, body))) (rw (a, b, examine) at h))
          | inr b ↦
              let q =
                ok-injective (u, resp.body) (w, body) _ refl
                  (ap (end_of (ok (w, body))) (rw (a, b, examine) at h)) in
              record {
                resp = resp;
                answered = refl;
                above = ground (arith, b);
                below = ground (arith, b);
                here = ap (λ x. x.0) q;
                handed = ap (λ x. x.1) q;
              }
        ]
      ]

  prepare-target :
      (deadline hop : ℕ) (u : Url) (r : Request Url)
      → prepare url number is_ip config net deadline hop u ≡ ok r
      → r.target ≡ u
  unfolding prepare
  prepare-target deadline hop u r h =
      elim (Option-cases (assert_scheme_and_port url number is_ip config u)) [
        | inr (e, a) ↦ cc (rw (a, prepare) at h)
        | inl a ↦
            elim (Result-cases (resolve_and_validate is_ip (net.dns_lookup hop) (url.hostname u))) [
              | inl (e, b) ↦ cc (rw (a, b, prepare) at h)
              | inr (v, b) ↦ elim (Bool-cases (leb deadline (net.now hop))) [
                | inl c ↦ cc (rw (a, b, c, prepare) at h)
                | inr c ↦
                    sym (ap (λ x. x.target) (ok-injective _ r _ refl (rw (a, b, c, prepare) at h)))
              ]
            ]
      ]

  last_link :
      (hop : ℕ) (u w : Url) (r : Request Url) (body : Option (List ℕ))
      → r.target ≡ u
      → IsArrival u (net.transport hop r) w body
      → IsChain hop u (r ∷ []) w body
  last_link hop u w r body t k =
      subst (λ x. IsChain hop u (r ∷ []) x body) (t ∙ k.here)
        (subst (λ x. IsChain hop x (r ∷ []) r.target body) t
          (subst (IsChain hop r.target (r ∷ []) r.target) k.handed
            (arrived hop r k.resp k.answered k.above k.below)))

  more_links :
      (hop : ℕ) (u v w : Url) (r : Request Url) (rs : List (Request Url)) (body : Option (List ℕ))
      → r.target ≡ u
      → IsFollowed u (net.transport hop r) v
      → IsChain (hop + 1) v rs w body
      → IsChain hop u (r ∷ rs) w body
  more_links hop u v w r rs body t k c =
      subst (λ x. IsChain hop x (r ∷ rs) w body) t
        (redirected hop r k.resp k.location v rs w body k.answered k.above k.below k.located
          (subst (λ x. url.resolve k.location x ≡ some v) (sym t) k.resolved) c)

  hops-IsChain :
      (deadline left hop : ℕ) (u w : Url) (body : Option (List ℕ))
      → (hops url number is_ip config net deadline left hop u).result ≡ ok (w, body)
      → IsChain hop u (hops url number is_ip config net deadline left hop u).requests w body
  unfolding hops
  hops-IsChain deadline zero hop u w body h = cc
  hops-IsChain deadline (suc left) hop u w body h =
      elim (Result-cases (prepare url number is_ip config net deadline hop u)) [
        | inl (e, a) ↦ cc (rw (a, hops) at h)
        | inr (r, a) ↦
            let t = prepare-target deadline hop u r a in
            elim (Next-cases url number is_ip config
              (examine url number is_ip config hop u (net.transport hop r))) [
                | inl (out, b) ↦
                    let q : out ≡ ok (w, body) = rw (a, b, hops) at h in
                    let k = examine_ends hop u w (net.transport hop r) body (b ∙ ap stop q) in
                    rw (a, b, hops) (last_link hop u w r body t k)
                | inr (v, b) ↦
                    let k = examine_follows hop u v (net.transport hop r) b in
                    let q = rw (a, b, hops) at h in
                    let c = hops-IsChain deadline left (hop + 1) v w body q in
                    rw (a, b, hops) (more_links hop u v w r _ body t k c)
              ]
      ]

  -- When a fetch succeeds, its requests are a chain of redirects from the URL that was asked for,
  -- each leading where the one before it pointed, and what is handed to the parser is the last URL
  -- with the body of its 2xx response.
  pub fetch_og_card-IsChain :
      (start : ℕ) (raw_url : Text) (u w : Url) (body : Option (List ℕ))
      → url.parse raw_url ≡ some u
      → (fetch_og_card url number is_ip config net start raw_url).result ≡ ok (w, body)
      → IsChain 0 u (fetch_og_card url number is_ip config net start raw_url).requests w body
  unfolding fetch_og_card
  fetch_og_card-IsChain start raw_url u w body e h =
      rw (e, fetch_og_card)
        (hops-IsChain (start + config.fetch_timeout_ms) (config.max_redirects + 1) 0 u w body
          (rw (e, fetch_og_card) at h))

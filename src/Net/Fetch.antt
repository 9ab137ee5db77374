-- ===== src/Net/Fetch.antt =====
-- src/util/ogFetch.ts: the fetch of a link card, up to the HTML that `parseOgCard` is called with. The
-- URL class and `Number` of a text are parameters, and so are the network and the clock, which may
-- answer differently at each hop.
pub mod Laws
pub mod Chain
use octo_docs_backend.Base.{
  ℕ, zero, suc, ◌+◌, ◌-◌, Bool, true, false, not, ◌&&◌, ◌||◌, Option, none, some, List, [], ◌∷◌,
  ◌++◌, map, Text, codes, text_eq, trim, length, get_elem?, any, leb, ltb, ◌==◌, Result, ok, err,
  if◌then◌else◌,
}
use octo_docs_backend.Permission.Name.{split_on}
use octo_docs_backend.Net.Guard.{
  LinkCardError, url_invalid, scheme_not_allowed, ssrf_blocked, fetch_failed,
  unsupported_content_type, response_too_large, Validated, resolve_and_validate, lower,
}

-- The part of the URL class that the code uses; `none` where its constructor throws.
pub record UrlClass (Url : Type 0) : Type 0 where
  pub parse : Text → Option Url
  pub resolve : Text → Url → Option Url
  pub protocol : Url → Text
  pub hostname : Url → Text
  pub port : Url → Text

-- `HopResponse` without its headers.
pub record HopResponse : Type 0 where
  pub status : ℕ
  pub location : Option Text
  pub body : Option (List ℕ)

-- The settings of `config.og`.
pub record Config : Type 0 where
  pub fetch_timeout_ms : ℕ
  pub max_response_bytes : ℕ
  pub max_redirects : ℕ
  pub allowed_ports : Text

-- What happens to a response's stream: a chunk, its end, or an error or timeout.
pub data StreamEvent : Type 0 where
  chunk : List ℕ → StreamEvent
  end_of_body broken : StreamEvent

-- The listeners of a response, up to the event that settles it.
unfoldable pub receive : ℕ → ℕ → List ℕ → List StreamEvent → Option (Result LinkCardError (List ℕ))
receive cap total chunks [] = none
receive cap total chunks (chunk c ∷ events) =
    if ltb cap (total + length c)
    then some (err response_too_large)
    else receive cap (total + length c) (chunks ++ c) events
receive cap total chunks (end_of_body ∷ events) = some (ok chunks)
receive cap total chunks (broken ∷ events) = some (err fetch_failed)

-- `Array.isArray(...)`-free `content-type`: its media type in lower case.
abbrev pub first_part : List Text → Text
first_part [] = []
first_part (p ∷ parts) = p

unfoldable pub is_html : Text → Bool
unfolding split_on trim text_eq
is_html content_type =
    let ct = map lower (trim (first_part (split_on b';' content_type))) in
    text_eq ct (codes "text/html") || text_eq ct (codes "application/xhtml+xml")

abbrev pub with_body :
    ℕ → Option (Result LinkCardError (List ℕ)) → Option (Result LinkCardError HopResponse)
with_body status none = none
with_body status (some (err e)) = some (err e)
with_body status (some (ok bytes)) =
    some (ok (record { status = status; location = none; body = some bytes }))

-- The response callback of `httpTransport`; `none` while it is not settled.
unfoldable pub respond :
    ℕ → ℕ → Option Text → Text → List StreamEvent → Option (Result LinkCardError HopResponse)
unfolding receive is_html
respond cap status location content_type events =
    if leb 300 status && ltb status 400
    then some (ok (record { status = status; location = location; body = none }))
    else if ltb status 200 || leb 300 status
    then some (ok (record { status = status; location = none; body = none }))
    else if not (is_html content_type)
    then some (err unsupported_content_type)
    else with_body status (receive cap 0 [] events)

-- `staticLookup`: the address that every lookup of the socket is answered with, and its family.
unfoldable pub static_lookup : (Text → ℕ) → List Text → Option (Text × ℕ)
static_lookup is_ip ips = elim (get_elem? ips 0) [
  | none ↦ none
  | some ip ↦ some (ip, if is_ip ip == 0 then 4 else is_ip ip)
]

-- The positive integers among the numbers of a list.
unfoldable pub ports_of : (Text → Option ℕ) → List Text → List ℕ
unfolding trim
ports_of number [] = []
ports_of number (p ∷ ps) = elim (number (trim p)) [
  | none ↦ ports_of number ps
  | some n ↦ if ltb 0 n then n ∷ ports_of number ps else ports_of number ps
]

-- One call of the transport.
pub record Request (Url : Type 0) : Type 0 where
  pub target : Url
  pub validated_ips : List Text
  pub timeout_ms : ℕ

-- The network and the clock at each hop.
pub record Net (Url : Type 0) : Type 0 where
  pub now : ℕ → ℕ
  pub dns_lookup : ℕ → Text → Option (List Text)
  pub transport : ℕ → Request Url → Result LinkCardError HopResponse

-- The calls of the transport in order, and what the fetch ends with.
pub record Fetched (Url : Type 0) : Type 0 where
  pub requests : List (Request Url)
  pub result : Result LinkCardError (Url × Option (List ℕ))

module _ {Url : Type 0} (url : UrlClass Url) (number : Text → Option ℕ) (is_ip : Text → ℕ)
    (config : Config) where
  -- `allowedPorts`.
  unfoldable pub allowed_ports : List ℕ
  unfolding ports_of split_on
  allowed_ports = ports_of number (split_on b',' config.allowed_ports)

  abbrev pub is_https : Url → Bool
  is_https u = text_eq (url.protocol u) (codes "https:")

  -- `u.port ? Number(u.port) : u.protocol === 'https:' ? 443 : 80`.
  unfoldable pub port_of : Url → Option ℕ
  unfolding text_eq
  port_of u =
      if text_eq (url.port u) [] then some (if is_https u then 443 else 80) else number (url.port u)

  abbrev pub includes : List ℕ → Option ℕ → Bool
  includes ports none = false
  includes ports (some n) = any (λ p. p == n) ports

  -- `assertSchemeAndPort`; `none` where it does not throw.
  unfoldable pub assert_scheme_and_port : Url → Option LinkCardError
  unfolding port_of allowed_ports text_eq
  assert_scheme_and_port u =
      if not (text_eq (url.protocol u) (codes "http:")) && not (is_https u)
      then some scheme_not_allowed
      else if includes allowed_ports (port_of u)
      then none
      else some ssrf_blocked

  abbrev pub stopped : LinkCardError → Fetched Url
  stopped e = record { requests = []; result = err e }

  abbrev pub after : Request Url → Fetched Url → Fetched Url
  after r f = record { requests = r ∷ f.requests; result = f.result }

  -- `!resp.location`.
  abbrev pub location_of : HopResponse → Option Text
  location_of resp = elim resp.location [
    | none ↦ none
    | some [] ↦ none
    | some (c ∷ s) ↦ some (c ∷ s)
  ]

  -- What the loop does with a response: the next URL, or the end.
  pub data Next : Type 0 where
    follow : Url → Next
    stop : Result LinkCardError (Url × Option (List ℕ)) → Next

  -- A redirect, at a hop that may be the last.
  unfoldable pub redirect : ℕ → Url → HopResponse → Next
  redirect hop current resp =
      if hop == config.max_redirects then stop (err fetch_failed) else elim (location_of resp) [
        | none ↦ stop (err fetch_failed)
        | some location ↦ elim (url.resolve location current) [
          | none ↦ stop (err fetch_failed)
          | some u ↦ follow u
        ]
      ]

  -- The tests on a response.
  unfoldable pub examine : ℕ → Url → Result LinkCardError HopResponse → Next
  unfolding redirect
  examine hop current (err e) = stop (err e)
  examine hop current (ok resp) =
      if leb 300 resp.status && ltb resp.status 400
      then redirect hop current resp
      else if ltb resp.status 200 || leb 300 resp.status
      then stop (err fetch_failed)
      else stop (ok (current, resp.body))

  module _ (net : Net Url) (deadline : ℕ) where
    -- The request of a hop, or why there is none.
    unfoldable pub prepare : ℕ → Url → Result LinkCardError (Request Url)
    unfolding assert_scheme_and_port resolve_and_validate
    prepare hop current = elim (assert_scheme_and_port current) [
      | some e ↦ err e
      | none ↦ elim (resolve_and_validate is_ip (net.dns_lookup hop) (url.hostname current)) [
        | err e ↦ err e
        | ok v ↦
            if leb deadline (net.now hop)
            then err fetch_failed
            else ok (record {
              target = current;
              validated_ips = v.validated_ips;
              timeout_ms = deadline - net.now hop;
            })
      ]
    ]

    -- The loop, with the number of rounds that are left: `maxHops + 1 - hop`.
    unfoldable pub hops : ℕ → ℕ → Url → Fetched Url
    unfolding prepare examine
    hops zero hop current = stopped fetch_failed
    hops (suc left) hop current = elim (prepare hop current) [
      | err e ↦ stopped e
      | ok r ↦ elim (examine hop current (net.transport hop r)) [
        | stop out ↦ record { requests = r ∷ []; result = out }
        | follow u ↦ after r (hops left (hop + 1) u)
      ]
    ]

  -- `fetchOgCard` up to the parsing.
  unfoldable pub fetch_og_card : Net Url → ℕ → Text → Fetched Url
  unfolding hops
  fetch_og_card net start raw_url = elim (url.parse raw_url) [
    | none ↦ stopped url_invalid
    | some current ↦ hops net (start + config.fetch_timeout_ms) (config.max_redirects + 1) 0 current
  ]

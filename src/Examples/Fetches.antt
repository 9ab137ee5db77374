-- ===== src/Examples/Fetches.antt =====
-- A fetch of a link card that is redirected once. A URL is its number.
use octo_docs_backend.Base.{
  ℕ, ◌+◌, ◌≡◌, refl, ◌≤◌, ◌<◌, true, Option, none, some, [], ◌∷◌, Text, codes, text_eq, length, All,
  ok, ◌==◌, if◌then◌else◌, arith,
}
use octo_docs_backend.Net.Fetch.{
  UrlClass, Config, HopResponse, Net, chunk, end_of_body, respond, is_html, fetch_og_card,
}
use octo_docs_backend.Net.Fetch.Laws.{
  IsSafe, fetch_og_card-IsSafe, length-fetch_og_card, respond-bounded,
}
use octo_docs_backend.Net.Fetch.Chain.{IsChain, fetch_og_card-IsChain}

abbrev urls : UrlClass ℕ
urls = record {
  parse = λ t. some 1;
  resolve = λ t u. some 2;
  protocol = λ u. codes "https:";
  hostname = λ u. codes "example.org";
  port = λ u. [];
}

abbrev number : Text → Option ℕ
number t = if text_eq t (codes "443") then some 443 else none

abbrev is_ip : Text → ℕ
is_ip t = if text_eq t (codes "8.8.8.8") then 4 else 0

abbrev settings : Config
settings = record {
  fetch_timeout_ms = 5000;
  max_response_bytes = 10;
  max_redirects = 3;
  allowed_ports = codes "80,443";
}

abbrev moved : HopResponse
moved = record { status = 302; location = some (codes "/next"); body = none }

abbrev found : HopResponse
found = record { status = 200; location = none; body = some (codes "<p>") }

abbrev net : Net ℕ
net = record {
  now = λ hop. 1000 + hop;
  dns_lookup = λ hop host. some (codes "8.8.8.8" ∷ []);
  transport = λ hop r. ok (if hop == 0 then moved else found);
}

fetch_og_card-IsSafe_example :
    All
      (IsSafe urls number is_ip settings)
      (fetch_og_card urls number is_ip settings net 1000 (codes "x")).requests
fetch_og_card-IsSafe_example =
    fetch_og_card-IsSafe urls number is_ip settings net 1000 (λ k. omega arith) (codes "x")

length-fetch_og_card_example :
    length (fetch_og_card urls number is_ip settings net 1000 (codes "x")).requests ≤ 4
length-fetch_og_card_example = length-fetch_og_card urls number is_ip settings net 1000 (codes "x")

fetch_og_card-IsChain_example :
    IsChain urls number is_ip settings net 0 1
      (fetch_og_card urls number is_ip settings net 1000 (codes "x")).requests
      2
      (some (codes "<p>"))
unfolding fetch_og_card
fetch_og_card-IsChain_example =
    fetch_og_card-IsChain urls number is_ip settings net 1000 (codes "x") 1 2 (some (codes "<p>"))
      refl refl

respond-bounded_example :
    (200 ≤ 200)
    × (200 < 300)
    × (is_html (codes "text/HTML; charset=utf-8") ≡ true)
    × (length (codes "<p>") ≤ 10)
unfolding respond
respond-bounded_example =
    respond-bounded 10 200 none (codes "text/HTML; charset=utf-8")
      (chunk (codes "<p") ∷ chunk (codes ">") ∷ end_of_body ∷ []) found (codes "<p>") refl refl

-- ===== src/Examples/Guards.antt =====
-- Addresses, migrations and slots at concrete inputs.
use octo_docs_backend.Base.{
  ℕ, ◌≡◌, refl, Bool, true, false, Option, some, List, [], ◌∷◌, Text, codes, text_eq, ok, All,
  arith, if◌then◌else◌,
}
use octo_docs_backend.Net.Address.{is_blocked_ipv4}
use octo_docs_backend.Net.Address.Ranges.{IsPrivate, address, is_blocked_ipv4_iff}
use octo_docs_backend.Net.Guard.{Validated, resolve_and_validate}
use octo_docs_backend.Net.Guard.Laws.{IsOpen, IsResolved, resolve_and_validate-IsOpen}
use octo_docs_backend.Migrate.{MigrationFile, Database, run_migrations}
use octo_docs_backend.Migrate.Laws.{run_migrations_again}
use octo_docs_backend.Slots.{Config, idle, acquire_for, release_one, run}
use octo_docs_backend.Slots.Bounds.{IsBounded, idle-IsBounded, run-IsBounded}

is_blocked_ipv4_iff_example : IsPrivate (address 169 254 169 254)
unfolding is_blocked_ipv4
is_blocked_ipv4_iff_example =
    (is_blocked_ipv4_iff 169 254 169 254 (omega arith) (omega arith) (omega arith) (omega arith)).0
      refl

-- One address is known to be an IPv4 literal, and every name resolves to it.
abbrev is_ip : Text → ℕ
is_ip t = if text_eq t (codes "8.8.8.8") then 4 else 0

abbrev dns_lookup : Text → Option (List Text)
dns_lookup name = some (codes "8.8.8.8" ∷ [])

abbrev validated : Validated
validated = record { hostname = codes "example.org"; validated_ips = codes "8.8.8.8" ∷ [] }

resolve_and_validate-IsOpen_example :
    All (IsOpen is_ip) (codes "8.8.8.8" ∷ [])
    × IsResolved is_ip dns_lookup (codes "example.org") validated
unfolding resolve_and_validate text_eq
resolve_and_validate-IsOpen_example =
    resolve_and_validate-IsOpen is_ip dns_lookup (codes "example.org") validated refl

abbrev succeeds : Text → Bool
succeeds statement = true

abbrev empty : Database
empty = record { ledger = []; executed = []; locked = false }

abbrev files : List MigrationFile
files = record { filename = codes "001.sql"; checksum = codes "c1"; sql = codes "SELECT 1;" } ∷ []

run_migrations_again_example :
    let after = (run_migrations succeeds true empty files).0 in
    run_migrations succeeds true after files
    ≡ (after, ok (record { applied = []; skipped = codes "001.sql" ∷ [] }))
unfolding run_migrations
run_migrations_again_example =
    run_migrations_again succeeds empty files
      (record { applied = codes "001.sql" ∷ []; skipped = [] }) refl

abbrev one_slot : Config
one_slot = record { max_concurrent = 1; max_queue = 2 }

run-IsBounded_example :
    IsBounded one_slot (run one_slot idle (acquire_for 1 ∷ acquire_for 2 ∷ release_one ∷ []))
run-IsBounded_example =
    run-IsBounded one_slot idle (acquire_for 1 ∷ acquire_for 2 ∷ release_one ∷ []) (omega arith)
      (idle-IsBounded one_slot)

-- ===== src/Examples/Boards.antt =====
-- A text of a whiteboard whose frame is gone, and its repair.
use octo_docs_backend.Base.{
  ◌≡◌, refl, Bool, true, false, ℕ, Option, none, some, List, [], ◌∷◌, Text, codes, All, map,
}
use octo_docs_backend.Board.Fields.{
  Number, finite, Value, null, number, text, array, linked, Fields, get, set,
}
use octo_docs_backend.Board.Normalize.{NormalizeContext, deterministic_nonce, normalize_element}
use octo_docs_backend.Board.Normalize.Laws.{normalize_again}
use octo_docs_backend.Board.Normalize.Canonical.{IsCanonical, normalize-IsCanonical}
use octo_docs_backend.Board.Repair.Writes.{plan_repair-WritesWithin}
use octo_docs_backend.Board.Repair.Targets.{RefersOnly, IsTarget}
use octo_docs_backend.Board.Repair.{Board, FilePolicy, cold_start, deleted, plan_repair}
use octo_docs_backend.Board.Repair.Evidence.{IsDrop, InScope, plan_repair-DropsOnEvidence}

abbrev number_text : Number → Text
number_text n = codes "1"

abbrev is_order_key : Text → Bool
is_order_key t = true

abbrev context : NormalizeContext
context = record { element_ids = some (codes "a" ∷ codes "b" ∷ []); file_ids = none }

abbrev drawn : Fields
drawn =
    (codes "id", text (codes "a"))
    ∷ (codes "type", text (codes "text"))
    ∷ (codes "versionNonce", number (finite true 7 0))
    ∷ (codes "frameId", text (codes "gone"))
    ∷ (codes "boundElements", array (linked (codes "b") 1 ∷ linked (codes "gone") 2 ∷ []))
    ∷ []

abbrev repaired : Fields
repaired =
    (codes "id", text (codes "a"))
    ∷ (codes "type", text (codes "text"))
    ∷ (codes "versionNonce", number (finite true 7 0))
    ∷ (codes "frameId", null)
    ∷ (codes "boundElements", array (linked (codes "b") 1 ∷ []))
    ∷ (codes "version", number (finite false 1 0))
    ∷ []

drawn-repaired : normalize_element number_text is_order_key context (some drawn) ≡ some repaired
unfolding normalize_element octo_docs_backend.Board.Normalize.reference_field
    octo_docs_backend.Board.Normalize.bound_field octo_docs_backend.Board.Normalize.index_field
    octo_docs_backend.Board.Normalize.opacity_field
    octo_docs_backend.Board.Normalize.non_negative_field
    octo_docs_backend.Board.Normalize.finite_field octo_docs_backend.Board.Normalize.deleted_flag
    octo_docs_backend.Board.Normalize.nonce_field set octo_docs_backend.Board.Fields.delete
drawn-repaired = refl

normalize_again_example :
    normalize_element number_text is_order_key context (some repaired) ≡ some repaired
normalize_again_example =
    normalize_again number_text is_order_key context drawn repaired drawn-repaired

normalize-IsCanonical_example :
    IsCanonical number_text is_order_key (codes "a" ∷ codes "b" ∷ []) repaired
normalize-IsCanonical_example =
    normalize-IsCanonical number_text is_order_key context (codes "a" ∷ codes "b" ∷ []) drawn
      repaired refl drawn-repaired

-- The hash of FNV-1a, by its published value for this text.
deterministic_nonce_a : deterministic_nonce (codes "a") ≡ 0x640c292c
unfolding deterministic_nonce
deterministic_nonce_a = refl

-- A board whose image has lost its file.
abbrev generate_n_keys : Option Text → ℕ → List Text
generate_n_keys m n = codes "a0" ∷ codes "a1" ∷ []

abbrev image : Fields
image =
    (codes "id", text (codes "i"))
    ∷ (codes "type", text (codes "image"))
    ∷ (codes "fileId", text (codes "f"))
    ∷ []

abbrev board : Board
board = record {
  elements = (codes "a", drawn) ∷ (codes "i", image) ∷ (codes "z", []) ∷ [];
  file_ids = [];
}

abbrev lost_file : FilePolicy
lost_file = deleted (codes "f" ∷ [])

plan_of_deletion :
    (plan_repair number_text is_order_key generate_n_keys board none lost_file).drops
    ≡ codes "i" ∷ codes "z" ∷ []
unfolding plan_repair
plan_of_deletion = refl

plan_of_absence :
    (plan_repair number_text is_order_key generate_n_keys board none cold_start).drops
    ≡ codes "z" ∷ []
unfolding plan_repair
plan_of_absence = refl

plan_repair-DropsOnEvidence_example :
    All
      (λ id.
        IsDrop number_text is_order_key generate_n_keys board.elements [] lost_file id
        × InScope none id)
      (plan_repair number_text is_order_key generate_n_keys board none lost_file).drops
plan_repair-DropsOnEvidence_example =
    plan_repair-DropsOnEvidence number_text is_order_key generate_n_keys board none lost_file

plan_of_writes :
    map
      (λ w. w.0)
      (plan_repair number_text is_order_key generate_n_keys board none lost_file).writes
    ≡ codes "a" ∷ []
unfolding plan_repair octo_docs_backend.Board.Normalize.reference_field
    octo_docs_backend.Board.Normalize.bound_field octo_docs_backend.Board.Normalize.index_field
    octo_docs_backend.Board.Normalize.opacity_field
    octo_docs_backend.Board.Normalize.non_negative_field
    octo_docs_backend.Board.Normalize.finite_field octo_docs_backend.Board.Normalize.deleted_flag
    octo_docs_backend.Board.Normalize.nonce_field octo_docs_backend.Board.Fields.delete
plan_of_writes = refl

plan_repair-WritesWithin_example :
    All
      (λ w.
        InScope none w.0
        × RefersOnly
            (IsTarget number_text is_order_key generate_n_keys board.elements [] lost_file)
            w.1)
      (plan_repair number_text is_order_key generate_n_keys board none lost_file).writes
plan_repair-WritesWithin_example =
    plan_repair-WritesWithin number_text is_order_key generate_n_keys board none lost_file

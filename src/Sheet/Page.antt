-- ===== src/Sheet/Page.antt =====
-- src/api/services/sheetPagination.ts: `sortedCellKeys` and `paginateSheetCells`. The cell map is the
-- list of its entries, one for each key; the size of an entry in the body is a parameter.
pub mod Sorting
pub mod Walk
use octo_docs_backend.Base.{
  ℕ, ◌+◌, Bool, true, false, ◌&&◌, ◌||◌, Option, none, some, List, [], ◌∷◌, Text, ltb, leb, ◌==◌,
}
use octo_docs_backend.Sheet.Key.{Sign, less, equal, greater, compare_cell_keys}

pub record Cell {ℓ} (V : Type ℓ) : Type ℓ where
  pub key : Text
  pub value : V

-- `SheetCellsPage`.
pub record SheetCellsPage {ℓ} (V : Type ℓ) : Type ℓ where
  pub cells : List (Cell V)
  pub last_key : Option Text
  pub has_more : Bool

abbrev pub is_empty {ℓ} : {A : Type ℓ} → List A → Bool
is_empty [] = true
is_empty (x ∷ xs) = false

module _ {ℓ} {V : Type ℓ} (number : Text → Option ℕ) where
  unfoldable pub insert_cell : Cell V → List (Cell V) → List (Cell V)
  unfolding compare_cell_keys
  insert_cell c [] = c ∷ []
  insert_cell c (d ∷ cells) = elim (compare_cell_keys number c.key d.key) [
    | greater ↦ d ∷ insert_cell c cells
    | _ ↦ c ∷ d ∷ cells
  ]

  -- The entries in the order of `sortedCellKeys`.
  unfoldable pub sorted_cells : List (Cell V) → List (Cell V)
  unfolding insert_cell
  sorted_cells [] = []
  sorted_cells (c ∷ cells) = insert_cell c (sorted_cells cells)

  -- The loop that finds `start`: the entries from there on.
  unfoldable pub skip : Option Text → List (Cell V) → List (Cell V)
  unfolding compare_cell_keys
  skip none cells = cells
  skip (some k) [] = []
  skip (some k) (c ∷ cells) = elim (compare_cell_keys number c.key k) [
    | greater ↦ c ∷ cells
    | _ ↦ skip (some k) cells
  ]

module _ {ℓ} {V : Type ℓ} where
  abbrev pub last_key_of : List (Cell V) → Option Text
  last_key_of [] = none
  last_key_of (c ∷ []) = some c.key
  last_key_of (c ∷ d ∷ cells) = last_key_of (d ∷ cells)

module _ {ℓ} {V : Type ℓ} (entry_bytes : Cell V → ℕ) (limit max_bytes : ℕ) where
  -- The loop that fills the page, after `n` entries of `bytes` bytes: the entries emitted, and those
  -- that remain.
  unfoldable pub fill : ℕ → ℕ → List (Cell V) → List (Cell V) × List (Cell V)
  fill n bytes [] = ([], [])
  fill n bytes (c ∷ cells) =
      elim (ltb n limit && ((n == 0) || leb (bytes + entry_bytes c) max_bytes)) [
        | false ↦ ([], c ∷ cells)
        | true ↦ let r = fill (n + 1) (bytes + entry_bytes c) cells in (c ∷ r.0, r.1)
      ]

  -- `paginateSheetCells`.
  unfoldable pub paginate_sheet_cells :
      (Text → Option ℕ) → List (Cell V) → Option Text → SheetCellsPage V
  unfolding sorted_cells skip fill
  paginate_sheet_cells number cells after_key =
      let r = fill 0 0 (skip number after_key (sorted_cells number cells)) in
      record {
        cells = r.0;
        last_key = last_key_of r.0;
        has_more = elim (is_empty r.1) [ true ↦ false | false ↦ true ];
      }

-- ===== src/Sheet/Key.antt =====
-- src/api/services/sheetPagination.ts: cell keys and their order. The reading of a row or column as
-- an integer is a parameter, `none` where it is not one; a key of the sheet contract has digits only,
-- so that an integer is not negative.
pub mod Order
use octo_docs_backend.Base.{
  ℕ, Option, none, some, ◌>>=◌, List, [], ◌∷◌, Text, ltb, ◌==◌, if◌then◌else◌,
}

pub record CellKeyParts : Type 0 where
  pub sheet_id : Text
  pub row : ℕ
  pub col : ℕ

-- The sign of a comparison.
pub data Sign : Type 0 where
  less equal greater : Sign

-- The first comparison that is not 0.
unfoldable pub then_by : Sign → Sign → Sign
then_by equal s = s
then_by less s = less
then_by greater s = greater

unfoldable pub compare_numbers : ℕ → ℕ → Sign
compare_numbers a b = if ltb a b then less else if ltb b a then greater else equal

-- The order `<` of texts, on UTF-16 code units.
unfoldable pub compare_texts : Text → Text → Sign
unfolding then_by compare_numbers
compare_texts [] [] = equal
compare_texts [] (y ∷ t) = less
compare_texts (x ∷ s) [] = greater
compare_texts (x ∷ s) (y ∷ t) = then_by (compare_numbers x y) (compare_texts s t)

-- The texts before and behind the first `c`.
unfoldable pub cut : ℕ → Text → Option (Text × Text)
cut c [] = none
cut c (x ∷ s) = if x == c then some ([], s) else do (a, b) ← cut c s; some (x ∷ a, b)

-- The test `index <= 0`.
abbrev pub nonempty_head : Text × Text → Option (Text × Text)
nonempty_head ([], b) = none
nonempty_head (x ∷ a, b) = some (x ∷ a, b)

module _ (number : Text → Option ℕ) where
  -- `parseCellKey`.
  unfoldable pub parse_cell_key : Text → Option CellKeyParts
  unfolding cut
  parse_cell_key key = do
    (sheet_id, rc) ← cut b'!' key >>= nonempty_head
    (r, c) ← cut b':' rc >>= nonempty_head
    row ← number r
    col ← number c
    some (record { sheet_id = sheet_id; row = row; col = col })

  -- The comparisons of the parts.
  unfoldable pub compare_parts : Option CellKeyParts → Option CellKeyParts → Sign
  unfolding then_by compare_numbers compare_texts
  compare_parts none none = equal
  compare_parts none (some b) = greater
  compare_parts (some a) none = less
  compare_parts (some a) (some b) =
      then_by (compare_texts a.sheet_id b.sheet_id)
        (then_by (compare_numbers a.row b.row) (compare_numbers a.col b.col))

  -- `compareCellKeys`, with the comparison of the keys themselves last.
  unfoldable pub compare_cell_keys : Text → Text → Sign
  unfolding parse_cell_key compare_parts then_by compare_texts
  compare_cell_keys a b =
      then_by (compare_parts (parse_cell_key a) (parse_cell_key b)) (compare_texts a b)

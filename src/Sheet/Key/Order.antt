-- ===== src/Sheet/Key/Order.antt =====
-- `compareCellKeys` of src/api/services/sheetPagination.ts as an order.
use octo_docs_backend.Base.{ℕ, ◌≡◌, refl, ◌⊎◌, inl, inr, Option, none, some, [], ◌∷◌, Text, arith}
use octo_docs_backend.Sheet.Key.{
  CellKeyParts, Sign, less, equal, greater, then_by, compare_numbers, compare_texts, parse_cell_key,
  compare_parts, compare_cell_keys,
}

abbrev pub opposite : Sign → Sign
opposite less = greater
opposite equal = equal
opposite greater = less

-- A comparison that is a strict total order.
pub record IsStrictOrder {ℓ} {A : Type ℓ} (compare : A → A → Sign) : Type ℓ where
  pub flip : (a b : A) → compare b a ≡ opposite (compare a b)
  pub same : (a b : A) → compare a b ≡ equal → a ≡ b
  pub trans : (a b c : A) → compare a b ≡ less → compare b c ≡ less → compare a c ≡ less

-- How the signs of `a` to `b`, `b` to `c` and `a` to `c` go together.
abbrev Composes : Sign → Sign → Sign → Type 0
Composes x y z = (x ≡ equal → z ≡ y) × (y ≡ equal → z ≡ x) × (x ≡ less → y ≡ less → z ≡ less)

Composes-then_by :
    (x y z x' y' z' : Sign)
    → Composes x y z
    → Composes x' y' z'
    → Composes (then_by x x') (then_by y y') (then_by z z')
unfolding then_by
Composes-then_by less less z x' y' z' (e, f, g) k = rw (g refl refl) (λ p. cc, λ p. cc, λ p q. refl)
Composes-then_by less equal z x' y' z' (e, f, g) k = rw (f refl) (λ p. cc, λ p. refl, λ p q. refl)
Composes-then_by less greater z x' y' z' (e, f, g) k = (λ p. cc, λ p. cc, λ p q. cc)
Composes-then_by equal less z x' y' z' (e, f, g) k = rw (e refl) (λ p. refl, λ p. cc, λ p q. refl)
Composes-then_by equal equal z x' y' z' (e, f, g) k = rw (e refl) k
Composes-then_by equal greater z x' y' z' (e, f, g) k = rw (e refl) (λ p. refl, λ p. cc, λ p q. cc)
Composes-then_by greater less z x' y' z' (e, f, g) k = (λ p. cc, λ p. cc, λ p q. cc)
Composes-then_by greater equal z x' y' z' (e, f, g) k = rw (f refl) (λ p. cc, λ p. refl, λ p q. cc)
Composes-then_by greater greater z x' y' z' (e, f, g) k = (λ p. cc, λ p. cc, λ p q. cc)

numbers-Composes :
    (a b c : ℕ) → Composes (compare_numbers a b) (compare_numbers b c) (compare_numbers a c)
unfolding compare_numbers
numbers-Composes a b c = (λ p. ground arith, λ p. ground arith, λ p q. ground arith)

texts-Composes :
    (a b c : Text) → Composes (compare_texts a b) (compare_texts b c) (compare_texts a c)
unfolding compare_texts
texts-Composes [] [] c = (λ p. refl, λ p. p, λ p q. cc)
texts-Composes [] (y ∷ b) [] = (λ p. cc, λ p. cc, λ p q. cc)
texts-Composes [] (y ∷ b) (z ∷ c) = (λ p. cc, λ p. refl, λ p q. refl)
texts-Composes (x ∷ a) [] [] = (λ p. cc, λ p. refl, λ p q. cc)
texts-Composes (x ∷ a) [] (z ∷ c) = (λ p. cc, λ p. cc, λ p q. cc)
texts-Composes (x ∷ a) (y ∷ b) [] = (λ p. refl, λ p. cc, λ p q. cc)
texts-Composes (x ∷ a) (y ∷ b) (z ∷ c) =
    Composes-then_by (compare_numbers x y) (compare_numbers y z) (compare_numbers x z)
      (compare_texts a b) (compare_texts b c) (compare_texts a c) (numbers-Composes x y z)
      (texts-Composes a b c)

opposite-then_by : (x y : Sign) → opposite (then_by x y) ≡ then_by (opposite x) (opposite y)
unfolding then_by
opposite-then_by less y = refl
opposite-then_by equal y = refl
opposite-then_by greater y = refl

numbers_flip : (a b : ℕ) → compare_numbers b a ≡ opposite (compare_numbers a b)
unfolding compare_numbers
numbers_flip a b = ground arith

texts_flip : (a b : Text) → compare_texts b a ≡ opposite (compare_texts a b)
unfolding compare_texts
texts_flip [] [] = refl
texts_flip [] (y ∷ b) = refl
texts_flip (x ∷ a) [] = refl
texts_flip (x ∷ a) (y ∷ b) =
    rw
      (numbers_flip x y, texts_flip a b, opposite-then_by (compare_numbers x y) (compare_texts a b))
      refl

texts_same : (a b : Text) → compare_texts a b ≡ equal → a ≡ b
unfolding compare_texts then_by compare_numbers
texts_same [] [] h = refl
texts_same [] (y ∷ b) h = cc
texts_same (x ∷ a) [] h = cc
texts_same (x ∷ a) (y ∷ b) h = ground (arith, h, texts_same a b)

module _ (number : Text → Option ℕ) where
  parts-Composes :
      (a b c : Option CellKeyParts)
      → Composes (compare_parts number a b) (compare_parts number b c) (compare_parts number a c)
  unfolding compare_parts
  parts-Composes none none none = (λ p. refl, λ p. refl, λ p q. cc)
  parts-Composes none none (some c) = (λ p. refl, λ p. cc, λ p q. cc)
  parts-Composes none (some b) none = (λ p. cc, λ p. cc, λ p q. cc)
  parts-Composes none (some b) (some c) = (λ p. cc, λ p. refl, λ p q. cc)
  parts-Composes (some a) none none = (λ p. cc, λ p. refl, λ p q. refl)
  parts-Composes (some a) none (some c) = (λ p. cc, λ p. cc, λ p q. cc)
  parts-Composes (some a) (some b) none = (λ p. refl, λ p. cc, λ p q. refl)
  parts-Composes (some a) (some b) (some c) =
      Composes-then_by _ _ _ _ _ _ (texts-Composes a.sheet_id b.sheet_id c.sheet_id) (
        Composes-then_by _ _ _ _ _ _ (numbers-Composes a.row b.row c.row)
          (numbers-Composes a.col b.col c.col))

  parts_flip :
      (a b : Option CellKeyParts) → compare_parts number b a ≡ opposite (compare_parts number a b)
  unfolding compare_parts
  parts_flip none none = refl
  parts_flip none (some b) = refl
  parts_flip (some a) none = refl
  parts_flip (some a) (some b) =
      let inner = opposite-then_by (compare_numbers a.row b.row) (compare_numbers a.col b.col) in
      rw
        (
          texts_flip a.sheet_id b.sheet_id,
          numbers_flip a.row b.row,
          numbers_flip a.col b.col,
          opposite-then_by (compare_texts a.sheet_id b.sheet_id)
              (then_by (compare_numbers a.row b.row) (compare_numbers a.col b.col)),
          inner,
        )
        refl

  then_by-equal : (x y : Sign) → then_by x y ≡ equal → y ≡ equal
  unfolding then_by
  then_by-equal less y h = cc
  then_by-equal equal y h = h
  then_by-equal greater y h = cc

  -- The comparison of cell keys is a strict total order of the texts, whatever the reading of rows
  -- and columns: it is reversed when its arguments are, it is 0 only on equal keys, and it is
  -- transitive. Keys that differ by leading zeros alone are not confused.
  pub compare_cell_keys-IsStrictOrder : IsStrictOrder (compare_cell_keys number)
  unfolding compare_cell_keys
  compare_cell_keys-IsStrictOrder = record {
    flip = λ a b.
        rw
          (
            parts_flip (parse_cell_key number a) (parse_cell_key number b),
            texts_flip a b,
            opposite-then_by
                (compare_parts number (parse_cell_key number a) (parse_cell_key number b))
                (compare_texts a b),
          )
          refl;
    same = λ a b h. texts_same a b (then_by-equal _ _ h);
    trans = λ a b c h k.
        (Composes-then_by _ _ _ _ _ _
            (parts-Composes (parse_cell_key number a) (parse_cell_key number b)
              (parse_cell_key number c))
            (texts-Composes a b c)).2
          h k;
  }

pub Sign-cases : (s : Sign) → (s ≡ less) ⊎ (s ≡ equal) ⊎ (s ≡ greater)
Sign-cases less = inl refl
Sign-cases equal = inr (inl refl)
Sign-cases greater = inr (inr refl)

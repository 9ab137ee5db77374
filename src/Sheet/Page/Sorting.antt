-- ===== src/Sheet/Page/Sorting.antt =====
-- `sortedCellKeys` of src/api/services/sheetPagination.ts.
use mathlib.Core.List.{Permᴰ}
use octo_docs_backend.Base.{ℕ, ◌≡◌, ◌≢◌, inl, inr, refl, ap, sym, ◌∙◌, Option, List, [], ◌∷◌, Text}
use octo_docs_backend.Sheet.Key.{less, compare_cell_keys}
use octo_docs_backend.Sheet.Key.Order.{opposite, Sign-cases, compare_cell_keys-IsStrictOrder}
use octo_docs_backend.Sheet.Page.{Cell, insert_cell, sorted_cells}

module _ {ℓ} {V : Type ℓ} where
  -- No entry of the list has the key.
  abbrev pub IsFresh : Text → List (Cell V) → Type 0
  IsFresh k [] = Unit
  IsFresh k (c ∷ cells) = (c.key ≢ k) × IsFresh k cells

  -- A map has one entry for each key.
  abbrev pub IsMap : List (Cell V) → Type 0
  IsMap [] = Unit
  IsMap (c ∷ cells) = IsFresh c.key cells × IsMap cells

module _ {ℓ} {V : Type ℓ} (number : Text → Option ℕ) where
  abbrev pub IsAbove : Text → List (Cell V) → Type 0
  IsAbove k [] = Unit
  IsAbove k (c ∷ cells) = (compare_cell_keys number k c.key ≡ less) × IsAbove k cells

  -- Every key is strictly below those behind it.
  abbrev pub IsIncreasing : List (Cell V) → Type 0
  IsIncreasing [] = Unit
  IsIncreasing (c ∷ cells) = IsAbove c.key cells × IsIncreasing cells

  IsAbove-trans :
      (j k : Text) (cells : List (Cell V))
      → compare_cell_keys number j k ≡ less
      → IsAbove k cells
      → IsAbove j cells
  IsAbove-trans j k [] h _ = tt
  IsAbove-trans j k (c ∷ cells) h (a, rest) =
      ((compare_cell_keys-IsStrictOrder number).trans j k c.key h a, IsAbove-trans j k cells h rest)

  IsAbove-insert_cell :
      (k : Text) (c : Cell V) (cells : List (Cell V))
      → compare_cell_keys number k c.key ≡ less
      → IsAbove k cells
      → IsAbove k (insert_cell number c cells)
  unfolding insert_cell
  IsAbove-insert_cell k c [] h a = (h, tt)
  IsAbove-insert_cell k c (d ∷ cells) h (a, rest) =
      elim (Sign-cases (compare_cell_keys number c.key d.key)) [
        | inl e ↦ rw (e, insert_cell) (h, (a, rest))
        | inr (inl e) ↦ rw (e, insert_cell) (h, (a, rest))
        | inr (inr e) ↦ rw (e, insert_cell) (a, IsAbove-insert_cell k c cells h rest)
      ]

  IsFresh-insert_cell :
      (k : Text) (c : Cell V) (cells : List (Cell V))
      → c.key ≢ k
      → IsFresh k cells
      → IsFresh k (insert_cell number c cells)
  unfolding insert_cell
  IsFresh-insert_cell k c [] h f = (h, tt)
  IsFresh-insert_cell k c (d ∷ cells) h (f, rest) =
      elim (Sign-cases (compare_cell_keys number c.key d.key)) [
        | inl e ↦ rw (e, insert_cell) (h, (f, rest))
        | inr (inl e) ↦ rw (e, insert_cell) (h, (f, rest))
        | inr (inr e) ↦ rw (e, insert_cell) (f, IsFresh-insert_cell k c cells h rest)
      ]

  IsFresh-sorted_cells :
      (k : Text) (cells : List (Cell V)) → IsFresh k cells → IsFresh k (sorted_cells number cells)
  unfolding sorted_cells
  IsFresh-sorted_cells k [] f = tt
  IsFresh-sorted_cells k (c ∷ cells) (f, rest) =
      IsFresh-insert_cell k c (sorted_cells number cells) f (IsFresh-sorted_cells k cells rest)

  IsIncreasing-insert_cell :
      (c : Cell V) (cells : List (Cell V))
      → IsFresh c.key cells
      → IsIncreasing cells
      → IsIncreasing (insert_cell number c cells)
  unfolding insert_cell
  IsIncreasing-insert_cell c [] f inc = (tt, tt)
  IsIncreasing-insert_cell c (d ∷ cells) (f, fs) (above, inc) =
      let order = compare_cell_keys-IsStrictOrder number in
      elim (Sign-cases (compare_cell_keys number c.key d.key)) [
        | inl e ↦ rw (e, insert_cell) ((e, IsAbove-trans c.key d.key cells e above), (above, inc))
        | inr (inl e) ↦ absurd (f (sym (order.same c.key d.key e)))
        | inr (inr e) ↦
            rw (e, insert_cell)
              (
                IsAbove-insert_cell d.key c cells (order.flip c.key d.key ∙ ap opposite e) above,
                IsIncreasing-insert_cell c cells fs inc,
              )
      ]

  pub sorted_cells-IsIncreasing :
      (cells : List (Cell V)) → IsMap cells → IsIncreasing (sorted_cells number cells)
  unfolding sorted_cells
  sorted_cells-IsIncreasing [] m = tt
  sorted_cells-IsIncreasing (c ∷ cells) (f, m) =
      IsIncreasing-insert_cell c (sorted_cells number cells) (IsFresh-sorted_cells c.key cells f)
        (sorted_cells-IsIncreasing cells m)

  Permᴰ-refl : (cells : List (Cell V)) → Permᴰ cells cells
  Permᴰ-refl [] = Permᴰ.nil
  Permᴰ-refl (c ∷ cells) = Permᴰ.cons refl (Permᴰ-refl cells)

  insert_cell-Permᴰ :
      (c : Cell V) (cells : List (Cell V)) → Permᴰ (c ∷ cells) (insert_cell number c cells)
  unfolding insert_cell
  insert_cell-Permᴰ c [] = Permᴰ.cons refl Permᴰ.nil
  insert_cell-Permᴰ c (d ∷ cells) = elim (Sign-cases (compare_cell_keys number c.key d.key)) [
    | inl e ↦ rw (e, insert_cell) (Permᴰ-refl (c ∷ d ∷ cells))
    | inr (inl e) ↦ rw (e, insert_cell) (Permᴰ-refl (c ∷ d ∷ cells))
    | inr (inr e) ↦
        rw (e, insert_cell)
          (Permᴰ.trans (Permᴰ.swap refl refl) (Permᴰ.cons refl (insert_cell-Permᴰ c cells)))
  ]

  pub sorted_cells-Permᴰ : (cells : List (Cell V)) → Permᴰ cells (sorted_cells number cells)
  unfolding sorted_cells
  sorted_cells-Permᴰ [] = Permᴰ.nil
  sorted_cells-Permᴰ (c ∷ cells) =
      Permᴰ.trans (Permᴰ.cons refl (sorted_cells-Permᴰ cells))
        (insert_cell-Permᴰ c (sorted_cells number cells))

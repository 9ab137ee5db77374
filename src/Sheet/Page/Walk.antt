-- ===== src/Sheet/Page/Walk.antt =====
-- A client that follows the pages of src/api/services/sheetPagination.ts.
use mathlib.Core.Path.{subst}
use mathlib.Core.List.{append_assoc, Permᴰ}
use octo_docs_backend.Base.{
  ◌⊎◌, length-append, List-cases, ℕ, zero, suc, ◌+◌, ◌≤◌, ◌<◌, ◌≡◌, inl, inr, Bool-cases, ltb, leb,
  ◌==◌, ◌&&◌, ◌||◌, refl, ap, sym, ◌∙◌, true, false, Option, none, some, List, [], ◌∷◌, ◌++◌, Text,
  length, arith,
}
use octo_docs_backend.Sheet.Key.{less, equal, greater, compare_cell_keys}
use octo_docs_backend.Sheet.Key.Order.{opposite, Sign-cases, compare_cell_keys-IsStrictOrder}
use octo_docs_backend.Sheet.Page.{Cell, sorted_cells, skip, fill, last_key_of, paginate_sheet_cells}
use octo_docs_backend.Sheet.Page.Sorting.{
  IsMap, IsAbove, IsIncreasing, sorted_cells-IsIncreasing, sorted_cells-Permᴰ,
}

compare_self : (number : Text → Option ℕ) (k : Text) → compare_cell_keys number k k ≡ equal
compare_self number k =
    let law = (compare_cell_keys-IsStrictOrder number).flip k k in
    elim (Sign-cases (compare_cell_keys number k k)) [
      | inl e ↦ cc (rw (e) at law)
      | inr (inl e) ↦ e
      | inr (inr e) ↦ cc (rw (e) at law)
    ]

module _ {ℓ} {V : Type ℓ} (number : Text → Option ℕ) where
  skip_above :
      (k : Text) (cells : List (Cell V))
      → IsAbove number k cells
      → skip number (some k) cells ≡ cells
  unfolding skip
  skip_above k [] h = refl
  skip_above k (c ∷ cells) (h, hs) =
      let e : compare_cell_keys number c.key k ≡ greater =
        (compare_cell_keys-IsStrictOrder number).flip k c.key ∙ ap opposite h in
      rw (e, skip) refl

  above_at :
      (k : Text) (before : List (Cell V)) (c : Cell V) (behind : List (Cell V))
      → IsAbove number k (before ++ (c ∷ behind))
      → compare_cell_keys number k c.key ≡ less
  above_at k [] c behind (h, hs) = h
  above_at k (x ∷ before) c behind (h, hs) = above_at k before c behind hs

  -- Skipping to a key of an increasing list leaves what stands behind the key.
  skip_increasing :
      (before : List (Cell V)) (c : Cell V) (behind : List (Cell V))
      → IsIncreasing number (before ++ (c ∷ behind))
      → skip number (some c.key) (before ++ (c ∷ behind)) ≡ behind
  unfolding skip
  skip_increasing [] c behind (h, hs) =
      rw (compare_self number c.key, skip) (skip_above c.key behind h)
  skip_increasing (x ∷ before) c behind (h, hs) =
      rw (above_at x.key before c behind h, skip) (skip_increasing before c behind hs)

module _ {ℓ} {V : Type ℓ} (entry_bytes : Cell V → ℕ) (limit max_bytes : ℕ) where
  fill_append :
      (n bytes : ℕ) (cells : List (Cell V))
      → let r = fill entry_bytes limit max_bytes n bytes cells in r.0 ++ r.1 ≡ cells
  unfolding fill
  fill_append n bytes [] = refl
  fill_append n bytes (c ∷ cells) =
      elim (Bool-cases (ltb n limit && ((n == 0) || leb (bytes + entry_bytes c) max_bytes))) [
        | inl e ↦ rw (e, fill) (ap (λ r. c ∷ r) (fill_append (n + 1) (bytes + entry_bytes c) cells))
        | inr e ↦ rw (e, fill) refl
      ]

  -- With a limit, a page of a nonempty rest is not empty.
  fill_progress :
      (c : Cell V) (cells : List (Cell V))
      → 0 < limit
      → (page : List (Cell V)) × ((fill entry_bytes limit max_bytes 0 0 (c ∷ cells)).0 ≡ c ∷ page)
  unfolding fill
  fill_progress c cells h =
      let e : (ltb 0 limit && ((0 == 0) || leb (0 + entry_bytes c) max_bytes)) ≡ true =
        ground (arith, h) in
      ((fill entry_bytes limit max_bytes 1 (0 + entry_bytes c) cells).0, rw (e, fill) refl)

  ends_with_last :
      (c : Cell V) (page : List (Cell V))
      → (front : List (Cell V)) × (e : Cell V) × (c ∷ page ≡ front ++ (e ∷ []))
        × (last_key_of (c ∷ page) ≡ some e.key)
  ends_with_last c [] = ([], c, refl, refl)
  ends_with_last c (d ∷ page) =
      let (front, e, p, q) = ends_with_last d page in (c ∷ front, e, ap (λ r. c ∷ r) p, q)

  -- After a page the next one starts behind the last key that was emitted.
  skip_next :
      (number : Text → Option ℕ) (sorted before page behind : List (Cell V)) (c : Cell V)
      → IsIncreasing number sorted
      → sorted ≡ before ++ ((c ∷ page) ++ behind)
      → skip number (last_key_of (c ∷ page)) sorted ≡ behind
  skip_next number sorted before page behind c inc s =
      let (front, e, p, q) = ends_with_last c page in
      let split : sorted ≡ (before ++ front) ++ (e ∷ behind) =
        s
        ∙ ap (λ r. before ++ (r ++ behind)) p
        ∙ ap (λ r. before ++ r) (append_assoc front (e ∷ []) behind)
        ∙ sym (append_assoc before front (e ∷ behind)) in
      rw (q, split)
        (skip_increasing number (before ++ front) e behind (subst (IsIncreasing number) split inc))

  -- The bytes of the entries.
  abbrev pub total : List (Cell V) → ℕ
  total [] = 0
  total (c ∷ cells) = entry_bytes c + total cells

  -- What a client reads that follows `last_key` while `has_more` says so, for at most `fuel` pages.
  unfoldable pub walk : (Text → Option ℕ) → List (Cell V) → ℕ → Option Text → List (Cell V)
  walk number cells zero after_key = []
  walk number cells (suc fuel) after_key =
      let p = paginate_sheet_cells entry_bytes limit max_bytes number cells after_key in
      p.cells ++ elim (p.has_more) [ true ↦ walk number cells fuel p.last_key | false ↦ [] ]

  walk_rest :
      (number : Text → Option ℕ) (cells : List (Cell V)) (fuel : ℕ) (before rest : List (Cell V))
      (after_key : Option Text)
      → 0 < limit
      → IsMap cells
      → sorted_cells number cells ≡ before ++ rest
      → skip number after_key (sorted_cells number cells) ≡ rest
      → length rest ≤ fuel
      → walk number cells fuel after_key ≡ rest
  unfolding walk paginate_sheet_cells
  walk_rest number cells zero before [] after_key pos m s k enough = refl
  walk_rest number cells zero before (c ∷ rest) after_key pos m s k enough =
      absurd (omega (arith, enough))
  walk_rest number cells (suc fuel) before [] after_key pos m s k enough = rw (k, fill) refl
  walk_rest number cells (suc fuel) before (c ∷ rest) after_key pos m s k enough =
      let r = fill entry_bytes limit max_bytes 0 0 (c ∷ rest) in
      let joined = fill_append 0 0 (c ∷ rest) in
      let (page, shown) = fill_progress c rest pos in
      elim (List-cases r.1) [
        | inl e ↦ rw (k, e) (rw (e) at joined)
        | inr (d, ds, e) ↦
            let s' : sorted_cells number cells ≡ before ++ ((c ∷ page) ++ r.1) =
              s ∙ ap (λ x. before ++ x) (sym joined ∙ ap (λ x. x ++ r.1) shown) in
            let k' : skip number (last_key_of r.0) (sorted_cells number cells) ≡ r.1 = rw (shown) (
              skip_next number (sorted_cells number cells) before page r.1 c
                (sorted_cells-IsIncreasing number cells m) s') in
            let size : length (c ∷ page) + length r.1 ≡ length (c ∷ rest) =
              sym (length-append (c ∷ page) r.1)
              ∙ ap length (sym (ap (λ x. x ++ r.1) shown) ∙ joined) in
            let again : walk number cells fuel (last_key_of r.0) ≡ r.1 =
              walk_rest number cells fuel (before ++ (c ∷ page)) r.1 (last_key_of r.0) pos m
                (s' ∙ sym (append_assoc before (c ∷ page) r.1)) k' (omega (arith, size, enough)) in
            let last : (paginate_sheet_cells entry_bytes limit max_bytes number cells
                  after_key).last_key
                ≡ last_key_of r.0 =
              rw (k, paginate_sheet_cells) refl in
            rw (k, e, last, again) joined
      ]

  -- A client that reads page by page, with a limit of at least one cell and at least as many pages
  -- allowed as there are cells, reads the entries in the order of their keys, each exactly once, if
  -- the keys are distinct.
  pub walk_complete :
      (number : Text → Option ℕ) (cells : List (Cell V)) (fuel : ℕ)
      → 0 < limit
      → IsMap cells
      → length (sorted_cells number cells) ≤ fuel
      → (walk number cells fuel none ≡ sorted_cells number cells)
        × Permᴰ cells (walk number cells fuel none)
  walk_complete number cells fuel pos m enough =
      let all =
        walk_rest number cells fuel [] (sorted_cells number cells) none pos m refl
          (unfold skip in refl) enough in
      (all, subst (Permᴰ cells) (sym all) (sorted_cells-Permᴰ number cells))

  total_empty : (cells : List (Cell V)) → length cells ≡ 0 → total cells ≡ 0
  total_empty [] h = refl
  total_empty (c ∷ cells) h = absurd (omega (arith, h))

  fill_bounds :
      (n bytes : ℕ) (cells : List (Cell V))
      → let r = fill entry_bytes limit max_bytes n bytes cells in
        ((length r.0 ≡ 0) ⊎ (n + length r.0 ≤ limit))
        × ((length r.0 ≡ 0) ⊎ ((n ≡ 0) × (length r.0 ≡ 1)) ⊎ (bytes + total r.0 ≤ max_bytes))
  unfolding fill
  fill_bounds n bytes [] = ground arith
  fill_bounds n bytes (c ∷ cells) =
      let later = fill_bounds (n + 1) (bytes + entry_bytes c) cells in
      let none_left =
        total_empty (fill entry_bytes limit max_bytes (n + 1) (bytes + entry_bytes c) cells).0 in
      elim (Bool-cases (ltb n limit && ((n == 0) || leb (bytes + entry_bytes c) max_bytes))) [
        | inl e ↦ rw (e, fill) (ground (arith, e, later), ground (arith, e, later, none_left))
        | inr e ↦ rw (e, fill) (inl refl, inl refl)
      ]

  -- A page has at most `limit` cells, and its cells have at most `max_bytes` bytes unless it has a
  -- single cell.
  pub paginate_sheet_cells_bounds :
      (number : Text → Option ℕ) (cells : List (Cell V)) (after_key : Option Text)
      → let p = paginate_sheet_cells entry_bytes limit max_bytes number cells after_key in
        (length p.cells ≤ limit) × ((length p.cells ≡ 1) ⊎ (total p.cells ≤ max_bytes))
  unfolding paginate_sheet_cells
  paginate_sheet_cells_bounds number cells after_key =
      let b = fill_bounds 0 0 (skip number after_key (sorted_cells number cells)) in
      let none_left =
        total_empty
          (fill entry_bytes limit max_bytes 0 0
            (skip number after_key (sorted_cells number cells))).0 in
      (ground (arith, b), ground (arith, b, none_left))

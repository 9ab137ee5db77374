-- ===== src/Examples/Sheets.antt =====
-- Pages of a sheet with three cells, two of which differ by a leading zero alone.
use octo_docs_backend.Base.{
  ℕ, ◌≤◌, ◌≡◌, ◌⊎◌, Option, none, some, List, [], ◌∷◌, Text, codes, length, arith,
}
use mathlib.Core.List.{Permᴰ}
use octo_docs_backend.Net.Address.{number_from}
use octo_docs_backend.Sheet.Key.{compare_cell_keys}
use octo_docs_backend.Sheet.Key.Order.{IsStrictOrder, compare_cell_keys-IsStrictOrder}
use octo_docs_backend.Sheet.Page.{Cell, sorted_cells, paginate_sheet_cells}
use octo_docs_backend.Sheet.Page.Sorting.{IsMap}
use octo_docs_backend.Sheet.Page.Walk.{total, walk, walk_complete, paginate_sheet_cells_bounds}

abbrev number : Text → Option ℕ
number t = some (number_from 0 t)

abbrev sheet : List (Cell ℕ)
sheet =
    record { key = codes "a!10:0"; value = 1 }
    ∷ record { key = codes "a!0:0"; value = 2 }
    ∷ record { key = codes "a!00:0"; value = 3 }
    ∷ []

abbrev five_bytes : Cell ℕ → ℕ
five_bytes c = 5

sheet-IsMap : IsMap sheet
sheet-IsMap = (
  (λ e. ground (arith, e), (λ e. ground (arith, e), tt)),
  ((λ e. ground (arith, e), tt), (tt, tt)),
)

compare_cell_keys-IsStrictOrder_example : IsStrictOrder (compare_cell_keys number)
compare_cell_keys-IsStrictOrder_example = compare_cell_keys-IsStrictOrder number

walk_complete_example :
    (walk five_bytes 1 100 number sheet 3 none ≡ sorted_cells number sheet)
    × Permᴰ sheet (walk five_bytes 1 100 number sheet 3 none)
unfolding sorted_cells number_from
walk_complete_example =
    walk_complete five_bytes 1 100 number sheet 3 (omega arith) sheet-IsMap (omega arith)

paginate_sheet_cells_bounds_example :
    let p = paginate_sheet_cells five_bytes 2 100 number sheet none in
    (length p.cells ≤ 2) × ((length p.cells ≡ 1) ⊎ (total five_bytes 2 100 p.cells ≤ 100))
paginate_sheet_cells_bounds_example = paginate_sheet_cells_bounds five_bytes 2 100 number sheet none

-- ===== src/Board/Fields.antt =====
-- The plain objects that src/whiteboard/schema/normalize.ts reads and writes: the fields of an
-- element in their order, with values as far as the code tells them apart.
pub mod Steps
use octo_docs_backend.Base.{
  ℕ, ◌*◌, ◌^◌, ◌%◌, Bool, true, false, not, ◌&&◌, Option, none, some, List, [], ◌∷◌, Text, text_eq,
  leb, ltb, ◌==◌, if◌then◌else◌,
}

-- A double: a finite one is a sign, a numerator and the exponent of its denominator, a power of 2.
pub data Number : Type 0 where
  nan infinite : Number
  finite : Bool → ℕ → ℕ → Number

-- An entry of an array: an object whose `id` is a text, and whatever else.
pub data Item : Type 0 where
  linked : Text → ℕ → Item
  unlinked : ℕ → Item

pub data Value : Type 0 where
  null : Value
  flag : Bool → Value
  number : Number → Value
  text : Text → Value
  array : List Item → Value
  other : ℕ → Value

abbrev pub Fields : Type 0
Fields = List (Text × Value)

-- Reading a field, writing it in its place or at the end, and deleting it.
unfoldable pub get : Fields → Text → Option Value
unfolding text_eq
get [] k = none
get ((n, v) ∷ fields) k = if text_eq n k then some v else get fields k

unfoldable pub set : Text → Value → Fields → Fields
unfolding text_eq
set k v [] = (k, v) ∷ []
set k v ((n, w) ∷ fields) = if text_eq n k then (n, v) ∷ fields else (n, w) ∷ set k v fields

unfoldable pub delete : Text → Fields → Fields
unfolding text_eq
delete k [] = []
delete k ((n, w) ∷ fields) = if text_eq n k then delete k fields else (n, w) ∷ delete k fields

-- A field after a correction; `none` is a field that is missing.
abbrev pub put : Text → Option Value → Fields → Fields
put k none fields = delete k fields
put k (some v) fields = set k v fields

-- `Number.isInteger`, `Number.isFinite` and the comparisons with a natural number.
unfoldable pub is_integer : Number → Bool
is_integer (finite negative m e) = (m % (2 ^ e)) == 0
is_integer _ = false

unfoldable pub is_finite : Number → Bool
is_finite (finite negative m e) = true
is_finite _ = false

unfoldable pub at_least_one : Number → Bool
at_least_one (finite false m e) = leb (2 ^ e) m
at_least_one _ = false

abbrev pub whole : ℕ → Number
whole n = finite false n 0

-- `Math.max(0, n)` and `Math.min(n, o)` of a finite number.
unfoldable pub max_zero : Number → Number
max_zero (finite true m e) = whole 0
max_zero n = n

unfoldable pub min_with : ℕ → Number → Number
min_with n (finite false m e) = if ltb (n * 2 ^ e) m then whole n else finite false m e
min_with n o = o

-- ===== src/Board/Repair.antt =====
-- src/whiteboard/repair.ts: the plan of a repair, on a board read as a map from
-- ids to elements. The key generator of the fractional-indexing library is a parameter. The Yjs
-- document with its observers and client ids is left out.
pub mod Evidence
pub mod Targets
pub mod Writes
use octo_docs_backend.Base.{
  ℕ, ◌*◌, ◌^◌, Bool, true, false, not, ◌&&◌, ◌||◌, Option, none, some, List, [], ◌∷◌, ◌++◌, map,
  Text, codes, text_eq, all, length, ltb, ◌==◌, get_elem?, if◌then◌else◌,
}
use octo_docs_backend.BotUids.{sort, text_le}
use octo_docs_backend.Board.Fields.{
  Number, nan, infinite, finite, Item, linked, unlinked, Value, null, flag, number, text, array,
  other, Fields, get, set, delete,
}
use octo_docs_backend.Board.Normalize.{
  NormalizeContext, has, file_bearing_types, is_own, normalize_element,
}

-- The two maps of a document, read.
pub record Board : Type 0 where
  pub elements : List (Text × Fields)
  pub file_ids : List Text

-- `FilePolicy`.
pub data FilePolicy : Type 0 where
  cold_start no_files : FilePolicy
  deleted : List Text → FilePolicy

-- `RepairPlan`; its `fileGc` is always empty.
pub record RepairPlan : Type 0 where
  pub writes : List (Text × Fields)
  pub drops : List Text

-- `===` of two numbers, or both NaN.
unfoldable pub number_equals : Number → Number → Bool
number_equals nan nan = true
number_equals infinite infinite = true
number_equals (finite s m e) (finite t n f) =
    ((m == 0) && (n == 0)) || ((if s then t else not t) && ((m * 2 ^ f) == (n * 2 ^ e)))
number_equals _ _ = false

unfoldable pub items_equal : List Item → List Item → Bool
unfolding text_eq
items_equal [] [] = true
items_equal (linked a x ∷ xs) (linked b y ∷ ys) = text_eq a b && (x == y) && items_equal xs ys
items_equal (unlinked x ∷ xs) (unlinked y ∷ ys) = (x == y) && items_equal xs ys
items_equal _ _ = false

-- `fieldEquals`; an `other` value is known by its JSON text.
unfoldable pub field_equals : Value → Value → Bool
unfolding number_equals items_equal text_eq
field_equals null null = true
field_equals (flag true) (flag true) = true
field_equals (flag false) (flag false) = true
field_equals (number m) (number n) = number_equals m n
field_equals (text s) (text t) = text_eq s t
field_equals (array xs) (array ys) = items_equal xs ys
field_equals (other x) (other y) = x == y
field_equals _ _ = false

abbrev pub equals_found : Value → Option Value → Bool
equals_found v none = false
equals_found v (some w) = field_equals v w

-- `objectEquals`.
unfoldable pub fields_equal : Fields → Fields → Bool
unfolding field_equals get
fields_equal [] b = true
fields_equal ((k, v) ∷ a) b = equals_found v (get b k) && fields_equal a b

unfoldable pub object_equals : Fields → Fields → Bool
unfolding fields_equal
object_equals a b = (length a == length b) && fields_equal a b

-- `current.get(id)`.
unfoldable pub element_of : List (Text × Fields) → Text → Option Fields
unfolding text_eq
element_of [] id = none
element_of ((n, f) ∷ elements) id = if text_eq n id then some f else element_of elements id

-- A text field, and `has` of one.
abbrev pub text_of : Option Value → Option Text
text_of (some (text t)) = some t
text_of v = none

abbrev pub holds : List Text → Option Text → Bool
holds ids none = false
holds ids (some t) = has ids t

abbrev pub is_deleted : Option Value → Bool
is_deleted (some (flag true)) = true
is_deleted v = false

abbrev pub in_deleted : FilePolicy → Option Text → Bool
in_deleted (deleted files) fid = holds files fid
in_deleted policy fid = false

-- `dropAbsentImage` of an element.
unfoldable pub drop_absent_image : List Text → FilePolicy → Fields → Bool
unfolding has get
drop_absent_image file_ids policy el =
    let fid = text_of (get el (codes "fileId")) in
    holds file_bearing_types (text_of (get el (codes "type")))
    && not (holds file_ids fid)
    && in_deleted policy fid

-- Pass 1: what becomes of an element.
pub data Fate : Type 0 where
  dropped : Fate
  survives : Fields → Fate

-- The larger of `maxValidIndex` and an index.
abbrev pub larger : Option Text → Text → Option Text
larger none i = some i
larger (some m) i = if text_le i m then some m else some i

-- `indexFill`.
unfoldable pub fill_with : List Text → List Text → List (Text × Text)
fill_with [] keys = []
fill_with (id ∷ ids) [] = []
fill_with (id ∷ ids) (k ∷ keys) = (id, k) ∷ fill_with ids keys

unfoldable pub fill_of : List (Text × Text) → Text → Option Text
unfolding text_eq
fill_of [] id = none
fill_of ((n, k) ∷ fills) id = if text_eq n id then some k else fill_of fills id

-- `if (fill !== undefined) final.index = fill`.
abbrev pub filled : Option Text → Fields → Fields
filled none f = f
filled (some k) f = set (codes "index") (text k) f

abbrev pub differs : Option Fields → Fields → Bool
differs none final = true
differs (some f) final = not (object_equals f final)

-- `filter((id) => scope.has(id))`.
unfoldable pub in_scope : Option (List Text) → List Text → List Text
unfolding has
in_scope none ids = ids
in_scope (some scope) [] = []
in_scope (some scope) (id ∷ ids) =
    let rest = in_scope (some scope) ids in if has scope id then id ∷ rest else rest

module _ (number_text : Number → Text) (is_order_key : Text → Bool)
    (generate_n_keys : Option Text → ℕ → List Text) where
  -- `normalizeElement(el, {})`.
  abbrev pub plain : Fields → Option Fields
  plain f =
      normalize_element number_text is_order_key (record { element_ids = none; file_ids = none })
        (some f)

  unfoldable pub fate_of : List Text → FilePolicy → Fields → Fate
  unfolding drop_absent_image normalize_element
  fate_of file_ids policy f = elim (plain f) [
    | none ↦ dropped
    | some n ↦ elim (drop_absent_image file_ids policy f) [ true ↦ dropped | false ↦ survives n ]
  ]

  -- `survivors`, `referenceable` and `dropAll`.
  unfoldable pub survivors : List Text → FilePolicy → List (Text × Fields) → List Text
  unfolding fate_of
  survivors file_ids policy [] = []
  survivors file_ids policy ((id, f) ∷ elements) =
      let rest = survivors file_ids policy elements in
      elim (fate_of file_ids policy f) [ dropped ↦ rest | survives n ↦ id ∷ rest ]

  unfoldable pub referenceable : List Text → FilePolicy → List (Text × Fields) → List Text
  unfolding fate_of
  referenceable file_ids policy [] = []
  referenceable file_ids policy ((id, f) ∷ elements) =
      let rest = referenceable file_ids policy elements in
      elim (fate_of file_ids policy f) [
        | dropped ↦ rest
        | survives n ↦ if is_deleted (get n (codes "isDeleted")) then rest else id ∷ rest
      ]

  unfoldable pub drop_all : List Text → FilePolicy → List (Text × Fields) → List Text
  unfolding fate_of
  drop_all file_ids policy [] = []
  drop_all file_ids policy ((id, f) ∷ elements) =
      let rest = drop_all file_ids policy elements in
      elim (fate_of file_ids policy f) [ dropped ↦ id ∷ rest | survives n ↦ rest ]

  -- The index of an element in its plain form.
  abbrev pub index_of : Option Fields → Option Text
  index_of none = none
  index_of (some f) = elim (plain f) [ none ↦ none | some n ↦ text_of (get n (codes "index")) ]

  -- `maxValidIndex` and `indexless` over the sorted survivors.
  unfoldable pub max_valid_index : List (Text × Fields) → Option Text → List Text → Option Text
  unfolding element_of normalize_element text_le
  max_valid_index elements m [] = m
  max_valid_index elements m (id ∷ ids) = elim (index_of (element_of elements id)) [
    | none ↦ max_valid_index elements m ids
    | some i ↦ max_valid_index elements (larger m i) ids
  ]

  unfoldable pub indexless : List (Text × Fields) → List Text → List Text
  unfolding element_of normalize_element
  indexless elements [] = []
  indexless elements (id ∷ ids) =
      let rest = indexless elements ids in
      elim (index_of (element_of elements id)) [ none ↦ id ∷ rest | some i ↦ rest ]

  unfoldable pub index_fill : List (Text × Fields) → List Text → List (Text × Text)
  unfolding indexless max_valid_index fill_with
  index_fill elements sorted =
      let missing = indexless elements sorted in
      fill_with missing (generate_n_keys (max_valid_index elements none sorted) (length missing))

  -- The canonical form that a candidate converges to.
  unfoldable pub final_of : List Text → List (Text × Text) → Text → Fields → Option Fields
  unfolding normalize_element fill_of set
  final_of refs fills id f =
      elim (normalize_element number_text is_order_key
        (record { element_ids = some refs; file_ids = none }) (some f)) [
          | none ↦ none
          | some n ↦ some (filled (fill_of fills id) n)
        ]

  abbrev pub final_found : List Text → List (Text × Text) → Text → Option Fields → Option Fields
  final_found refs fills id none = none
  final_found refs fills id (some f) = final_of refs fills id f

  -- The loop over the sorted candidates.
  unfoldable pub writes_of :
      List (Text × Fields) → List Text → List (Text × Text) → List Text → List (Text × Fields)
  unfolding element_of final_of object_equals
  writes_of elements refs fills [] = []
  writes_of elements refs fills (id ∷ ids) =
      let rest = writes_of elements refs fills ids in
      let el = element_of elements id in
      elim (final_found refs fills id el) [
        | none ↦ rest
        | some final ↦ elim (differs el final) [ true ↦ (id, final) ∷ rest | false ↦ rest ]
      ]

  -- `planRepair`.
  unfoldable pub plan_repair : Board → Option (List Text) → FilePolicy → RepairPlan
  unfolding survivors referenceable drop_all index_fill writes_of in_scope sort
  plan_repair board scope policy =
      let alive = survivors board.file_ids policy board.elements in
      record {
        writes =
            writes_of board.elements (referenceable board.file_ids policy board.elements)
              (index_fill board.elements (sort alive)) (sort (in_scope scope alive));
        drops = sort (in_scope scope (drop_all board.file_ids policy board.elements));
      }

-- ===== src/Board/Normalize.antt =====
-- src/whiteboard/schema/normalize.ts and constants.ts: the canonical form of a whiteboard element.
-- The text of a number and the structural test of the fractional-indexing library are parameters.
pub mod Corrections
pub mod Laws
pub mod Canonical
use Prim.Native.Nat.{bit_xor}
use octo_docs_backend.Base.{
  ℕ, ◌+◌, ◌*◌, ◌^◌, ◌%◌, Bool, true, false, not, ◌&&◌, ◌||◌, Option, none, some, List, [], ◌∷◌,
  ◌++◌, Text, codes, text_eq, all, any, leb, ltb, ◌==◌, if◌then◌else◌,
}
use octo_docs_backend.Board.Fields.{
  Number, finite, Item, linked, unlinked, Value, null, flag, number, text, array, other, Fields,
  get, is_integer, is_finite, at_least_one, whole, max_zero, min_with,
}
use octo_docs_backend.Board.Fields.Steps.{Step, apply}

-- `Set.has` on a set of texts.
unfoldable pub has : List Text → Text → Bool
unfolding text_eq
has [] k = false
has (x ∷ xs) k = text_eq x k || has xs k

abbrev pub wb_element_types : List Text
wb_element_types =
    codes "rectangle"
    ∷ codes "ellipse"
    ∷ codes "diamond"
    ∷ codes "arrow"
    ∷ codes "line"
    ∷ codes "freedraw"
    ∷ codes "text"
    ∷ codes "image"
    ∷ codes "frame"
    ∷ codes "embeddable"
    ∷ []

abbrev pub file_bearing_types : List Text
file_bearing_types = codes "image" ∷ []

-- `NormalizeContext`.
pub record NormalizeContext : Type 0 where
  pub element_ids : Option (List Text)
  pub file_ids : Option (List Text)

-- One round of the hash. The sum of shifts is a product by the FNV prime modulo 2^32.
unfoldable pub hash_from : ℕ → Text → ℕ
hash_from h [] = h
hash_from h (c ∷ seed) =
    let x = bit_xor h c in
    hash_from ((x + (x * 2 + x * 16 + x * 128 + x * 256 + x * 16777216)) % 2 ^ 32) seed

-- `deterministicNonce`.
unfoldable pub deterministic_nonce : Text → ℕ
unfolding hash_from
deterministic_nonce seed = hash_from 0x811c9dc5 seed % 2 ^ 31

-- `coerceVersion`.
unfoldable pub coerce_version : Option Value → Number
unfolding is_integer at_least_one
coerce_version (some (number n)) = if is_integer n && at_least_one n then n else whole 1
coerce_version _ = whole 1

abbrev pub is_base62 : ℕ → Bool
is_base62 c = (leb b'0' c && leb c b'9') || (leb b'A' c && leb c b'Z') || (leb b'a' c && leb c b'z')

-- `hasReservedEntryKey`, on what the three keys hold.
abbrev pub is_own : Option Value → Bool
is_own none = false
is_own (some v) = true

unfoldable pub has_reserved_entry_key : Fields → Bool
unfolding get
has_reserved_entry_key f =
    is_own (get f (codes "__proto__"))
    || is_own (get f (codes "constructor"))
    || is_own (get f (codes "prototype"))

-- The correction of `isDeleted`.
unfoldable pub deleted_flag : Option Value → Option Value
deleted_flag none = none
deleted_flag (some (flag b)) = some (flag b)
deleted_flag (some v) = some (flag false)

-- `typeof out[f] === 'number' && Number.isFinite(out[f]) ? out[f] : fallback`.
unfoldable pub finite_or : ℕ → Value → Number
unfolding is_finite
finite_or d (number n) = if is_finite n then n else whole d
finite_or d v = whole d

-- The correction of a finite field, and of one that is not negative.
unfoldable pub finite_field : Option Value → Option Value
unfolding finite_or
finite_field none = none
finite_field (some v) = some (number (finite_or 0 v))

unfoldable pub non_negative_field : Option Value → Option Value
unfolding finite_or max_zero
non_negative_field none = none
non_negative_field (some v) = some (number (max_zero (finite_or 0 v)))

-- The correction of `opacity`.
unfoldable pub opacity_field : Option Value → Option Value
unfolding finite_or max_zero min_with
opacity_field none = none
opacity_field (some v) = some (number (min_with 100 (max_zero (finite_or 100 v))))

-- The filter on `boundElements`.
unfoldable pub bound_items : List Text → List Item → List Item
unfolding has
bound_items ids [] = []
bound_items ids (unlinked x ∷ items) = bound_items ids items
bound_items ids (linked id x ∷ items) =
    if has ids id then linked id x ∷ bound_items ids items else bound_items ids items

unfoldable pub bound_field : Option (List Text) → Option Value → Option Value
unfolding bound_items
bound_field (some ids) (some (array items)) = some (array (bound_items ids items))
bound_field _ v = v

-- The correction of `frameId` and `containerId`.
unfoldable pub reference_field : Option (List Text) → Option Value → Option Value
unfolding has
reference_field (some ids) (some (text id)) = if has ids id then some (text id) else some null
reference_field _ v = v

-- The test of `fileId`, for a file-bearing type and a context with files.
unfoldable pub has_file : Option (List Text) → Text → Option Value → Bool
unfolding has
has_file none type file = true
has_file (some ids) type (some (text id)) = not (has file_bearing_types type) || has ids id
has_file (some ids) type file = not (has file_bearing_types type)

-- The tests that drop an element, on what its fields hold; the id of one that is kept.
unfoldable pub checked :
    NormalizeContext → Option Value → Option Value → Bool → Option Value → Option Text
unfolding has has_file
checked ctx (some (text (c ∷ id))) (some (text type)) reserved file =
    if has wb_element_types type && not reserved && has_file ctx.file_ids type file
    then some (c ∷ id)
    else none
checked ctx id type reserved file = none

module _ (number_text : Number → Text) (is_order_key : Text → Bool) where
  -- `isValidIndex`.
  unfoldable pub is_valid_index : Option Value → Bool
  is_valid_index (some (text (c ∷ s))) = all is_base62 (c ∷ s) && is_order_key (c ∷ s)
  is_valid_index v = false

  unfoldable pub index_field : Option Value → Option Value
  unfolding is_valid_index
  index_field v = if is_valid_index v then v else none

  abbrev pub version_field : Option Value → Option Value
  version_field v = some (number (coerce_version v))

  -- The nonce of an id and a version, where the field holds no integer.
  unfoldable pub nonce_field : Text → Number → Option Value → Option Value
  unfolding is_integer deterministic_nonce
  nonce_field id version (some (number n)) =
      if is_integer n
      then some (number n)
      else some (number (whole (deterministic_nonce (id ++ (b':' ∷ number_text version)))))
  nonce_field id version v =
      some (number (whole (deterministic_nonce (id ++ (b':' ∷ number_text version)))))

  -- The corrections in their order.
  abbrev pub steps : Option (List Text) → Text → Number → List Step
  steps ids id version =
      record { key = codes "version"; change = version_field }
      ∷ record { key = codes "versionNonce"; change = nonce_field id version }
      ∷ record { key = codes "isDeleted"; change = deleted_flag }
      ∷ record { key = codes "x"; change = finite_field }
      ∷ record { key = codes "y"; change = finite_field }
      ∷ record { key = codes "width"; change = non_negative_field }
      ∷ record { key = codes "height"; change = non_negative_field }
      ∷ record { key = codes "angle"; change = finite_field }
      ∷ record { key = codes "strokeWidth"; change = non_negative_field }
      ∷ record { key = codes "fontSize"; change = non_negative_field }
      ∷ record { key = codes "opacity"; change = opacity_field }
      ∷ record { key = codes "index"; change = index_field }
      ∷ record { key = codes "boundElements"; change = bound_field ids }
      ∷ record { key = codes "frameId"; change = reference_field ids }
      ∷ record { key = codes "containerId"; change = reference_field ids }
      ∷ []

  abbrev pub check : NormalizeContext → Fields → Option Text
  check ctx src =
      checked ctx (get src (codes "id")) (get src (codes "type")) (has_reserved_entry_key src)
        (get src (codes "fileId"))

  -- `normalizeElement`; `none` is an element that is no object, or one that is dropped.
  unfoldable pub normalize_element : NormalizeContext → Option Fields → Option Fields
  unfolding apply get checked has_reserved_entry_key coerce_version
  normalize_element ctx none = none
  normalize_element ctx (some src) = elim (check ctx src) [
    | none ↦ none
    | some id ↦
        some (apply (steps ctx.element_ids id (coerce_version (get src (codes "version")))) src)
  ]

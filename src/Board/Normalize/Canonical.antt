-- ===== src/Board/Normalize/Canonical.antt =====
-- What src/whiteboard/schema/normalize.ts promises of an element that it keeps.
use mathlib.Core.Path.{subst}
use octo_docs_backend.Base.{
  ◌≡◌, sym, ap, ◌∙◌, Bool, true, ◌&&◌, inl, inr, Option, none, some, List, [], ◌∷◌, Text, codes,
  text_eq, All, Bool-cases, arith,
}
use octo_docs_backend.Board.Fields.{
  Number, Item, linked, unlinked, Value, null, flag, number, text, array, other, Fields, get,
  is_integer, at_least_one,
}
use octo_docs_backend.Board.Fields.Steps.{change_of}
use octo_docs_backend.Board.Normalize.{
  NormalizeContext, has, coerce_version, bound_items, bound_field, reference_field, is_valid_index,
  index_field, normalize_element,
}
use octo_docs_backend.Board.Normalize.Laws.{canonical, get-canonical, nonce_value, kept}

-- An entry that is bound to an element of the set.
abbrev pub IsBound : List Text → Item → Type 0
IsBound ids (linked id x) = has ids id ≡ true
IsBound ids (unlinked x) = ⊥

-- The array of a field, and the text of one.
abbrev pub items_of : Option Value → List Item
items_of (some (array items)) = items
items_of v = []

bound_items-AreBound :
    (ids : List Text) (items : List Item) → All (IsBound ids) (bound_items ids items)
unfolding bound_items
bound_items-AreBound ids [] = tt
bound_items-AreBound ids (unlinked x ∷ items) = bound_items-AreBound ids items
bound_items-AreBound ids (linked id x ∷ items) = elim (Bool-cases (has ids id)) [
  | inl e ↦ rw (e, bound_items) (e, bound_items-AreBound ids items)
  | inr e ↦ rw (e, bound_items) (bound_items-AreBound ids items)
]

bound_field-AreBound :
    (ids : List Text) (v : Option Value) → All (IsBound ids) (items_of (bound_field (some ids) v))
unfolding bound_field
bound_field-AreBound ids none = tt
bound_field-AreBound ids (some (array items)) = bound_items-AreBound ids items
bound_field-AreBound ids (some null) = tt
bound_field-AreBound ids (some (flag b)) = tt
bound_field-AreBound ids (some (number b)) = tt
bound_field-AreBound ids (some (text b)) = tt
bound_field-AreBound ids (some (other b)) = tt

-- A field that names an element names one of the set.
abbrev pub RefersTo : List Text → Option Value → Type 0
RefersTo ids (some (text id)) = has ids id ≡ true
RefersTo ids v = Unit

reference_field-RefersTo :
    (ids : List Text) (v : Option Value) → RefersTo ids (reference_field (some ids) v)
unfolding reference_field
reference_field-RefersTo ids none = tt
reference_field-RefersTo ids (some (text id)) = elim (Bool-cases (has ids id)) [
  | inl e ↦ rw (e, reference_field) e
  | inr e ↦ rw (e, reference_field) tt
]
reference_field-RefersTo ids (some null) = tt
reference_field-RefersTo ids (some (flag b)) = tt
reference_field-RefersTo ids (some (number b)) = tt
reference_field-RefersTo ids (some (array b)) = tt
reference_field-RefersTo ids (some (other b)) = tt

coerced :
    (v : Option Value)
    → (is_integer (coerce_version v) ≡ true) × (at_least_one (coerce_version v) ≡ true)
unfolding coerce_version is_integer at_least_one
coerced none = (ground arith, ground arith)
coerced (some (number n)) = elim (Bool-cases (is_integer n && at_least_one n)) [
  | inl e ↦ rw (e) (ground (arith, e), ground (arith, e))
  | inr e ↦ rw (e) (ground arith, ground arith)
]
coerced (some null) = (ground arith, ground arith)
coerced (some (flag b)) = (ground arith, ground arith)
coerced (some (text b)) = (ground arith, ground arith)
coerced (some (array b)) = (ground arith, ground arith)
coerced (some (other b)) = (ground arith, ground arith)

module _ (number_text : Number → Text) (is_order_key : Text → Bool) where
  -- A legal index, where there is one.
  abbrev pub IsIndex : Option Value → Type 0
  IsIndex none = Unit
  IsIndex (some v) = is_valid_index number_text is_order_key (some v) ≡ true

  index_field-IsIndex : (v : Option Value) → IsIndex (index_field number_text is_order_key v)
  unfolding index_field
  index_field-IsIndex none = unfold is_valid_index in tt
  index_field-IsIndex (some v) =
      elim (Bool-cases (is_valid_index number_text is_order_key (some v))) [
        | inl e ↦ rw (e, index_field) e
        | inr e ↦ rw (e, index_field) tt
      ]

  -- The fields of an element in canonical form.
  pub record IsCanonical (ids : List Text) (out : Fields) : Type 0 where
    pub version : Number
    pub has_version : get out (codes "version") ≡ some (number version)
    pub version_integer : is_integer version ≡ true
    pub version_positive : at_least_one version ≡ true
    pub nonce : Number
    pub has_nonce : get out (codes "versionNonce") ≡ some (number nonce)
    pub nonce_integer : is_integer nonce ≡ true
    pub legal_index : IsIndex (get out (codes "index"))
    pub frame : RefersTo ids (get out (codes "frameId"))
    pub container : RefersTo ids (get out (codes "containerId"))
    pub bound : All (IsBound ids) (items_of (get out (codes "boundElements")))

  canonical-IsCanonical :
      (ctx : NormalizeContext) (ids : List Text) (src : Fields) (id : Text)
      → ctx.element_ids ≡ some ids
      → IsCanonical ids (
          canonical number_text is_order_key ctx src id
            (coerce_version (get src (codes "version"))))
  unfolding change_of text_eq
  canonical-IsCanonical ctx ids src id h =
      let v = coerce_version (get src (codes "version")) in
      let at = get-canonical number_text is_order_key ctx src id v in
      let (n, e, i) = nonce_value number_text is_order_key id v (get src (codes "versionNonce")) in
      record {
        version = v;
        has_version = at (codes "version");
        version_integer = (coerced (get src (codes "version"))).0;
        version_positive = (coerced (get src (codes "version"))).1;
        nonce = n;
        has_nonce = at (codes "versionNonce") ∙ e;
        nonce_integer = i;
        legal_index =
            subst IsIndex (sym (at (codes "index")))
              (index_field-IsIndex (get src (codes "index")));
        frame =
            subst (RefersTo ids)
              (sym
                (at (codes "frameId") ∙ ap (λ o. reference_field o (get src (codes "frameId"))) h))
              (reference_field-RefersTo ids (get src (codes "frameId")));
        container =
            subst (RefersTo ids)
              (sym (
                at (codes "containerId")
                ∙ ap (λ o. reference_field o (get src (codes "containerId"))) h))
              (reference_field-RefersTo ids (get src (codes "containerId")));
        bound =
            subst (λ x. All (IsBound ids) (items_of x))
              (sym (
                at (codes "boundElements")
                ∙ ap (λ o. bound_field o (get src (codes "boundElements"))) h))
              (bound_field-AreBound ids (get src (codes "boundElements")));
      }

  -- An element that is kept, in a context that knows the ids of the elements, has an integer
  -- version of at least 1, an integer nonce, no illegal index, and its frame, its container and all
  -- its bound elements are among those ids.
  pub normalize-IsCanonical :
      (ctx : NormalizeContext) (ids : List Text) (src out : Fields)
      → ctx.element_ids ≡ some ids
      → normalize_element number_text is_order_key ctx (some src) ≡ some out
      → IsCanonical ids out
  normalize-IsCanonical ctx ids src out h n =
      let (id, _, p) = kept number_text is_order_key ctx src out n in
      subst (IsCanonical ids) p (canonical-IsCanonical ctx ids src id h)

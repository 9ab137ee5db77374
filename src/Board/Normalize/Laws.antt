-- ===== src/Board/Normalize/Laws.antt =====
-- The canonical form of src/whiteboard/schema/normalize.ts.
use mathlib.Core.Path.{subst}
use mathlib.Core.Option.{some-injective}
use octo_docs_backend.Base.{
  ℕ, ◌≡◌, refl, sym, ap, ◌∙◌, Bool, true, ◌||◌, inl, inr, Option, none, some, List, Text, codes,
  text_eq, All, Option-cases, Bool-cases, arith,
}
use octo_docs_backend.Board.Fields.{
  Number, Value, null, flag, number, text, array, other, Fields, get, is_integer, whole,
}
use octo_docs_backend.Board.Fields.Steps.{
  apply, are_distinct, change_of, get-apply, apply_same, corrected,
}
use octo_docs_backend.Board.Normalize.{
  NormalizeContext, coerce_version, is_valid_index, index_field, nonce_field, steps, check, checked,
  has_reserved_entry_key, is_own, normalize_element,
}
use octo_docs_backend.Board.Normalize.Corrections.{
  IsIdempotent, coerce_version-IsIdempotent, deleted_flag-IsIdempotent, finite_field-IsIdempotent,
  non_negative_field-IsIdempotent, opacity_field-IsIdempotent, bound_field-IsIdempotent,
  reference_field-IsIdempotent,
}

module _ (number_text : Number → Text) (is_order_key : Text → Bool) where
  index_field-IsIdempotent : IsIdempotent (index_field number_text is_order_key)
  unfolding index_field
  index_field-IsIdempotent v = elim (Bool-cases (is_valid_index number_text is_order_key v)) [
    | inl e ↦ rw (e, index_field) (rw (e, index_field) refl)
    | inr e ↦ rw (e, index_field) (unfold is_valid_index in refl)
  ]

  nonce_again :
      (id : Text) (version n : Number)
      → is_integer n ≡ true
      → nonce_field number_text is_order_key id version (some (number n)) ≡ some (number n)
  unfolding nonce_field
  nonce_again id version n h = rw (h, nonce_field) refl

  whole-is_integer : (n : ℕ) → is_integer (whole n) ≡ true
  unfolding is_integer
  whole-is_integer n = ground arith

  -- The nonce is an integer.
  pub nonce_value :
      (id : Text) (version : Number) (v : Option Value)
      → (n : Number) × (nonce_field number_text is_order_key id version v ≡ some (number n))
        × (is_integer n ≡ true)
  unfolding nonce_field
  nonce_value id version none = (_, refl, whole-is_integer _)
  nonce_value id version (some null) = (_, refl, whole-is_integer _)
  nonce_value id version (some (flag b)) = (_, refl, whole-is_integer _)
  nonce_value id version (some (text b)) = (_, refl, whole-is_integer _)
  nonce_value id version (some (array b)) = (_, refl, whole-is_integer _)
  nonce_value id version (some (other b)) = (_, refl, whole-is_integer _)
  nonce_value id version (some (number n)) = elim (Bool-cases (is_integer n)) [
    | inl e ↦ rw (e, nonce_field) (n, refl, e)
    | inr e ↦ rw (e, nonce_field) (_, refl, whole-is_integer _)
  ]

  nonce_field-IsIdempotent :
      (id : Text) (version : Number)
      → IsIdempotent (nonce_field number_text is_order_key id version)
  nonce_field-IsIdempotent id version v =
      let (n, e, h) = nonce_value id version v in
      ap (nonce_field number_text is_order_key id version) e ∙ nonce_again id version n h ∙ sym e

  steps-are_distinct :
      (ids : Option (List Text)) (id : Text) (version : Number)
      → are_distinct (steps number_text is_order_key ids id version) ≡ true
  unfolding are_distinct text_eq
  steps-are_distinct ids id version = refl

  steps-AreIdempotent :
      (ids : Option (List Text)) (id : Text) (version : Number)
      → All
          (λ s. (v : Option Value) → s.change (s.change v) ≡ s.change v)
          (steps number_text is_order_key ids id version)
  steps-AreIdempotent ids id version = (
    λ v. ap (λ n. some (number n)) (coerce_version-IsIdempotent v),
    (
      nonce_field-IsIdempotent id version,
      (
        deleted_flag-IsIdempotent,
        (
          finite_field-IsIdempotent,
          (
            finite_field-IsIdempotent,
            (
              non_negative_field-IsIdempotent,
              (
                non_negative_field-IsIdempotent,
                (
                  finite_field-IsIdempotent,
                  (
                    non_negative_field-IsIdempotent,
                    (
                      non_negative_field-IsIdempotent,
                      (
                        opacity_field-IsIdempotent,
                        (
                          index_field-IsIdempotent,
                          (
                            bound_field-IsIdempotent ids,
                            (
                              reference_field-IsIdempotent ids,
                              (reference_field-IsIdempotent ids, tt),
                            ),
                          ),
                        ),
                      ),
                    ),
                  ),
                ),
              ),
            ),
          ),
        ),
      ),
    ),
  )

  module _ (ctx : NormalizeContext) (src : Fields) (id : Text) (version : Number) where
    abbrev pub canonical : Fields
    canonical = apply (steps number_text is_order_key ctx.element_ids id version) src

    -- A field after the normalisation: its correction of what it was.
    pub get-canonical :
        (k : Text)
        → get canonical k
          ≡ change_of (steps number_text is_order_key ctx.element_ids id version) k (get src k)
    get-canonical k =
        get-apply (steps number_text is_order_key ctx.element_ids id version) src k
          (steps-are_distinct ctx.element_ids id version)

    same_id : get canonical (codes "id") ≡ get src (codes "id")
    unfolding change_of text_eq
    same_id = get-canonical (codes "id")

    same_type : get canonical (codes "type") ≡ get src (codes "type")
    unfolding change_of text_eq
    same_type = get-canonical (codes "type")

    same_file : get canonical (codes "fileId") ≡ get src (codes "fileId")
    unfolding change_of text_eq
    same_file = get-canonical (codes "fileId")

    same_reserved : has_reserved_entry_key canonical ≡ has_reserved_entry_key src
    unfolding change_of text_eq has_reserved_entry_key
    same_reserved = λ i.
        is_own (get-canonical (codes "__proto__") i)
        || is_own (get-canonical (codes "constructor") i)
        || is_own (get-canonical (codes "prototype") i)

    -- What the tests on an element look at stays.
    check_again :
        check number_text is_order_key ctx canonical ≡ check number_text is_order_key ctx src
    check_again = λ i. checked ctx (same_id i) (same_type i) (same_reserved i) (same_file i)

    version_again :
        version ≡ coerce_version (get src (codes "version"))
        → coerce_version (get canonical (codes "version")) ≡ version
    unfolding change_of text_eq
    version_again h =
        ap coerce_version (get-canonical (codes "version"))
        ∙ coerce_version-IsIdempotent (get src (codes "version"))
        ∙ sym h

    steps_again :
        apply (steps number_text is_order_key ctx.element_ids id version) canonical ≡ canonical
    steps_again = apply_same (steps number_text is_order_key ctx.element_ids id version) canonical (
        corrected (steps number_text is_order_key ctx.element_ids id version) src
          (steps-are_distinct ctx.element_ids id version)
          (steps-AreIdempotent ctx.element_ids id version))

  normalized :
      (ctx : NormalizeContext) (f : Fields) (id : Text) (version : Number)
      → check number_text is_order_key ctx f ≡ some id
      → coerce_version (get f (codes "version")) ≡ version
      → normalize_element number_text is_order_key ctx (some f)
        ≡ some (apply (steps number_text is_order_key ctx.element_ids id version) f)
  unfolding normalize_element
  normalized ctx f id version h v =
      rw (h, normalize_element)
        (ap (λ n. some (apply (steps number_text is_order_key ctx.element_ids id n) f)) v)

  -- An element that is kept, and what becomes of it.
  pub kept :
      (ctx : NormalizeContext) (src out : Fields)
      → normalize_element number_text is_order_key ctx (some src) ≡ some out
      → (id : Text) × (check number_text is_order_key ctx src ≡ some id)
        × (canonical ctx src id (coerce_version (get src (codes "version"))) ≡ out)
  unfolding normalize_element
  kept ctx src out h = elim (Option-cases (check number_text is_order_key ctx src)) [
    | inl e ↦ cc (rw (e, normalize_element) at h)
    | inr (id, e) ↦ (id, e, some-injective _ out (rw (e, normalize_element) at h))
  ]

  -- An element that the normalisation makes is normalised to itself: a second pass, with the same
  -- ids at hand, changes nothing.
  pub normalize_again :
      (ctx : NormalizeContext) (src out : Fields)
      → normalize_element number_text is_order_key ctx (some src) ≡ some out
      → normalize_element number_text is_order_key ctx (some out) ≡ some out
  normalize_again ctx src out h =
      let (id, e, p) = kept ctx src out h in
      let version = coerce_version (get src (codes "version")) in
      subst (λ f. normalize_element number_text is_order_key ctx (some f) ≡ some f) p
        (normalized ctx (canonical ctx src id version) id version
            (check_again ctx src id version ∙ e) (version_again ctx src id version refl)
          ∙ ap some (steps_again ctx src id version))

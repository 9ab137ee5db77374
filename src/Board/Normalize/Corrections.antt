-- ===== src/Board/Normalize/Corrections.antt =====
-- The corrections of single fields in src/whiteboard/schema/normalize.ts, made twice.
use octo_docs_backend.Base.{
  ℕ, ◌≡◌, refl, ap, ◌∙◌, true, false, inl, inr, Option, none, some, List, [], ◌∷◌, Text, Bool-cases,
  arith,
}
use octo_docs_backend.Board.Fields.{
  Number, nan, infinite, finite, Item, linked, unlinked, Value, null, flag, number, text, array,
  other, is_finite, max_zero, min_with,
}
use octo_docs_backend.Board.Normalize.{
  has, coerce_version, deleted_flag, finite_or, finite_field, non_negative_field, opacity_field,
  bound_items, bound_field, reference_field,
}

abbrev pub IsIdempotent : (Option Value → Option Value) → Type 0
IsIdempotent f = (v : Option Value) → f (f v) ≡ f v

pub coerce_version-IsIdempotent :
    (v : Option Value) → coerce_version (some (number (coerce_version v))) ≡ coerce_version v
unfolding coerce_version
coerce_version-IsIdempotent none = refl
coerce_version-IsIdempotent (some (number n)) = ground arith
coerce_version-IsIdempotent (some null) = refl
coerce_version-IsIdempotent (some (flag b)) = refl
coerce_version-IsIdempotent (some (text t)) = refl
coerce_version-IsIdempotent (some (array t)) = refl
coerce_version-IsIdempotent (some (other t)) = refl

pub deleted_flag-IsIdempotent : IsIdempotent deleted_flag
unfolding deleted_flag
deleted_flag-IsIdempotent none = refl
deleted_flag-IsIdempotent (some null) = refl
deleted_flag-IsIdempotent (some (flag b)) = refl
deleted_flag-IsIdempotent (some (number n)) = refl
deleted_flag-IsIdempotent (some (text n)) = refl
deleted_flag-IsIdempotent (some (array n)) = refl
deleted_flag-IsIdempotent (some (other n)) = refl

finite_or-is_finite : (d : ℕ) (v : Value) → is_finite (finite_or d v) ≡ true
unfolding finite_or is_finite
finite_or-is_finite d (number nan) = refl
finite_or-is_finite d (number infinite) = refl
finite_or-is_finite d (number (finite s m e)) = refl
finite_or-is_finite d null = refl
finite_or-is_finite d (flag b) = refl
finite_or-is_finite d (text t) = refl
finite_or-is_finite d (array t) = refl
finite_or-is_finite d (other t) = refl

finite_or_of_finite : (d : ℕ) (n : Number) → is_finite n ≡ true → finite_or d (number n) ≡ n
unfolding finite_or
finite_or_of_finite d n h = rw (h) refl

pub finite_field-IsIdempotent : IsIdempotent finite_field
unfolding finite_field
finite_field-IsIdempotent none = refl
finite_field-IsIdempotent (some v) =
    ap (λ n. some (number n)) (finite_or_of_finite 0 (finite_or 0 v) (finite_or-is_finite 0 v))

max_zero-is_finite : (n : Number) → is_finite n ≡ true → is_finite (max_zero n) ≡ true
unfolding max_zero is_finite
max_zero-is_finite nan h = h
max_zero-is_finite infinite h = h
max_zero-is_finite (finite true m e) h = refl
max_zero-is_finite (finite false m e) h = refl

max_zero-IsIdempotent : (n : Number) → max_zero (max_zero n) ≡ max_zero n
unfolding max_zero
max_zero-IsIdempotent nan = refl
max_zero-IsIdempotent infinite = refl
max_zero-IsIdempotent (finite true m e) = refl
max_zero-IsIdempotent (finite false m e) = refl

pub non_negative_field-IsIdempotent : IsIdempotent non_negative_field
unfolding non_negative_field
non_negative_field-IsIdempotent none = refl
non_negative_field-IsIdempotent (some v) =
    let n = finite_or 0 v in
    ap (λ x. some (number x))
      (ap max_zero
          (finite_or_of_finite 0 (max_zero n) (max_zero-is_finite n (finite_or-is_finite 0 v)))
        ∙ max_zero-IsIdempotent n)

-- The opacity of a finite number, corrected again.
opacity_again :
    (n : Number)
    → is_finite n ≡ true
    → let o = min_with 100 (max_zero n) in min_with 100 (max_zero (finite_or 100 (number o))) ≡ o
unfolding min_with max_zero finite_or is_finite
opacity_again nan h = cc
opacity_again infinite h = cc
opacity_again (finite true m e) h = ground arith
opacity_again (finite false m e) h = ground arith

pub opacity_field-IsIdempotent : IsIdempotent opacity_field
unfolding opacity_field
opacity_field-IsIdempotent none = refl
opacity_field-IsIdempotent (some v) =
    ap (λ x. some (number x)) (opacity_again (finite_or 100 v) (finite_or-is_finite 100 v))

bound_items-IsIdempotent :
    (ids : List Text) (items : List Item)
    → bound_items ids (bound_items ids items) ≡ bound_items ids items
unfolding bound_items
bound_items-IsIdempotent ids [] = refl
bound_items-IsIdempotent ids (unlinked x ∷ items) = bound_items-IsIdempotent ids items
bound_items-IsIdempotent ids (linked id x ∷ items) = elim (Bool-cases (has ids id)) [
  | inl e ↦
      rw (e, bound_items)
        (rw (e, bound_items) (ap (λ r. linked id x ∷ r) (bound_items-IsIdempotent ids items)))
  | inr e ↦ rw (e, bound_items) (bound_items-IsIdempotent ids items)
]

pub bound_field-IsIdempotent : (ids : Option (List Text)) → IsIdempotent (bound_field ids)
unfolding bound_field
bound_field-IsIdempotent none v = refl
bound_field-IsIdempotent (some ids) none = refl
bound_field-IsIdempotent (some ids) (some (array items)) =
    ap (λ x. some (array x)) (bound_items-IsIdempotent ids items)
bound_field-IsIdempotent (some ids) (some null) = refl
bound_field-IsIdempotent (some ids) (some (flag b)) = refl
bound_field-IsIdempotent (some ids) (some (number b)) = refl
bound_field-IsIdempotent (some ids) (some (text b)) = refl
bound_field-IsIdempotent (some ids) (some (other b)) = refl

pub reference_field-IsIdempotent : (ids : Option (List Text)) → IsIdempotent (reference_field ids)
unfolding reference_field
reference_field-IsIdempotent none v = refl
reference_field-IsIdempotent (some ids) none = refl
reference_field-IsIdempotent (some ids) (some (text id)) = elim (Bool-cases (has ids id)) [
  | inl e ↦ rw (e, reference_field) (rw (e, reference_field) refl)
  | inr e ↦ rw (e, reference_field) refl
]
reference_field-IsIdempotent (some ids) (some null) = refl
reference_field-IsIdempotent (some ids) (some (flag b)) = refl
reference_field-IsIdempotent (some ids) (some (number b)) = refl
reference_field-IsIdempotent (some ids) (some (array b)) = refl
reference_field-IsIdempotent (some ids) (some (other b)) = refl

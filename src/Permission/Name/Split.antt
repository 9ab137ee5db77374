-- ===== src/Permission/Name/Split.antt =====
-- Splitting a document name (src/permission/documentName.ts) at a separator, and joining parts.
use octo_docs_backend.Base.{
  ℕ, ◌≡◌, refl, ap, ◌∙◌, ◌≢◌, inl, inr, List, [], ◌∷◌, ◌++◌, Text, All, ◌==◌, Bool-cases, arith,
}
use octo_docs_backend.Permission.Name.{extend, split_on}

-- The separator does not occur in the text.
abbrev pub IsFree : ℕ → Text → Type 0
IsFree c s = All (λ x. x ≢ c) s

abbrev pub join : ℕ → List Text → Text
join c [] = []
join c (s ∷ []) = s
join c (s ∷ t ∷ parts) = s ++ (c ∷ join c (t ∷ parts))

split_on_free : (c : ℕ) (s : Text) → IsFree c s → split_on c s ≡ s ∷ []
unfolding split_on
split_on_free c [] _ = refl
split_on_free c (x ∷ s) (h, hs) = ground (arith, split_on_free c s hs)

split_on-append : (c : ℕ) (s t : Text) → IsFree c s → split_on c (s ++ (c ∷ t)) ≡ s ∷ split_on c t
unfolding split_on
split_on-append c [] t _ = ground arith
split_on-append c (x ∷ s) t (h, hs) = ground (arith, split_on-append c s t hs)

pub split_on-join :
    (c : ℕ) (s : Text) (parts : List Text)
    → All (IsFree c) (s ∷ parts)
    → split_on c (join c (s ∷ parts)) ≡ s ∷ parts
split_on-join c s [] (h, _) = split_on_free c s h
split_on-join c s (t ∷ parts) (h, hs) =
    split_on-append c s (join c (t ∷ parts)) h ∙ ap (λ r. s ∷ r) (split_on-join c t parts hs)

split_on-ne-nil : (c : ℕ) (s : Text) → split_on c s ≢ []
unfolding split_on
split_on-ne-nil c [] = λ e. cc
split_on-ne-nil c (x ∷ s) = ground (arith, split_on-ne-nil c s)

join-cons :
    (c x : ℕ) (part : Text) (parts : List Text)
    → join c ((x ∷ part) ∷ parts) ≡ x ∷ join c (part ∷ parts)
join-cons c x part [] = refl
join-cons c x part (t ∷ parts) = refl

join-extend :
    (c x : ℕ) (parts : List Text) → parts ≢ [] → join c (extend x parts) ≡ x ∷ join c parts
unfolding extend
join-extend c x [] h = absurd (h refl)
join-extend c x (part ∷ rest) h = join-cons c x part rest

join-nil : (c : ℕ) (parts : List Text) → parts ≢ [] → join c ([] ∷ parts) ≡ c ∷ join c parts
join-nil c [] h = absurd (h refl)
join-nil c (t ∷ parts) h = refl

pub join-split_on : (c : ℕ) (s : Text) → join c (split_on c s) ≡ s
unfolding split_on
join-split_on c [] = refl
join-split_on c (x ∷ s) = elim (Bool-cases (x == c)) [
  | inl e ↦ rw (e, join) (join-nil c _ (split_on-ne-nil c s) ∙ ground (arith, join-split_on c s))
  | inr e ↦
      rw (e, join) (join-extend c x _ (split_on-ne-nil c s) ∙ ap (λ r. x ∷ r) (join-split_on c s))
]

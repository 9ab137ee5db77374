-- ===== src/Base/Results.antt =====
-- The result of code that throws: a value, or the error thrown.
use mathlib.Core.Path.{◌≡◌, refl, ap, sym, ◌∙◌}
use mathlib.Core.Logic.{◌⊎◌, inl, inr}

pub data Result {ℓ κ} (E : Type ℓ) (A : Type κ) : Type (ℓ ⊔ κ) where
  ok : A → Result E A
  err : E → Result E A

pub Result-cases {ℓ κ} :
    {E : Type ℓ} {A : Type κ} (r : Result E A) → ((e : E) × (r ≡ err e)) ⊎ ((a : A) × (r ≡ ok a))
Result-cases (ok a) = inr (a, refl)
Result-cases (err e) = inl (e, refl)

-- The value of a run is determined by the run.
pub ok-injective {ℓ κ} :
    {E : Type ℓ} {A : Type κ} (a b : A) (r : Result E A) → r ≡ ok a → r ≡ ok b → a ≡ b
ok-injective a b r h k = ap (λ x. elim x [ ok y ↦ y | err e ↦ a ]) (sym h ∙ k)

-- ===== src/Board/Fields/Steps.antt =====
-- Corrections of single fields of an object, made one after another.
use octo_docs_backend.Base.{
  ◌≡◌, refl, sym, ap, ◌∙◌, Bool, true, not, ◌&&◌, inl, inr, Option, none, some, List, [], ◌∷◌, Text,
  text_eq, text_eq_iff, text_eq_refl, All, Bool-cases, if◌then◌else◌, arith,
}
use mathlib.Core.Option.{some-injective}
use mathlib.Core.Path.{subst}
use octo_docs_backend.Board.Fields.{Value, Fields, get, set, delete, put}

-- A correction of one field, told from the value that it has.
pub record Step : Type 0 where
  pub key : Text
  pub change : Option Value → Option Value

unfoldable pub apply : List Step → Fields → Fields
apply [] f = f
apply (s ∷ steps) f = apply steps (put s.key (s.change (get f s.key)) f)

-- The correction of a key, the first of its steps.
unfoldable pub change_of : List Step → Text → Option Value → Option Value
unfolding text_eq
change_of [] k v = v
change_of (s ∷ steps) k v = if text_eq s.key k then s.change v else change_of steps k v

unfoldable pub is_new : List Step → Text → Bool
unfolding text_eq
is_new [] k = true
is_new (s ∷ steps) k = not (text_eq s.key k) && is_new steps k

unfoldable pub are_distinct : List Step → Bool
unfolding is_new
are_distinct [] = true
are_distinct (s ∷ steps) = is_new steps s.key && are_distinct steps

pub get-set :
    (k : Text) (v : Value) (f : Fields) (m : Text)
    → get (set k v f) m ≡ (if text_eq k m then some v else get f m)
unfolding get set
get-set k v [] m = refl
get-set k v ((n, w) ∷ f) m =
    ground (arith, get-set k v f m, text_eq_iff n k, text_eq_iff n m, text_eq_iff k m)

get-delete :
    (k : Text) (f : Fields) (m : Text)
    → get (delete k f) m ≡ (if text_eq k m then none else get f m)
unfolding get delete
get-delete k [] m = ground arith
get-delete k ((n, w) ∷ f) m =
    ground (arith, get-delete k f m, text_eq_iff n k, text_eq_iff n m, text_eq_iff k m)

get-put :
    (k : Text) (v : Option Value) (f : Fields) (m : Text)
    → get (put k v f) m ≡ (if text_eq k m then v else get f m)
get-put k none f m = get-delete k f m
get-put k (some v) f m = get-set k v f m

set_same : (k : Text) (v : Value) (f : Fields) → get f k ≡ some v → set k v f ≡ f
unfolding get set
set_same k v [] h = cc
set_same k v ((n, w) ∷ f) h = elim (Bool-cases (text_eq n k)) [
  | inl e ↦
      let q : w ≡ v = some-injective w v (rw (e) at h) in rw (e) (ap (λ x. (n, x) ∷ f) (sym q))
  | inr e ↦ rw (e) (ap (λ x. (n, w) ∷ x) (set_same k v f (rw (e) at h)))
]

delete_missing : (k : Text) (f : Fields) → get f k ≡ none → delete k f ≡ f
unfolding get delete
delete_missing k [] h = refl
delete_missing k ((n, w) ∷ f) h = elim (Bool-cases (text_eq n k)) [
  | inl e ↦ cc (rw (e) at h)
  | inr e ↦ rw (e) (ap (λ x. (n, w) ∷ x) (delete_missing k f (rw (e) at h)))
]

put_same : (k : Text) (v : Option Value) (f : Fields) → get f k ≡ v → put k v f ≡ f
put_same k none f h = delete_missing k f h
put_same k (some v) f h = set_same k v f h

change_of_new :
    (steps : List Step) (k : Text) (v : Option Value)
    → is_new steps k ≡ true
    → change_of steps k v ≡ v
unfolding change_of is_new
change_of_new [] k v h = refl
change_of_new (s ∷ steps) k v h = ground (arith, h, change_of_new steps k v)

-- A field after corrections of distinct keys: its own correction of its old value.
pub get-apply :
    (steps : List Step) (f : Fields) (k : Text)
    → are_distinct steps ≡ true
    → get (apply steps f) k ≡ change_of steps k (get f k)
unfolding apply change_of are_distinct
get-apply [] f k h = refl
get-apply (s ∷ steps) f k h =
    get-apply steps (put s.key (s.change (get f s.key)) f) k (ground (arith, h))
    ∙ ap (change_of steps k) (get-put s.key (s.change (get f s.key)) f k)
    ∙ elim (Bool-cases (text_eq s.key k)) [
      | inl e ↦
          let q : s.key ≡ k = (text_eq_iff s.key k).0 e in
          let w : is_new steps s.key ≡ true = ground (arith, h) in
          rw (e) (
            change_of_new steps k (s.change (get f s.key)) (subst (λ x. is_new steps x ≡ true) q w)
            ∙ ap (λ x. s.change (get f x)) q)
      | inr e ↦ rw (e) refl
    ]

-- Corrections that each leave their field as it is leave the object as it is.
pub apply_same :
    (steps : List Step) (f : Fields)
    → All (λ s. s.change (get f s.key) ≡ get f s.key) steps
    → apply steps f ≡ f
unfolding apply
apply_same [] f h = refl
apply_same (s ∷ steps) f (h, hs) =
    ap (apply steps) (put_same s.key (s.change (get f s.key)) f (sym h)) ∙ apply_same steps f hs

-- Corrections of distinct keys, each of which changes its own result no more.
pub corrected :
    (steps : List Step) (f : Fields)
    → are_distinct steps ≡ true
    → All (λ s. (v : Option Value) → s.change (s.change v) ≡ s.change v) steps
    → All (λ s. s.change (get (apply steps f) s.key) ≡ get (apply steps f) s.key) steps
unfolding apply are_distinct
corrected [] f h _ = tt
corrected (s ∷ steps) f h (p, ps) =
    let new = s.change (get f s.key) in
    let w : is_new steps s.key ≡ true = ground (arith, h) in
    let d : are_distinct steps ≡ true = ground (arith, h) in
    let e : get (apply steps (put s.key new f)) s.key ≡ new =
      get-apply steps (put s.key new f) s.key d
      ∙ change_of_new steps s.key (get (put s.key new f) s.key) w
      ∙ get-put s.key new f s.key
      ∙ (rw (text_eq_refl s.key) refl) in
    (ap s.change e ∙ p (get f s.key) ∙ sym e, corrected steps (put s.key new f) d ps)

-- ===== src/Board/Repair/Targets.antt =====
-- What the elements that planRepair of src/whiteboard/repair.ts lets others refer to are.
use mathlib.Core.Path.{subst}
use mathlib.Core.List.{Memᴰ}
use octo_docs_backend.Base.{
  ℕ, ◌≡◌, ◌≢◌, refl, sym, ap, ◌∙◌, Bool, true, false, inl, inr, Option, none, some, List, [], ◌∷◌,
  Text, codes, text_eq, text_eq_iff, All, Bool-cases, Option-cases, arith,
}
use octo_docs_backend.Board.Fields.{
  Number, Item, linked, unlinked, Value, flag, null, number, text, array, other, Fields, get,
}
use octo_docs_backend.Board.Fields.Steps.{change_of}
use octo_docs_backend.Board.Normalize.{
  NormalizeContext, has, file_bearing_types, coerce_version, deleted_flag,
}
use octo_docs_backend.Board.Normalize.Laws.{get-canonical, kept}
use octo_docs_backend.Board.Normalize.Canonical.{IsBound, items_of, RefersTo}
use octo_docs_backend.Board.Repair.{
  FilePolicy, plain, drop_absent_image, text_of, holds, is_deleted, fate_of, Fate, dropped,
  survives, referenceable,
}
use octo_docs_backend.Board.Repair.Evidence.{IsFileDeleted, Fate_cases}

pub has-All :
    (P : Text → Type 0) (ids : List Text) (id : Text) → All P ids → has ids id ≡ true → P id
unfolding has
has-All P [] id h k = cc
has-All P (x ∷ ids) id (h, hs) k = elim (Bool-cases (text_eq x id)) [
  | inl e ↦ subst P ((text_eq_iff x id).0 e) h
  | inr e ↦ has-All P ids id hs (ground (arith, e, k))
]

abbrev fields_of : Fields → Fate → Fields
fields_of z dropped = z
fields_of z (survives n) = n

survives-injective : {m n : Fields} → survives m ≡ survives n → m ≡ n
survives-injective {m} h = ap (fields_of m) h

-- A field, and an entry of the bound elements, that names an element names one with a property.
abbrev pub Names : (Text → Type 0) → Option Value → Type 0
Names P (some (text id)) = P id
Names P v = Unit

abbrev pub Binds : (Text → Type 0) → Item → Type 0
Binds P (linked id x) = P id
Binds P (unlinked x) = ⊥

-- The frame, the container and the bound elements have a property.
pub record RefersOnly (P : Text → Type 0) (f : Fields) : Type 0 where
  pub frame : Names P (get f (codes "frameId"))
  pub container : Names P (get f (codes "containerId"))
  pub bound : All (Binds P) (items_of (get f (codes "boundElements")))

module _ (P : Text → Type 0) (ids : List Text) (h : (id : Text) → has ids id ≡ true → P id) where
  pub named : (v : Option Value) → RefersTo ids v → Names P v
  named none k = tt
  named (some (text id)) k = h id k
  named (some null) k = tt
  named (some (flag b)) k = tt
  named (some (number b)) k = tt
  named (some (array b)) k = tt
  named (some (other b)) k = tt

  pub bound_all : (items : List Item) → All (IsBound ids) items → All (Binds P) items
  bound_all [] k = tt
  bound_all (linked id x ∷ items) (k, ks) = (h id k, bound_all items ks)
  bound_all (unlinked x ∷ items) (k, ks) = absurd k

found_deleted :
    (file_ids : List Text) (policy : FilePolicy) (f : Fields)
    → holds file_bearing_types (text_of (get f (codes "type"))) ≡ true
    → IsFileDeleted file_ids policy f
    → drop_absent_image file_ids policy f ≡ true
unfolding drop_absent_image
found_deleted file_ids policy f t h =
    rw (h.listed, h.refers, drop_absent_image) (ground (arith, t, h.is_deleted, h.is_gone))

module _ (number_text : Number → Text) (is_order_key : Text → Bool)
    (generate_n_keys : Option Text → ℕ → List Text) where
  -- An element that the board keeps: it can be rendered, it is not marked as deleted, and it is no
  -- image whose file is deleted and gone.
  pub record IsTarget (elements : List (Text × Fields)) (file_ids : List Text) (policy : FilePolicy)
      (id : Text) : Type 0 where
    pub element : Fields
    pub member : Memᴰ (id, element) elements
    pub renderable : plain number_text is_order_key generate_n_keys element ≢ none
    pub not_deleted : get element (codes "isDeleted") ≢ some (flag true)
    pub has_file :
        holds file_bearing_types (text_of (get element (codes "type"))) ≡ true
        → IsFileDeleted file_ids policy element
        → ⊥

  plain-is_deleted :
      (f n : Fields)
      → plain number_text is_order_key generate_n_keys f ≡ some n
      → get n (codes "isDeleted") ≡ deleted_flag (get f (codes "isDeleted"))
  unfolding change_of text_eq
  plain-is_deleted f n h =
      let ctx : NormalizeContext = record { element_ids = none; file_ids = none } in
      let (id, _, p) = kept number_text is_order_key ctx f n h in
      subst (λ x. get x (codes "isDeleted") ≡ deleted_flag (get f (codes "isDeleted"))) p
        (get-canonical number_text is_order_key ctx f id (coerce_version (get f (codes "version")))
          (codes "isDeleted"))

  survives-cases :
      (file_ids : List Text) (policy : FilePolicy) (f n : Fields)
      → fate_of number_text is_order_key generate_n_keys file_ids policy f ≡ survives n
      → (plain number_text is_order_key generate_n_keys f ≡ some n)
        × (drop_absent_image file_ids policy f ≡ false)
  unfolding fate_of
  survives-cases file_ids policy f n h =
      elim (Option-cases (plain number_text is_order_key generate_n_keys f)) [
        | inl e ↦ cc
        | inr (m, e) ↦ elim (Bool-cases (drop_absent_image file_ids policy f)) [
          | inl d ↦ cc
          | inr d ↦ (e ∙ ap some (survives-injective (rw (e, d, fate_of) at h)), d)
        ]
      ]

  surviving-IsTarget :
      (all : List (Text × Fields)) (file_ids : List Text) (policy : FilePolicy) (id : Text)
      (f n : Fields)
      → Memᴰ (id, f) all
      → fate_of number_text is_order_key generate_n_keys file_ids policy f ≡ survives n
      → is_deleted (get n (codes "isDeleted")) ≡ false
      → IsTarget all file_ids policy id
  unfolding deleted_flag
  surviving-IsTarget all file_ids policy id f n m h d =
      let (p, kept_file) = survives-cases file_ids policy f n h in
      record {
        element = f;
        member = m;
        renderable = λ e. cc (sym p ∙ e);
        not_deleted = λ e.
            let q : get n (codes "isDeleted") ≡ some (flag true) =
              plain-is_deleted f n p ∙ ap deleted_flag e in
            cc (sym d ∙ ap is_deleted q);
        has_file = λ t g. cc (sym kept_file ∙ found_deleted file_ids policy f t g);
      }

  pub referenceable-AreTargets :
      (all elements : List (Text × Fields)) (file_ids : List Text) (policy : FilePolicy)
      → ((entry : Text × Fields) → Memᴰ entry elements → Memᴰ entry all)
      → All
          (IsTarget all file_ids policy)
          (referenceable number_text is_order_key generate_n_keys file_ids policy elements)
  unfolding referenceable
  referenceable-AreTargets all [] file_ids policy within = tt
  referenceable-AreTargets all ((id, f) ∷ elements) file_ids policy within =
      let rest =
        referenceable-AreTargets all elements file_ids policy
          (λ entry m. within entry (Memᴰ.tail m)) in
      elim (Fate_cases (fate_of number_text is_order_key generate_n_keys file_ids policy f)) [
        | inl e ↦ rw (e, referenceable) rest
        | inr (n, e) ↦ elim (Bool-cases (is_deleted (get n (codes "isDeleted")))) [
          | inl d ↦ rw (e, referenceable) (rw (d) rest)
          | inr d ↦
              rw (e, referenceable)
                (rw (d) (
                  surviving-IsTarget all file_ids policy id f n (within (id, f) (Memᴰ.head refl)) e
                      d,
                  rest,
                ))
        ]
      ]

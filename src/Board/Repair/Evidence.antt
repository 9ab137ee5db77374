-- ===== src/Board/Repair/Evidence.antt =====
-- What planRepair of src/whiteboard/repair.ts takes as a reason to drop an element.
use mathlib.Core.List.{Memᴰ}
use octo_docs_backend.Base.{
  ◌≡◌, refl, Bool, true, false, inl, inr, Option, none, some, List, [], ◌∷◌, Text, codes, All,
  Bool-cases, Option-cases, ◌⊎◌, arith, ℕ,
}
use octo_docs_backend.BotUids.Normal.{sort-All}
use octo_docs_backend.Board.Fields.{
  Number, Value, null, flag, number, text, array, other, Fields, get,
}
use octo_docs_backend.Board.Normalize.{has}
use octo_docs_backend.Board.Repair.{
  Board, FilePolicy, cold_start, no_files, deleted, plain, drop_absent_image, text_of, holds,
  in_deleted, fate_of, Fate, dropped, survives, drop_all, in_scope, plan_repair,
}

-- An element whose file the policy lists as deleted, and is gone.
pub record IsFileDeleted (file_ids : List Text) (policy : FilePolicy) (f : Fields) : Type 0 where
  pub files : List Text
  pub file : Text
  pub listed : policy ≡ deleted files
  pub refers : get f (codes "fileId") ≡ some (text file)
  pub is_deleted : has files file ≡ true
  pub is_gone : has file_ids file ≡ false

pub data IsEvidence (rejected : Type 0) (file_ids : List Text) (policy : FilePolicy) (f : Fields)
    : Type 0 where
  unrenderable : rejected → IsEvidence rejected file_ids policy f
  file_deleted : IsFileDeleted file_ids policy f → IsEvidence rejected file_ids policy f

text_of_inverse : (v : Option Value) (t : Text) → text_of v ≡ some t → v ≡ some (text t)
text_of_inverse (some (text s)) t h = cc
text_of_inverse none t h = cc
text_of_inverse (some null) t h = cc
text_of_inverse (some (flag b)) t h = cc
text_of_inverse (some (number b)) t h = cc
text_of_inverse (some (array b)) t h = cc
text_of_inverse (some (other b)) t h = cc

in_deleted_found :
    (file_ids : List Text) (policy : FilePolicy) (f : Fields) (fid : Option Text)
    → text_of (get f (codes "fileId")) ≡ fid
    → holds file_ids fid ≡ false
    → in_deleted policy fid ≡ true
    → IsFileDeleted file_ids policy f
in_deleted_found file_ids cold_start f fid p h k = cc
in_deleted_found file_ids no_files f fid p h k = cc
in_deleted_found file_ids (deleted files) f none p h k = cc
in_deleted_found file_ids (deleted files) f (some t) p h k = record {
  files = files;
  file = t;
  listed = refl;
  refers = text_of_inverse (get f (codes "fileId")) t p;
  is_deleted = k;
  is_gone = h;
}

drop_absent_image-IsFileDeleted :
    (file_ids : List Text) (policy : FilePolicy) (f : Fields)
    → drop_absent_image file_ids policy f ≡ true
    → IsFileDeleted file_ids policy f
unfolding drop_absent_image
drop_absent_image-IsFileDeleted file_ids policy f h =
    in_deleted_found file_ids policy f (text_of (get f (codes "fileId"))) refl (ground (arith, h))
      (ground (arith, h))

abbrev pub InScope : Option (List Text) → Text → Type 0
InScope none id = Unit
InScope (some scope) id = has scope id ≡ true

in_scope-All :
    (P : Text → Type 0) (scope : Option (List Text)) (ids : List Text)
    → All P ids
    → All (λ id. P id × InScope scope id) (in_scope scope ids)
unfolding in_scope
in_scope-All P none [] h = tt
in_scope-All P none (id ∷ ids) (h, hs) = ((h, tt), in_scope-All P none ids hs)
in_scope-All P (some scope) [] h = tt
in_scope-All P (some scope) (id ∷ ids) (h, hs) = elim (Bool-cases (has scope id)) [
  | inl e ↦ rw (e) ((h, e), in_scope-All P (some scope) ids hs)
  | inr e ↦ rw (e) (in_scope-All P (some scope) ids hs)
]

pub Fate_cases : (x : Fate) → (x ≡ dropped) ⊎ ((n : Fields) × (x ≡ survives n))
Fate_cases dropped = inl refl
Fate_cases (survives n) = inr (n, refl)

module _ (number_text : Number → Text) (is_order_key : Text → Bool)
    (generate_n_keys : Option Text → ℕ → List Text) where
  -- An entry of the elements with a reason to drop it.
  pub record IsDrop (elements : List (Text × Fields)) (file_ids : List Text) (policy : FilePolicy)
      (id : Text) : Type 0 where
    pub element : Fields
    pub member : Memᴰ (id, element) elements
    pub evidence :
        IsEvidence
          (plain number_text is_order_key generate_n_keys element ≡ none)
          file_ids
          policy
          element

  dropped-IsEvidence :
      (file_ids : List Text) (policy : FilePolicy) (f : Fields)
      → fate_of number_text is_order_key generate_n_keys file_ids policy f ≡ dropped
      → IsEvidence (plain number_text is_order_key generate_n_keys f ≡ none) file_ids policy f
  unfolding fate_of
  dropped-IsEvidence file_ids policy f h =
      elim (Option-cases (plain number_text is_order_key generate_n_keys f)) [
        | inl e ↦ unrenderable e
        | inr (n, e) ↦ elim (Bool-cases (drop_absent_image file_ids policy f)) [
          | inl d ↦ file_deleted (drop_absent_image-IsFileDeleted file_ids policy f d)
          | inr d ↦ cc
        ]
      ]

  drop_all-AreDrops :
      (all elements : List (Text × Fields)) (file_ids : List Text) (policy : FilePolicy)
      → ((entry : Text × Fields) → Memᴰ entry elements → Memᴰ entry all)
      → All
          (IsDrop all file_ids policy)
          (drop_all number_text is_order_key generate_n_keys file_ids policy elements)
  unfolding drop_all
  drop_all-AreDrops all [] file_ids policy within = tt
  drop_all-AreDrops all ((id, f) ∷ elements) file_ids policy within =
      let rest =
        drop_all-AreDrops all elements file_ids policy (λ entry m. within entry (Memᴰ.tail m)) in
      elim (Fate_cases (fate_of number_text is_order_key generate_n_keys file_ids policy f)) [
        | inl e ↦
            rw (e, drop_all)
              (
                record {
                  element = f;
                  member = within (id, f) (Memᴰ.head refl);
                  evidence = dropped-IsEvidence file_ids policy f e;
                },
                rest,
              )
        | inr (n, e) ↦ rw (e, drop_all) rest
      ]

  -- Every id that a plan drops is in its scope and is an entry of the board that normalizeElement
  -- rejects, or whose file the policy lists as deleted and the board does not hold: a file that is
  -- absent is no reason by itself.
  pub plan_repair-DropsOnEvidence :
      (board : Board) (scope : Option (List Text)) (policy : FilePolicy)
      → All
          (λ id. IsDrop board.elements board.file_ids policy id × InScope scope id)
          (plan_repair number_text is_order_key generate_n_keys board scope policy).drops
  unfolding plan_repair
  plan_repair-DropsOnEvidence board scope policy =
      sort-All (λ id. IsDrop board.elements board.file_ids policy id × InScope scope id)
        (in_scope scope
          (drop_all number_text is_order_key generate_n_keys board.file_ids policy board.elements))
        (in_scope-All (IsDrop board.elements board.file_ids policy) scope
          (drop_all number_text is_order_key generate_n_keys board.file_ids policy board.elements)
          (drop_all-AreDrops board.elements board.elements board.file_ids policy (λ entry m. m)))

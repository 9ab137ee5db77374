-- ===== src/Collab/Snapshot/Captures.antt =====
-- What a capture of src/collab/autoSnapshot.ts does to the time of the last automatic frame.
use octo_docs_backend.Base.{
  ℕ, ◌≡◌, refl, ◌∙◌, inl, inr, ◌⊎◌, Option, none, some, List, [], ◌∷◌, ◌++◌, Text, text_eq,
  Option-cases, Bool-cases, if◌then◌else◌,
}
use octo_docs_backend.Collab.Snapshot.{
  Config, Reply, lock_throws, lock_taken, write_throws, written, Attempt, threw, skipped, wrote,
  DocAutoState, Frame, get, set, delete, derive_snapshot_target, get_state, capture, mark,
  record_store, rearm,
}
use octo_docs_backend.Collab.Snapshot.History.{get-set, get-delete}
use octo_docs_backend.Collab.Snapshot.Laws.{record_store-keeps}

-- The clock after a write.
abbrev pub clock : Reply → Option ℕ
clock (written later) = some later
clock _ = none

abbrev pub IsSilent : Attempt → Type 0
IsSilent (wrote later) = ⊥
IsSilent _ = Unit

module _ {Doc : Type 0} where
  -- The time of the last automatic frame; 0 stands for none.
  abbrev pub last_auto : Option (DocAutoState Doc) → ℕ
  last_auto none = 0
  last_auto (some s) = s.last_auto_at

  pub last_auto-set :
      (states : List (Text × DocAutoState Doc)) (n : Text) (s : DocAutoState Doc) (name : Text)
      → last_auto (get (set states n s) name)
        ≡ (if text_eq n name then s.last_auto_at else last_auto (get states name))
  last_auto-set states n s name = elim (Bool-cases (text_eq n name)) [
    | inl e ↦ rw (get-set states n s name, e) refl
    | inr e ↦ rw (get-set states n s name, e) refl
  ]

  pub last_auto-delete :
      (states : List (Text × DocAutoState Doc)) (n name : Text)
      → (last_auto (get (delete states n) name) ≡ last_auto (get states name))
        ⊎ (last_auto (get (delete states n) name) ≡ 0)
  last_auto-delete states n name = elim (Bool-cases (text_eq n name)) [
    | inl e ↦ inr (rw (get-delete states n name, e) refl)
    | inr e ↦ inl (rw (get-delete states n name, e) refl)
  ]

  pub last_auto-stored :
      (now : ℕ) (writer : Option Text) (doc : Doc) (states : List (Text × DocAutoState Doc))
      (n : Text)
      → (record_store now writer doc (get_state states n)).last_auto_at ≡ last_auto (get states n)
  unfolding get_state
  last_auto-stored now writer doc states n =
      (record_store-keeps now writer doc (get_state states n)).0
      ∙ elim (Option-cases (get states n)) [
        | inl e ↦ rw (e, get_state) refl
        | inr (s, e) ↦ rw (e, get_state) refl
      ]

  pub rearm-last_auto :
      (a : Attempt) (s : DocAutoState Doc) → IsSilent a → (rearm a s).last_auto_at ≡ s.last_auto_at
  unfolding rearm
  rearm-last_auto threw s h = refl
  rearm-last_auto skipped s h = refl
  rearm-last_auto (wrote later) s h = absurd h

  pub rearm-wrote :
      (later : ℕ) (s : DocAutoState Doc) → (rearm (wrote later) s).last_auto_at ≡ later
  unfolding rearm
  rearm-wrote later s = refl

  pub mark-last_auto :
      (a : Attempt) (s : DocAutoState Doc) → IsSilent a → (mark a s).last_auto_at ≡ s.last_auto_at
  mark-last_auto threw s h = refl
  mark-last_auto skipped s h = refl
  mark-last_auto (wrote later) s h = absurd h

module _ {State : Type 0} where
  -- A capture that wrote a frame.
  pub record IsCaptured (reply : Reply) (n : Text) (frames : List (Frame State))
      (out : List (Frame State) × Attempt) : Type 0 where
    pub later : ℕ
    pub frame : Frame State
    pub at : reply ≡ written later
    pub result : out ≡ (frames ++ (frame ∷ []), wrote later)
    pub named : frame.document_name ≡ n

module _ {Doc State : Type 0} where
  pub capture-cases :
      (cfg : Config) (reply : Reply) (encode : Doc → State) (n writer : Text) (doc : Doc)
      (frames : List (Frame State))
      → IsSilent (capture cfg reply encode n writer doc frames).1
        ⊎ IsCaptured reply n frames (capture cfg reply encode n writer doc frames)
  unfolding capture
  capture-cases cfg lock_throws encode n writer doc frames = inl tt
  capture-cases cfg lock_taken encode n writer doc frames = inl tt
  capture-cases cfg write_throws encode n writer doc frames =
      elim (Option-cases (derive_snapshot_target cfg n)) [
        | inl e ↦ inl (rw (e, capture) tt)
        | inr (t, e) ↦ inl (rw (e, capture) tt)
      ]
  capture-cases cfg (written later) encode n writer doc frames =
      elim (Option-cases (derive_snapshot_target cfg n)) [
        | inl e ↦ inl (rw (e, capture) tt)
        | inr (t, e) ↦ inr (record {
          later = later;
          frame = record {
            doc_id = t.0;
            document_name = n;
            state = encode doc;
            schema_version = t.1;
            created_by = writer;
          };
          at = refl;
          result = rw (e, capture) refl;
          named = refl;
        })
      ]

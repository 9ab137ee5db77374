-- ===== src/Collab/Snapshot/Laws.antt =====
-- Which frames src/collab/autoSnapshot.ts writes after a store, at an idle point and at an unload.
use octo_docs_backend.Base.{
  ℕ, ◌≡◌, refl, ◌∙◌, true, Option, none, some, List, [], ◌∷◌, ◌++◌, Text, text_eq_refl,
}
use octo_docs_backend.Collab.Snapshot.{
  Config, Reply, lock_throws, lock_taken, write_throws, written, wrote, DocAutoState, Frame, Node,
  get, set, derive_snapshot_target, capture, record_store, handle_after_store,
}
use octo_docs_backend.Collab.Snapshot.History.{get-set, view, named_writer}

-- The lock and the write do not throw.
abbrev pub Answers : Reply → Type 0
Answers lock_throws = ⊥
Answers write_throws = ⊥
Answers lock_taken = Unit
Answers (written later) = Unit

-- The row that a frame of a document writes.
abbrev pub frame_of : {State : Type 0} → Text → Text × ℕ → State → Text → Frame State
frame_of name t state writer = record {
  doc_id = t.0;
  document_name = name;
  state = state;
  schema_version = t.1;
  created_by = writer;
}

module _ {Doc : Type 0} where
  -- A state whose timer was just armed, for a store at a time.
  record IsArmed (now : ℕ) (doc : Doc) (writer : Text) (s : DocAutoState Doc) : Type 0 where
    timer : s.idle_timer ≡ some now
    stored : s.last_store_at ≡ now
    live : s.live_doc ≡ some doc
    by : s.last_writer ≡ writer

  pub get-set_self :
      (name : Text) (states : List (Text × DocAutoState Doc)) (s : DocAutoState Doc)
      → get (set states name s) name ≡ some s
  get-set_self name states s = get-set states name s name ∙ (rw (text_eq_refl name) refl)

  -- What a store leaves of the automatic frames and the timer.
  pub record_store-keeps :
      (now : ℕ) (writer : Option Text) (doc : Doc) (s : DocAutoState Doc)
      → ((record_store now writer doc s).last_auto_at ≡ s.last_auto_at)
        × ((record_store now writer doc s).idle_timer ≡ s.idle_timer)
        × ((record_store now writer doc s).last_store_at ≡ now)
  unfolding record_store
  record_store-keeps now none doc s = (refl, refl, refl)
  record_store-keeps now (some []) doc s = (refl, refl, refl)
  record_store-keeps now (some (c ∷ u)) doc s = (refl, refl, refl)

module _ {Doc State : Type 0} (cfg : Config) (on : cfg.enabled ≡ true) (name : Text) (t : Text × ℕ)
    (target : derive_snapshot_target cfg name ≡ some t) where
  pub capture-written :
      (later : ℕ) (encode : Doc → State) (writer : Text) (doc : Doc) (frames : List (Frame State))
      → capture cfg (written later) encode name writer doc frames
        ≡ (frames ++ (frame_of name t (encode doc) writer ∷ []), wrote later)
  unfolding capture
  capture-written later encode writer doc frames = rw (target, capture) refl

  abbrev store : Reply → (Doc → State) → ℕ → Option Text → Doc → Node Doc State → Node Doc State
  store reply encode now writer doc node =
      handle_after_store cfg reply encode now name writer doc node

  -- The writer after a store, given the history.
  abbrev writer_of : Option Text → Node Doc State → Text
  writer_of writer node = named_writer writer (view (get node.doc_state name))

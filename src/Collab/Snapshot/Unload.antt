-- ===== src/Collab/Snapshot/Unload.antt =====
-- What src/collab/autoSnapshot.ts keeps at an unload.
use octo_docs_backend.Base.{ℕ, ◌≤◌, ◌≡◌, true, ◌⊎◌, some, List, [], ◌∷◌, ◌++◌, Text}
use octo_docs_backend.Collab.Snapshot.{Config, Node, Event, get, derive_snapshot_target, run, quiet}
use octo_docs_backend.Collab.Snapshot.History.{Burst}
use octo_docs_backend.Collab.Snapshot.Laws.{frame_of}
use octo_docs_backend.Collab.Snapshot.Captures.{last_auto}
use octo_docs_backend.Collab.Snapshot.Writes.{AddsFrame}

module _ {Doc State : Type 0} (cfg : Config) (name : Text) where
  -- An event of a run from the start that wrote a frame of the document, with its time.
  pub record IsWrite (events : List (Event Doc State)) (at : ℕ) : Type 0 where
    pub before : List (Event Doc State)
    pub after : List (Event Doc State)
    pub event : Event Doc State
    pub splits : events ≡ before ++ (event ∷ after)
    pub adds : AddsFrame cfg name (run cfg quiet before) event at

  abbrev IsTimed : List (Event Doc State) → Node Doc State → Type 0
  IsTimed events node =
      (last_auto (get node.doc_state name) ≡ 0)
      ⊎ IsWrite events (last_auto (get node.doc_state name))

  module _ (on : cfg.enabled ≡ true) (t : Text × ℕ)
      (target : derive_snapshot_target cfg name ≡ some t) where
    -- What an unload adds, given the run before it and the latest store: a frame, or none where an
    -- event of the run wrote one at or after that store.
    pub data IsFlush (events : List (Event Doc State)) (node after : Node Doc State) (state : State)
        (b : Burst Doc) : Type 0 where
      flushed :
          after.frames ≡ node.frames ++ (frame_of name t state b.writer ∷ [])
          → IsFlush events node after state b
      saved :
          (at : ℕ)
          → IsWrite events at
          → b.at ≤ at
          → after.frames ≡ node.frames
          → IsFlush events node after state b

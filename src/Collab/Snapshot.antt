-- ===== src/Collab/Snapshot.antt =====
-- src/collab/autoSnapshot.ts: the automatic snapshots of one node. A handler runs to its end before
-- the next event: what its awaits return is an argument. `Doc` stands for the live documents of Yjs,
-- which change between events, and a state keeps such a handle. What `Y.encodeStateAsUpdate` makes of
-- a document when a frame is written, a `State`, is the argument `encode` of that event.
pub mod Laws
pub mod History
pub mod Losses
pub mod Captures
pub mod Writes
pub mod Unload
use octo_docs_backend.Base.{
  ℕ, ◌+◌, Bool, true, false, not, ◌&&◌, ◌||◌, Option, none, some, List, [], ◌∷◌, ◌++◌, Text, codes,
  text_eq, leb, ltb, ◌==◌, Result, ok, err, if◌then◌else◌,
}
use octo_docs_backend.Permission.Name.{
  ParsedName, document, whiteboard, html, ppt, parse_document_name,
}

-- `config.autoSnapshot`, and the two schema versions that frames are stamped with.
pub record Config : Type 0 where
  pub enabled : Bool
  pub min_interval_ms : ℕ
  pub schema_version : ℕ
  pub wb_schema_version : ℕ

-- What `acquireLock` and then `createAutoWithPrune` do: throw, or answer. After a write the clock is
-- read again.
pub data Reply : Type 0 where
  lock_throws lock_taken write_throws : Reply
  written : ℕ → Reply

abbrev pub system_writer : Text
system_writer = codes "system"

-- `deriveSnapshotTarget`.
unfoldable pub derive_snapshot_target : Config → Text → Option (Text × ℕ)
unfolding parse_document_name
derive_snapshot_target cfg name = elim (parse_document_name name) [
  | err e ↦ none
  | ok parsed ↦ elim parsed [
    | document space folder doc ↦ some (doc, cfg.schema_version)
    | whiteboard space folder board ↦ some (board, cfg.wb_schema_version)
    | html space folder doc ↦ none
    | ppt space folder doc ↦ none
  ]
]

-- How an attempt at a frame ends.
pub data Attempt : Type 0 where
  threw skipped : Attempt
  wrote : ℕ → Attempt

module _ (Doc : Type 0) where
  -- `DocAutoState`; a pending timer is known by the time that its callback carries.
  pub record DocAutoState : Type 0 where
    pub last_store_at : ℕ
    pub last_auto_at : ℕ
    pub idle_timer : Option ℕ
    pub last_writer : Text
    pub live_doc : Option Doc

module _ (State : Type 0) where
  -- A row of `createAutoWithPrune`.
  pub record Frame : Type 0 where
    pub doc_id : Text
    pub document_name : Text
    pub state : State
    pub schema_version : ℕ
    pub created_by : Text

module _ (Doc State : Type 0) where
  -- `docState`, and the frames that were written.
  pub record Node : Type 0 where
    pub doc_state : List (Text × DocAutoState Doc)
    pub frames : List (Frame State)

  -- What happens on a node. A pending timer fires with the time that it was armed with.
  pub data Event : Type 0 where
    stores : Reply → (Doc → State) → ℕ → Text → Option Text → Doc → Event
    fires : Reply → (Doc → State) → Text → Event
    unloads : Reply → (Doc → State) → Text → Doc → Event

module _ {Doc : Type 0} where
  -- `docState.get`, `docState.set` and `docState.delete`.
  unfoldable pub get : List (Text × DocAutoState Doc) → Text → Option (DocAutoState Doc)
  unfolding text_eq
  get [] name = none
  get ((n, s) ∷ states) name = if text_eq n name then some s else get states name

  unfoldable pub set :
      List (Text × DocAutoState Doc) → Text → DocAutoState Doc → List (Text × DocAutoState Doc)
  unfolding text_eq
  set [] name s = (name, s) ∷ []
  set ((n, t) ∷ states) name s =
      if text_eq n name then (n, s) ∷ states else (n, t) ∷ set states name s

  unfoldable pub delete : List (Text × DocAutoState Doc) → Text → List (Text × DocAutoState Doc)
  unfolding text_eq
  delete [] name = []
  delete ((n, t) ∷ states) name =
      if text_eq n name then delete states name else (n, t) ∷ delete states name

  -- The state that `getState` creates.
  abbrev pub blank : DocAutoState Doc
  blank = record {
    last_store_at = 0;
    last_auto_at = 0;
    idle_timer = none;
    last_writer = system_writer;
    live_doc = none;
  }

  -- `getState`.
  unfoldable pub get_state : List (Text × DocAutoState Doc) → Text → DocAutoState Doc
  unfolding get
  get_state states name = elim (get states name) [ none ↦ blank | some s ↦ s ]

  -- `s.lastAutoAt = Date.now()` after a write.
  abbrev pub mark : Attempt → DocAutoState Doc → DocAutoState Doc
  mark (wrote later) s = record s { last_auto_at = later }
  mark _ s = s

  -- The store on the state of its document; an empty uid is falsy.
  unfoldable pub record_store : ℕ → Option Text → Doc → DocAutoState Doc → DocAutoState Doc
  record_store now none doc s = record s { last_store_at = now; live_doc = some doc }
  record_store now (some []) doc s = record s { last_store_at = now; live_doc = some doc }
  record_store now (some (c ∷ u)) doc s = record s {
    last_store_at = now;
    live_doc = some doc;
    last_writer = c ∷ u;
  }

  -- `clearTimeout` and `setTimeout`.
  abbrev pub arm : DocAutoState Doc → DocAutoState Doc
  arm s = record s { idle_timer = some s.last_store_at }

  -- The end of `handleAfterStore`: a throw leaves out the timer.
  unfoldable pub rearm : Attempt → DocAutoState Doc → DocAutoState Doc
  rearm threw s = s
  rearm skipped s = arm s
  rearm (wrote later) s = arm (mark (wrote later) s)

module _ {Doc State : Type 0} where
  -- The lock, and `writeAutoSnapshot` under it: the frames, and how the attempt ends.
  unfoldable pub capture :
      Config
      → Reply
      → (Doc → State)
      → Text
      → Text
      → Doc
      → List (Frame State)
      → List (Frame State) × Attempt
  unfolding derive_snapshot_target
  capture cfg lock_throws encode name writer doc frames = (frames, threw)
  capture cfg lock_taken encode name writer doc frames = (frames, skipped)
  capture cfg write_throws encode name writer doc frames = elim (derive_snapshot_target cfg name) [
    | none ↦ (frames, skipped)
    | some t ↦ (frames, threw)
  ]
  capture cfg (written later) encode name writer doc frames =
      elim (derive_snapshot_target cfg name) [
        | none ↦ (frames, skipped)
        | some t ↦ (
          frames
              ++ (record {
                doc_id = t.0;
                document_name = name;
                state = encode doc;
                schema_version = t.1;
                created_by = writer;
              }
                  ∷ []),
          wrote later,
        )
      ]

  -- `handleAfterStore`.
  unfoldable pub handle_after_store :
      Config
      → Reply
      → (Doc → State)
      → ℕ
      → Text
      → Option Text
      → Doc
      → Node Doc State
      → Node Doc State
  unfolding get_state record_store capture rearm set
  handle_after_store cfg reply encode now name writer doc node =
      let s = record_store now writer doc (get_state node.doc_state name) in
      let due = leb (s.last_auto_at + cfg.min_interval_ms) now in
      let out = capture cfg reply encode name s.last_writer doc node.frames in
      if not cfg.enabled
      then node
      else if due
      then record { doc_state = set node.doc_state name (rearm out.1 s); frames = out.0 }
      else record node { doc_state = set node.doc_state name (arm s) }

  -- The frame of an idle point, for a state that has a live document.
  unfoldable pub idle_frame :
      Config → Reply → (Doc → State) → Text → DocAutoState Doc → Node Doc State → Node Doc State
  unfolding capture set
  idle_frame cfg reply encode name s node = elim s.live_doc [
    | none ↦ record node { doc_state = set node.doc_state name s }
    | some doc ↦
        let out = capture cfg reply encode name s.last_writer doc node.frames in
        record { doc_state = set node.doc_state name (mark out.1 s); frames = out.0 }
  ]

  -- `fireIdle`.
  unfoldable pub fire_idle :
      Config → Reply → (Doc → State) → Text → ℕ → Node Doc State → Node Doc State
  unfolding get set idle_frame
  fire_idle cfg reply encode name armed_at node = elim (get node.doc_state name) [
    | none ↦ node
    | some s ↦
        let fired = record s { idle_timer = none } in
        if not (s.last_store_at == armed_at) || not cfg.enabled
        then record node { doc_state = set node.doc_state name fired }
        else idle_frame cfg reply encode name fired node
  ]

  -- `handleBeforeUnload`.
  unfoldable pub handle_before_unload :
      Config → Reply → (Doc → State) → Text → Doc → Node Doc State → Node Doc State
  unfolding get capture delete
  handle_before_unload cfg reply encode name doc node = elim (get node.doc_state name) [
    | none ↦ node
    | some s ↦
        let out = capture cfg reply encode name s.last_writer doc node.frames in
        let frames =
          if cfg.enabled && ltb s.last_auto_at s.last_store_at then out.0 else node.frames in
        record { doc_state = delete node.doc_state name; frames = frames }
  ]

  -- The timer of a document fires if one is pending.
  unfoldable pub fire : Config → Reply → (Doc → State) → Text → Node Doc State → Node Doc State
  unfolding get fire_idle
  fire cfg reply encode name node = elim (get node.doc_state name) [
    | none ↦ node
    | some s ↦ elim s.idle_timer [
      | none ↦ node
      | some armed_at ↦ fire_idle cfg reply encode name armed_at node
    ]
  ]

  unfoldable pub step : Config → Node Doc State → Event Doc State → Node Doc State
  unfolding handle_after_store fire handle_before_unload
  step cfg node (stores reply encode now name writer doc) =
      handle_after_store cfg reply encode now name writer doc node
  step cfg node (fires reply encode name) = fire cfg reply encode name node
  step cfg node (unloads reply encode name doc) =
      handle_before_unload cfg reply encode name doc node

  unfoldable pub run : Config → Node Doc State → List (Event Doc State) → Node Doc State
  unfolding step
  run cfg node [] = node
  run cfg node (e ∷ events) = run cfg (step cfg node e) events

  abbrev pub quiet : Node Doc State
  quiet = record { doc_state = []; frames = [] }

-- ===== src/Collab/Snapshot/History.antt =====
-- The state that src/collab/autoSnapshot.ts keeps for a document against the history of its stores.
use octo_docs_backend.Base.{
  ℕ, ◌+◌, ◌≡◌, refl, sym, ap, ◌∙◌, Bool, true, false, not, inl, inr, Option, none, some, List, [],
  ◌∷◌, Text, text_eq, text_eq_iff, leb, ◌==◌, ◌||◌, Option-cases, Bool-cases, if◌then◌else◌, arith,
}
use octo_docs_backend.Collab.Snapshot.{
  Config, Reply, Attempt, threw, skipped, wrote, system_writer, DocAutoState, Node, Event, stores,
  fires, unloads, get, set, delete, blank, get_state, capture, mark, record_store, arm, rearm,
  handle_after_store, idle_frame, fire_idle, fire, handle_before_unload, step, run, quiet,
}

-- The latest store of a document: its time, the writer named last, and the document.
pub record Burst (Doc : Type 0) : Type 0 where
  pub at : ℕ
  pub writer : Text
  pub doc : Option Doc

same_name :
    {A : Type 0} (f : Text → A) (z : A) (n name : Text)
    → (if text_eq n name then f n else z) ≡ (if text_eq n name then f name else z)
same_name f z n name = elim (Bool-cases (text_eq n name)) [
  | inl e ↦ rw (e) (ap f ((text_eq_iff n name).0 e))
  | inr e ↦ rw (e) refl
]

module _ {Doc : Type 0} where
  pub get-set :
      (states : List (Text × DocAutoState Doc)) (n : Text) (s : DocAutoState Doc) (m : Text)
      → get (set states n s) m ≡ (if text_eq n m then some s else get states m)
  unfolding get set
  get-set [] n s m = refl
  get-set ((k, t) ∷ states) n s m =
      ground (arith, get-set states n s m, text_eq_iff k n, text_eq_iff k m, text_eq_iff n m)

  pub get-delete :
      (states : List (Text × DocAutoState Doc)) (n m : Text)
      → get (delete states n) m ≡ (if text_eq n m then none else get states m)
  unfolding get delete
  get-delete [] n m = ground arith
  get-delete ((k, t) ∷ states) n m =
      ground (arith, get-delete states n m, text_eq_iff k n, text_eq_iff k m, text_eq_iff n m)

  -- What the state of a document says of its stores.
  abbrev pub view : Option (DocAutoState Doc) → Option (Burst Doc)
  view none = none
  view (some s) = some (record { at = s.last_store_at; writer = s.last_writer; doc = s.live_doc })

  -- The writer after a store, which may name none.
  abbrev pub named_writer : Option Text → Option (Burst Doc) → Text
  named_writer (some (c ∷ u)) b = c ∷ u
  named_writer _ none = system_writer
  named_writer _ (some b) = b.writer

  pub view-rearm : (a : Attempt) (s : DocAutoState Doc) → view (some (rearm a s)) ≡ view (some s)
  unfolding rearm
  view-rearm threw s = refl
  view-rearm skipped s = refl
  view-rearm (wrote later) s = refl

  view-mark : (a : Attempt) (s : DocAutoState Doc) → view (some (mark a s)) ≡ view (some s)
  view-mark threw s = refl
  view-mark skipped s = refl
  view-mark (wrote later) s = refl

  pub view-record_store :
      (now : ℕ) (writer : Option Text) (doc : Doc) (states : List (Text × DocAutoState Doc))
      (n : Text)
      → view (some (record_store now writer doc (get_state states n)))
        ≡ some (record {
          at = now;
          writer = named_writer writer (view (get states n));
          doc = some doc;
        })
  unfolding record_store get_state
  view-record_store now writer doc states n = elim (Option-cases (get states n)) [
    | inl e ↦ rw (e, get_state) (blank_case writer)
    | inr (s, e) ↦ rw (e, get_state) (state_case s writer)
  ]
    where
      blank_case :
          (w : Option Text)
          → view (some (record_store now w doc blank))
            ≡ some (record { at = now; writer = named_writer w none; doc = some doc })
      blank_case none = unfold record_store in refl
      blank_case (some []) = unfold record_store in refl
      blank_case (some (c ∷ u)) = unfold record_store in refl

      state_case :
          (s : DocAutoState Doc) (w : Option Text)
          → view (some (record_store now w doc s))
            ≡ some (record { at = now; writer = named_writer w (view (some s)); doc = some doc })
      state_case s none = unfold record_store in refl
      state_case s (some []) = unfold record_store in refl
      state_case s (some (c ∷ u)) = unfold record_store in refl

  -- A state set under a name, seen from any name.
  view-set :
      (states : List (Text × DocAutoState Doc)) (n : Text) (s : DocAutoState Doc)
      (b : Option (Burst Doc)) (name : Text)
      → view (some s) ≡ b
      → view (get (set states n s) name) ≡ (if text_eq n name then b else view (get states name))
  view-set states n s b name h = elim (Bool-cases (text_eq n name)) [
    | inl e ↦ rw (get-set states n s name, e) h
    | inr e ↦ rw (get-set states n s name, e) refl
  ]

  -- A state that is set again with the same stores.
  view-reset :
      (states : List (Text × DocAutoState Doc)) (n : Text) (s t : DocAutoState Doc) (name : Text)
      → get states n ≡ some s
      → view (some t) ≡ view (some s)
      → view (get (set states n t) name) ≡ view (get states name)
  view-reset states n s t name g h = elim (Bool-cases (text_eq n name)) [
    | inr e ↦ view-set states n t (view (some s)) name h ∙ rw (e) refl
    | inl e ↦
        let q : n ≡ name = (text_eq_iff n name).0 e in
        view-set states n t (view (some s)) name h
        ∙ (rw (e) (ap view (sym g) ∙ ap (λ x. view (get states x)) q))
  ]

module _ {Doc State : Type 0} where
  -- The history of a document: its latest store since it was last unloaded.
  unfoldable pub advance : Text → Option (Burst Doc) → Event Doc State → Option (Burst Doc)
  unfolding text_eq
  advance name b (stores reply encode now n writer doc) =
      if text_eq n name
      then some (record { at = now; writer = named_writer writer b; doc = some doc })
      else b
  advance name b (fires reply encode n) = b
  advance name b (unloads reply encode n doc) = if text_eq n name then none else b

  unfoldable pub past : Text → Option (Burst Doc) → List (Event Doc State) → Option (Burst Doc)
  unfolding advance
  past name b [] = b
  past name b (e ∷ events) = past name (advance name b e) events

  module _ (cfg : Config) (on : cfg.enabled ≡ true) (node : Node Doc State) (name : Text) where
    store-advance :
        (reply : Reply) (encode : Doc → State) (now : ℕ) (n : Text) (writer : Option Text)
        (doc : Doc)
        → view (get (handle_after_store cfg reply encode now n writer doc node).doc_state name)
          ≡ advance name (view (get node.doc_state name)) (stores reply encode now n writer doc)
    unfolding handle_after_store advance
    store-advance reply encode now n writer doc =
        let s = record_store now writer doc (get_state node.doc_state n) in
        let out = capture cfg reply encode n s.last_writer doc node.frames in
        let v = view-record_store now writer doc node.doc_state n in
        let f : Text → Option (Burst Doc) = λ x. some (record {
          at = now;
          writer = named_writer writer (view (get node.doc_state x));
          doc = some doc;
        }) in
        let w = same_name f (view (get node.doc_state name)) n name in
        elim (Bool-cases (leb (s.last_auto_at + cfg.min_interval_ms) now)) [
          | inl e ↦
              rw (on, e, handle_after_store)
                (view-set node.doc_state n (rearm out.1 s) _ name (view-rearm out.1 s ∙ v) ∙ w)
          | inr e ↦ rw (on, e, handle_after_store) (view-set node.doc_state n (arm s) _ name v ∙ w)
        ]

    fire_idle-advance :
        (reply : Reply) (encode : Doc → State) (n : Text) (a : ℕ)
        → view (get (fire_idle cfg reply encode n a node).doc_state name)
          ≡ view (get node.doc_state name)
    unfolding fire_idle idle_frame
    fire_idle-advance reply encode n a = elim (Option-cases (get node.doc_state n)) [
      | inl e ↦ rw (e, fire_idle) refl
      | inr (s, e) ↦
          let fired : DocAutoState Doc = record s { idle_timer = none } in
          elim (Bool-cases (not (s.last_store_at == a) || not cfg.enabled)) [
            | inl h ↦ rw (e, h, fire_idle) (view-reset node.doc_state n s fired name e refl)
            | inr h ↦ elim (Option-cases s.live_doc) [
              | inl l ↦
                  rw (e, h, fire_idle)
                    (rw (l, idle_frame) (view-reset node.doc_state n s fired name e refl))
              | inr (doc, l) ↦
                  let out = capture cfg reply encode n s.last_writer doc node.frames in
                  rw (e, h, fire_idle)
                    (rw (l, idle_frame)
                      (view-reset node.doc_state n s (mark out.1 fired) name e
                        (view-mark out.1 fired)))
            ]
          ]
    ]

    fire-advance :
        (reply : Reply) (encode : Doc → State) (n : Text)
        → view (get (fire cfg reply encode n node).doc_state name) ≡ view (get node.doc_state name)
    unfolding fire
    fire-advance reply encode n = elim (Option-cases (get node.doc_state n)) [
      | inl e ↦ rw (e, fire) refl
      | inr (s, e) ↦ elim (Option-cases s.idle_timer) [
        | inl t ↦ rw (e, t, fire) refl
        | inr (a, t) ↦ rw (e, t, fire) (fire_idle-advance reply encode n a)
      ]
    ]

    dropped :
        (c : Bool)
        → view (if c then none else get node.doc_state name)
          ≡ (if c then none else view (get node.doc_state name))
    dropped true = refl
    dropped false = refl

    gone :
        (n : Text)
        → get node.doc_state n ≡ none
        → view (get node.doc_state name)
          ≡ (if text_eq n name then none else view (get node.doc_state name))
    gone n e = elim (Bool-cases (text_eq n name)) [
      | inl h ↦
          let q : n ≡ name = (text_eq_iff n name).0 h in
          rw (h) (ap (λ x. view (get node.doc_state x)) (sym q) ∙ ap view e)
      | inr h ↦ rw (h) refl
    ]

    unload-advance :
        (reply : Reply) (encode : Doc → State) (n : Text) (doc : Doc)
        → view (get (handle_before_unload cfg reply encode n doc node).doc_state name)
          ≡ advance name (view (get node.doc_state name)) (unloads reply encode n doc)
    unfolding handle_before_unload advance
    unload-advance reply encode n doc = elim (Option-cases (get node.doc_state n)) [
      | inl e ↦ rw (e, handle_before_unload) (gone n e)
      | inr (s, e) ↦
          rw (e, handle_before_unload)
            (ap view (get-delete node.doc_state n name) ∙ dropped (text_eq n name))
    ]

    step-advance :
        (e : Event Doc State)
        → view (get (step cfg node e).doc_state name)
          ≡ advance name (view (get node.doc_state name)) e
    unfolding step advance
    step-advance (stores reply encode now n writer doc) =
        store-advance reply encode now n writer doc
    step-advance (fires reply encode n) = fire-advance reply encode n
    step-advance (unloads reply encode n doc) = unload-advance reply encode n doc

  run-past :
      (cfg : Config) (node : Node Doc State) (name : Text) (events : List (Event Doc State))
      → cfg.enabled ≡ true
      → view (get (run cfg node events).doc_state name)
        ≡ past name (view (get node.doc_state name)) events
  unfolding run past
  run-past cfg node name [] on = refl
  run-past cfg node name (e ∷ events) on =
      run-past cfg (step cfg node e) name events on
      ∙ ap (λ b. past name b events) (step-advance cfg on node name e)

  -- With the feature on, however locks, writes and timers go, the state that a node keeps for a
  -- document tells exactly the latest store of the document since it was last unloaded, with its
  -- time, the document's handle and the writer named last, and there is no state where there was none.
  pub run-refines_history :
      (cfg : Config) (name : Text) (events : List (Event Doc State))
      → cfg.enabled ≡ true
      → view (get (run cfg quiet events).doc_state name) ≡ past name none events
  unfolding get
  run-refines_history cfg name events on = run-past cfg quiet name events on

-- ===== src/Collab/Snapshot/Writes.antt =====
-- Where the time of the last automatic frame in src/collab/autoSnapshot.ts comes from.
use mathlib.Core.Path.{subst}
use octo_docs_backend.Base.{
  ℕ, ◌+◌, ◌≡◌, refl, sym, ap, ◌∙◌, not, inl, inr, ◌⊎◌, Option, none, some, List, [], ◌∷◌, ◌++◌,
  Text, text_eq, text_eq_iff, leb, ◌==◌, ◌||◌, Option-cases, Bool-cases,
}
use octo_docs_backend.Collab.Snapshot.{
  Config, Reply, Attempt, wrote, DocAutoState, Frame, Node, Event, stores, fires, unloads, get, set,
  get_state, capture, mark, arm, record_store, rearm, handle_after_store, idle_frame, fire_idle,
  fire, handle_before_unload, step,
}
use octo_docs_backend.Collab.Snapshot.Captures.{
  clock, IsSilent, last_auto, last_auto-set, last_auto-delete, last_auto-stored, rearm-last_auto,
  rearm-wrote, mark-last_auto, IsCaptured, capture-cases,
}

module _ {Doc State : Type 0} where
  abbrev pub reply_of : Event Doc State → Reply
  reply_of (stores reply encode now n writer doc) = reply
  reply_of (fires reply encode n) = reply
  reply_of (unloads reply encode n doc) = reply

  module _ (cfg : Config) (name : Text) where
    -- An event that writes a frame of the document, with the clock that it reads afterwards.
    pub record AddsFrame (node : Node Doc State) (e : Event Doc State) (at : ℕ) : Type 0 where
      pub frame : Frame State
      pub added : (step cfg node e).frames ≡ node.frames ++ (frame ∷ [])
      pub named : frame.document_name ≡ name
      pub time : clock (reply_of e) ≡ some at

    -- Where the time after an event comes from.
    pub data Origin (node : Node Doc State) (e : Event Doc State) (at : ℕ) : Type 0 where
      kept : at ≡ last_auto (get node.doc_state name) → Origin node e at
      cleared : at ≡ 0 → Origin node e at
      fresh : AddsFrame node e at → Origin node e at

    module _ (node : Node Doc State) (e : Event Doc State) (n : Text) where
      -- The time of the document, given what the event does to that of its own.
      set-Origin :
          (s : DocAutoState Doc)
          → ((n ≡ name) → Origin node e s.last_auto_at)
          → Origin node e (last_auto (get (set node.doc_state n s) name))
      set-Origin s h = elim (Bool-cases (text_eq n name)) [
        | inl t ↦ rw (last_auto-set node.doc_state n s name, t) (h ((text_eq_iff n name).0 t))
        | inr t ↦ rw (last_auto-set node.doc_state n s name, t) (kept refl)
      ]

      moved : (n ≡ name) → last_auto (get node.doc_state n) ≡ last_auto (get node.doc_state name)
      moved q = ap (λ x. last_auto (get node.doc_state x)) q

      -- An event that sets a state with the same time.
      plain-Origin :
          (s : DocAutoState Doc)
          → (step cfg node e).doc_state ≡ set node.doc_state n s
          → s.last_auto_at ≡ last_auto (get node.doc_state n)
          → Origin node e (last_auto (get (step cfg node e).doc_state name))
      plain-Origin s r h =
          subst (λ x. Origin node e (last_auto (get x name))) (sym r)
            (set-Origin s (λ q. kept (h ∙ moved q)))

      -- An event that captures, and sets a state made of the attempt.
      capture-Origin :
          (f : Attempt → DocAutoState Doc) (out : List (Frame State) × Attempt)
          → step cfg node e ≡ record { doc_state = set node.doc_state n (f out.1); frames = out.0 }
          → ((a : Attempt) → IsSilent a → (f a).last_auto_at ≡ last_auto (get node.doc_state n))
          → ((later : ℕ) → (f (wrote later)).last_auto_at ≡ later)
          → IsSilent out.1 ⊎ IsCaptured (reply_of e) n node.frames out
          → Origin node e (last_auto (get (step cfg node e).doc_state name))
      capture-Origin f out r silent loud (inl h) =
          plain-Origin (f out.1) (ap (λ x. x.doc_state) r) (silent out.1 h)
      capture-Origin f out r silent loud (inr c) =
          let at : (f out.1).last_auto_at ≡ c.later =
            ap (λ x. (f x.1).last_auto_at) c.result ∙ loud c.later in
          subst (λ x. Origin node e (last_auto (get x.doc_state name))) (sym r)
            (set-Origin (f out.1) (λ q. fresh (record {
              frame = c.frame;
              added = ap (λ x. x.frames) r ∙ ap (λ x. x.0) c.result;
              named = c.named ∙ q;
              time = ap clock c.at ∙ ap some (sym at);
            })))

    store-Origin :
        (node : Node Doc State) (reply : Reply) (encode : Doc → State) (now : ℕ) (n : Text)
        (writer : Option Text) (doc : Doc)
        → let e = stores reply encode now n writer doc in
          Origin node e (last_auto (get (step cfg node e).doc_state name))
    unfolding step handle_after_store
    store-Origin node reply encode now n writer doc =
        let e : Event Doc State = stores reply encode now n writer doc in
        let s = record_store now writer doc (get_state node.doc_state n) in
        let same = last_auto-stored now writer doc node.doc_state n in
        elim (Bool-cases cfg.enabled) [
          | inr off ↦ rw (off, step, handle_after_store) (kept refl)
          | inl on ↦ elim (Bool-cases (leb (s.last_auto_at + cfg.min_interval_ms) now)) [
            | inr d ↦ plain-Origin node e n (arm s) (rw (on, d, step, handle_after_store) refl) same
            | inl d ↦
                capture-Origin node e n (λ a. rearm a s)
                  (capture cfg reply encode n s.last_writer doc node.frames)
                  (rw (on, d, step, handle_after_store) refl) (λ a h. rearm-last_auto a s h ∙ same)
                  (λ later. rearm-wrote later s)
                  (capture-cases cfg reply encode n s.last_writer doc node.frames)
          ]
        ]

    fire-Origin :
        (node : Node Doc State) (reply : Reply) (encode : Doc → State) (n : Text)
        → let e = fires reply encode n in
          Origin node e (last_auto (get (step cfg node e).doc_state name))
    unfolding step fire fire_idle idle_frame
    fire-Origin node reply encode n = elim (Option-cases (get node.doc_state n)) [
      | inl g ↦ rw (g, step, fire) (kept refl)
      | inr (s, g) ↦ elim (Option-cases s.idle_timer) [
        | inl t ↦ rw (g, t, step, fire) (kept refl)
        | inr (a, t) ↦
            let e : Event Doc State = fires reply encode n in
            let fired : DocAutoState Doc = record s { idle_timer = none } in
            let same : s.last_auto_at ≡ last_auto (get node.doc_state n) = ap last_auto (sym g) in
            elim (Bool-cases (not (s.last_store_at == a) || not cfg.enabled)) [
              | inl h ↦
                  plain-Origin node e n fired (rw (g, t, step, fire) (rw (g, h, fire_idle) refl))
                    same
              | inr h ↦ elim (Option-cases s.live_doc) [
                | inl l ↦
                    plain-Origin node e n fired
                      (rw (g, t, step, fire)
                        (rw (g, h, fire_idle)
                          (rw (l, idle_frame)
                            (ap (λ o. set node.doc_state n (record fired { live_doc = o })) l))))
                      same
                | inr (doc, l) ↦
                    let out = capture cfg reply encode n s.last_writer doc node.frames in
                    capture-Origin node e n (λ x. mark x fired) out
                      (rw (g, t, step, fire)
                        (rw (g, h, fire_idle)
                          (rw (l, idle_frame)
                            (ap {B = Node Doc State}
                              (λ o. record {
                                doc_state =
                                    set node.doc_state n
                                      (mark out.1 (record fired { live_doc = o }));
                                frames = out.0;
                              })
                              l))))
                      (λ x k. mark-last_auto x fired k ∙ same) (λ later. refl)
                      (capture-cases cfg reply encode n s.last_writer doc node.frames)
              ]
            ]
      ]
    ]

    unload-Origin :
        (node : Node Doc State) (reply : Reply) (encode : Doc → State) (n : Text) (doc : Doc)
        → let e = unloads reply encode n doc in
          Origin node e (last_auto (get (step cfg node e).doc_state name))
    unfolding step handle_before_unload
    unload-Origin node reply encode n doc = elim (Option-cases (get node.doc_state n)) [
      | inl g ↦ rw (g, step, handle_before_unload) (kept refl)
      | inr (s, g) ↦ elim (last_auto-delete node.doc_state n name) [
        | inl q ↦ rw (g, step, handle_before_unload) (kept q)
        | inr q ↦ rw (g, step, handle_before_unload) (cleared q)
      ]
    ]

    pub step-Origin :
        (node : Node Doc State) (e : Event Doc State)
        → Origin node e (last_auto (get (step cfg node e).doc_state name))
    step-Origin node (stores reply encode now n writer doc) =
        store-Origin node reply encode now n writer doc
    step-Origin node (fires reply encode n) = fire-Origin node reply encode n
    step-Origin node (unloads reply encode n doc) = unload-Origin node reply encode n doc

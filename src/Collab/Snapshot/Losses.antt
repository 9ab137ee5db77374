-- ===== src/Collab/Snapshot/Losses.antt =====
-- What src/collab/autoSnapshot.ts loses when a store hook throws.
use octo_docs_backend.Base.{
  ℕ, ◌+◌, ◌≤◌, ◌≡◌, ◌≢◌, refl, sym, ap, ◌∙◌, true, false, not, inl, inr, Option, some, List, [],
  ◌∷◌, Text, leb, ◌==◌, ==_iff, ◌||◌, Option-cases, Bool-cases, arith,
}
use octo_docs_backend.Collab.Snapshot.{
  Config, Reply, lock_throws, lock_taken, write_throws, written, threw, DocAutoState, Frame, Node,
  Event, stores, fires, unloads, get, set, derive_snapshot_target, get_state, capture, record_store,
  rearm, handle_after_store, fire_idle, fire, handle_before_unload, step, run, quiet,
}
use octo_docs_backend.Collab.Snapshot.Laws.{Answers, get-set_self, record_store-keeps}

module _ {Doc State : Type 0} (cfg : Config) (name : Text) where
  module _ (on : cfg.enabled ≡ true) (t : Text × ℕ)
      (target : derive_snapshot_target cfg name ≡ some t) where
    capture-threw :
        (reply : Reply) (encode : Doc → State) (writer : Text) (doc : Doc)
        (frames : List (Frame State))
        → (Answers reply → ⊥)
        → capture cfg reply encode name writer doc frames ≡ (frames, threw)
    unfolding capture
    capture-threw lock_throws encode writer doc frames h = refl
    capture-threw write_throws encode writer doc frames h = rw (target, capture) refl
    capture-threw lock_taken encode writer doc frames h = absurd (h tt)
    capture-threw (written later) encode writer doc frames h = absurd (h tt)

    -- What a store does whose lock or write throws.
    store_threw :
        (node : Node Doc State) (reply : Reply) (encode : Doc → State) (now : ℕ)
        (writer : Option Text) (doc : Doc) (s : DocAutoState Doc)
        → (Answers reply → ⊥)
        → get node.doc_state name ≡ some s
        → s.last_auto_at + cfg.min_interval_ms ≤ now
        → handle_after_store cfg reply encode now name writer doc node
          ≡ record node { doc_state = set node.doc_state name (record_store now writer doc s) }
    unfolding handle_after_store rearm
    store_threw node reply encode now writer doc s h g due =
        let r = record_store now writer doc s in
        let (q, _, _) = record_store-keeps now writer doc s in
        let e : leb (r.last_auto_at + cfg.min_interval_ms) now ≡ true = ground (arith, q, due) in
        let held : get_state node.doc_state name ≡ s =
          unfold get_state in (rw (g, get_state) refl) in
        rw (held, on, handle_after_store)
          (rw (e) (rw (capture-threw reply encode r.last_writer doc node.frames h) refl))

    stale_fire :
        (node : Node Doc State) (later : ℕ) (encode : Doc → State) (s : DocAutoState Doc)
        → get node.doc_state name ≡ some s
        → s.idle_timer ≢ some s.last_store_at
        → (fire cfg (written later) encode name node).frames ≡ node.frames
    unfolding fire fire_idle
    stale_fire node later encode s g n = elim (Option-cases s.idle_timer) [
      | inl e ↦ rw (g, e, fire) refl
      | inr (a, e) ↦
          let stale : (not (s.last_store_at == a) || not cfg.enabled) ≡ true =
            elim (Bool-cases (s.last_store_at == a)) [
              | inl k ↦ absurd (n (e ∙ ap some (sym ((==_iff s.last_store_at a).0 k))))
              | inr k ↦ rw (k) refl
            ] in
          rw (g, e, fire) (rw (g, stale, fire_idle) refl)
    ]

    -- When the lock or the write throws in a store hook that is due for an interval frame, the timer
    -- is not armed again: unless the timer pending before carries the time of this very store, its
    -- firing adds no frame, so the store gets no frame at its idle point.
    pub throw_loses_idle :
        (node : Node Doc State) (reply : Reply) (encode later_encode : Doc → State) (now later : ℕ)
        (writer : Option Text) (doc : Doc) (s : DocAutoState Doc)
        → (Answers reply → ⊥)
        → get node.doc_state name ≡ some s
        → s.last_auto_at + cfg.min_interval_ms ≤ now
        → s.idle_timer ≢ some now
        → (fire cfg
            (written later)
            later_encode
            name
            (handle_after_store cfg reply encode now name writer doc node)).frames
          ≡ node.frames
    throw_loses_idle node reply encode later_encode now later writer doc s h g due n =
        let r = record_store now writer doc s in
        let (_, timer, at) = record_store-keeps now writer doc s in
        let stored : Node Doc State = record node { doc_state = set node.doc_state name r } in
        ap (λ x. (fire cfg (written later) later_encode name x).frames)
          (store_threw node reply encode now writer doc s h g due)
        ∙ stale_fire stored later later_encode r (get-set_self name node.doc_state r)
            (λ e. n (sym timer ∙ e ∙ ap some at))

  -- With the feature off, no run of a node keeps any state or writes any frame.
  pub disabled-run :
      (events : List (Event Doc State)) → cfg.enabled ≡ false → run cfg quiet events ≡ quiet
  unfolding run step handle_after_store fire handle_before_unload get
  disabled-run [] off = refl
  disabled-run (stores reply encode now n writer doc ∷ events) off =
      rw (off, handle_after_store) (disabled-run events off)
  disabled-run (fires reply encode n ∷ events) off = disabled-run events off
  disabled-run (unloads reply encode n doc ∷ events) off = disabled-run events off

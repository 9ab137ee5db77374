-- ===== src/Board/Repair/Writes.antt =====
-- What planRepair of src/whiteboard/repair.ts writes.
use mathlib.Core.Path.{subst}
use mathlib.Core.Option.{some-injective}
use octo_docs_backend.Base.{
  ◌≡◌, refl, sym, Bool, true, inl, inr, Option, none, some, List, [], ◌∷◌, Text, codes, text_eq,
  All, Bool-cases, Option-cases, ℕ,
}
use octo_docs_backend.BotUids.{sort}
use octo_docs_backend.BotUids.Normal.{sort-All}
use octo_docs_backend.Board.Fields.{Number, text, Fields, get}
use octo_docs_backend.Board.Fields.Steps.{get-set}
use octo_docs_backend.Board.Normalize.{NormalizeContext, has, normalize_element}
use octo_docs_backend.Board.Normalize.Canonical.{IsBound, items_of, RefersTo, normalize-IsCanonical}
use octo_docs_backend.Board.Repair.{
  Board, FilePolicy, element_of, survivors, referenceable, index_fill, fill_of, filled, final_of,
  final_found, differs, writes_of, in_scope, plan_repair,
}
use octo_docs_backend.Board.Repair.Evidence.{InScope}
use octo_docs_backend.Board.Repair.Targets.{
  has-All, RefersOnly, named, bound_all, IsTarget, referenceable-AreTargets,
}

-- The frame, the container and the bound elements are among the ids.
record RefersWithin (ids : List Text) (f : Fields) : Type 0 where
  pub frame : RefersTo ids (get f (codes "frameId"))
  pub container : RefersTo ids (get f (codes "containerId"))
  pub bound : All (IsBound ids) (items_of (get f (codes "boundElements")))

filled-RefersWithin :
    (ids : List Text) (fill : Option Text) (f : Fields)
    → RefersWithin ids f
    → RefersWithin ids (filled fill f)
unfolding text_eq
filled-RefersWithin ids none f h = h
filled-RefersWithin ids (some k) f h =
    let at = get-set (codes "index") (text k) f in
    record {
      frame = subst (RefersTo ids) (sym (at (codes "frameId"))) h.frame;
      container = subst (RefersTo ids) (sym (at (codes "containerId"))) h.container;
      bound =
          subst (λ v. All (IsBound ids) (items_of v)) (sym (at (codes "boundElements"))) h.bound;
    }

in_scope-InScope :
    (scope : Option (List Text)) (ids : List Text) → All (InScope scope) (in_scope scope ids)
unfolding in_scope
in_scope-InScope none [] = tt
in_scope-InScope none (id ∷ ids) = (tt, in_scope-InScope none ids)
in_scope-InScope (some scope) [] = tt
in_scope-InScope (some scope) (id ∷ ids) = elim (Bool-cases (has scope id)) [
  | inl e ↦ rw (e) (e, in_scope-InScope (some scope) ids)
  | inr e ↦ rw (e) (in_scope-InScope (some scope) ids)
]

module _ (number_text : Number → Text) (is_order_key : Text → Bool)
    (generate_n_keys : Option Text → ℕ → List Text) where
  final_of-RefersWithin :
      (refs : List Text) (fills : List (Text × Text)) (id : Text) (f final : Fields)
      → final_of number_text is_order_key generate_n_keys refs fills id f ≡ some final
      → RefersWithin refs final
  unfolding final_of
  final_of-RefersWithin refs fills id f final h =
      let ctx : NormalizeContext = record { element_ids = some refs; file_ids = none } in
      elim (Option-cases (normalize_element number_text is_order_key ctx (some f))) [
        | inl e ↦ cc
        | inr (n, e) ↦
            let c = normalize-IsCanonical number_text is_order_key ctx refs f n refl e in
            subst (RefersWithin refs)
              (some-injective (filled (fill_of fills id) n) final (rw (e, final_of) at h))
              (filled-RefersWithin refs (fill_of fills id) n
                (record { frame = c.frame; container = c.container; bound = c.bound }))
      ]

  final_found-RefersWithin :
      (refs : List Text) (fills : List (Text × Text)) (id : Text) (el : Option Fields)
      (final : Fields)
      → final_found number_text is_order_key generate_n_keys refs fills id el ≡ some final
      → RefersWithin refs final
  final_found-RefersWithin refs fills id none final h = cc
  final_found-RefersWithin refs fills id (some f) final h =
      final_of-RefersWithin refs fills id f final h

  writes_of-All :
      (P : Text → Type 0) (elements : List (Text × Fields)) (refs : List Text)
      (fills : List (Text × Text)) (ids : List Text)
      → All P ids
      → All
          (λ w. P w.0 × RefersWithin refs w.1)
          (writes_of number_text is_order_key generate_n_keys elements refs fills ids)
  unfolding writes_of
  writes_of-All P elements refs fills [] h = tt
  writes_of-All P elements refs fills (id ∷ ids) (h, hs) =
      let rest = writes_of-All P elements refs fills ids hs in
      let el = element_of elements id in
      elim (Option-cases (final_found number_text is_order_key generate_n_keys refs fills id el)) [
        | inl e ↦ rw (e, writes_of) rest
        | inr (final, e) ↦ elim (Bool-cases (differs el final)) [
          | inl d ↦
              rw (e, d, writes_of) ((h, final_found-RefersWithin refs fills id el final e), rest)
          | inr d ↦ rw (e, d, writes_of) rest
        ]
      ]

  only_targets :
      (P T : Text → Type 0) (refs : List Text) (writes : List (Text × Fields))
      → ((id : Text) → has refs id ≡ true → T id)
      → All (λ w. P w.0 × RefersWithin refs w.1) writes
      → All (λ w. P w.0 × RefersOnly T w.1) writes
  only_targets P T refs [] h _ = tt
  only_targets P T refs ((id, f) ∷ writes) h ((p, r), rs) = (
    (
      p,
      record {
        frame = named T refs h (get f (codes "frameId")) r.frame;
        container = named T refs h (get f (codes "containerId")) r.container;
        bound = bound_all T refs h (items_of (get f (codes "boundElements"))) r.bound;
      },
    ),
    only_targets P T refs writes h rs,
  )

  -- Whatever keys are generated, every element that a plan writes is in its scope, and its frame, its
  -- container and all its bound elements name elements of the board that normalizeElement does not
  -- reject, that are not marked as deleted, and that are no images whose file the policy lists as
  -- deleted and the board does not hold.
  pub plan_repair-WritesWithin :
      (board : Board) (scope : Option (List Text)) (policy : FilePolicy)
      → All
          (λ w.
            InScope scope w.0
            × RefersOnly
                (IsTarget number_text is_order_key generate_n_keys board.elements board.file_ids
                  policy)
                w.1)
          (plan_repair number_text is_order_key generate_n_keys board scope policy).writes
  unfolding plan_repair
  plan_repair-WritesWithin board scope policy =
      let target =
        IsTarget number_text is_order_key generate_n_keys board.elements board.file_ids policy in
      let refs =
        referenceable number_text is_order_key generate_n_keys board.file_ids policy
          board.elements in
      let alive =
        survivors number_text is_order_key generate_n_keys board.file_ids policy board.elements in
      let targets =
        referenceable-AreTargets number_text is_order_key generate_n_keys board.elements
          board.elements board.file_ids policy (λ entry m. m) in
      only_targets (InScope scope) target refs _ (λ id k. has-All target refs id targets k)
        (writes_of-All (InScope scope) board.elements refs
          (index_fill number_text is_order_key generate_n_keys board.elements (sort alive))
          (sort (in_scope scope alive))
          (sort-All (InScope scope) (in_scope scope alive) (in_scope-InScope scope alive)))

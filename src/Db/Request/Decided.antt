-- ===== src/Db/Request/Decided.antt =====
-- What `decide` of src/db/repos/docAccessRequestRepo.ts leaves to read.
use mathlib.Core.Option.{some-injective}
use octo_docs_backend.Base.{
  ℕ, ◌≡◌, refl, sym, ap, ◌∙◌, true, false, inl, inr, Option, some, List, [], ◌∷◌, Text, Bool-cases,
  Option-cases, arith,
}
use octo_docs_backend.BotUids.{Value}
use octo_docs_backend.Db.Request.{
  RequestRow, ReadRow, has_id, first, is_open, mark, decide, normalized, get_by_request_id,
  request_status_pending,
}
use octo_docs_backend.Db.Request.Laws.{first_hit, first_miss}

-- A row with a decision.
abbrev pub decided_row : ℕ → Text → Text → RequestRow → RequestRow
decided_row status decided_by note r = record r {
  status = status;
  decided_by = decided_by;
  decision_note = note;
}

module _ (d id : Text) (status : ℕ) (by note : Text) where
  mark_open :
      (r : RequestRow) (rows : List RequestRow)
      → is_open d id r ≡ true
      → mark d id status by note (r ∷ rows)
        ≡ decided_row status by note r ∷ mark d id status by note rows
  unfolding mark
  mark_open r rows h = rw (h, mark) refl

  mark_shut :
      (r : RequestRow) (rows : List RequestRow)
      → is_open d id r ≡ false
      → mark d id status by note (r ∷ rows) ≡ r ∷ mark d id status by note rows
  unfolding mark
  mark_shut r rows h = rw (h, mark) refl

  -- The first row with an id, if it is pending, is the first one after the decision.
  first-mark :
      (rows : List RequestRow) (q : RequestRow)
      → first (has_id d id) rows ≡ some q
      → q.status ≡ request_status_pending
      → first (has_id d id) (mark d id status by note rows) ≡ some (decided_row status by note q)
  unfolding is_open has_id first
  first-mark [] q h p = cc
  first-mark (r ∷ rows) q h p = elim (Bool-cases (has_id d id r)) [
    | inl e ↦
        let same : r ≡ q = some-injective r q (sym (first_hit (has_id d id) r rows e) ∙ h) in
        let open_row : is_open d id r ≡ true = ground (arith, e, ap (λ x. x.status) same ∙ p) in
        ap (first (has_id d id)) (mark_open r rows open_row)
        ∙ first_hit (has_id d id) (decided_row status by note r) (mark d id status by note rows) e
        ∙ ap (λ x. some (decided_row status by note x)) same
    | inr e ↦
        ap (first (has_id d id)) (mark_shut r rows (ground (arith, e)))
        ∙ first_miss (has_id d id) r (mark d id status by note rows) e
        ∙ first-mark rows q (sym (first_miss (has_id d id) r rows e) ∙ h) p
  ]

  -- A pending request that is read by its id is read with the decision afterwards.
  pub get_by_request_id-decide :
      (json_parse : Text → Option Value) (rows : List RequestRow) (q : ReadRow)
      → get_by_request_id json_parse d id rows ≡ some q
      → q.row.status ≡ request_status_pending
      → get_by_request_id json_parse d id (decide d id status by note rows).0
        ≡ some (record q { row = decided_row status by note q.row })
  unfolding get_by_request_id decide normalized
  get_by_request_id-decide json_parse rows q h p = elim (Option-cases (first (has_id d id) rows)) [
    | inl e ↦ cc (rw (e, get_by_request_id) at h)
    | inr (r, e) ↦
        let k : normalized json_parse r ≡ q =
          some-injective (normalized json_parse r) q (rw (e, get_by_request_id) at h) in
        let m = first-mark rows r e (ap (λ x. x.row.status) k ∙ p) in
        rw (m, get_by_request_id)
          (ap {A = ReadRow} (λ x. some (record x { row = decided_row status by note x.row })) k)
  ]

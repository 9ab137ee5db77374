-- ===== src/Db/Request/Laws.antt =====
-- Reading request rows back (src/db/repos/docAccessRequestRepo.ts).
use mathlib.Core.Option.{some-injective}
use octo_docs_backend.Base.{
  ℕ, ◌≡◌, ◌≢◌, refl, sym, ap, ◌∙◌, Bool, true, false, inl, inr, Option, some, List, [], ◌∷◌, map,
  Text, text_eq_iff, text_eq_refl, ==_iff, All, Bool-cases, Option-cases, arith,
}
use octo_docs_backend.BotUids.{Value, text, array, parse_stored_bot_uids}
use octo_docs_backend.BotUids.Normal.{parse_stored-again}
use octo_docs_backend.Db.Request.{
  RequestRow, ReadRow, has_key, has_id, first, put, is_open, mark, any_open, decide, fresh_row,
  submit, normalized, get_by_request_id, request_status_pending, read_back,
}

-- No row of the document carries the request id.
abbrev pub IsUnused : Text → Text → List RequestRow → Type 0
IsUnused doc_id request_id = All (λ r. has_id doc_id request_id r ≡ false)

-- A row that a first submission may have written.
pub record IsFresh (r : RequestRow) : Type 0 where
  pub pending : r.status ≡ request_status_pending
  pub undecided : r.decided_by ≡ []
  pub no_note : r.decision_note ≡ []

-- The update of a row with the key of a fresh one.
abbrev replaced : RequestRow → RequestRow → RequestRow
replaced fresh r = record r {
  requested_role = fresh.requested_role;
  reason = fresh.reason;
  status = request_status_pending;
  decided_by = [];
  decision_note = [];
  request_id = fresh.request_id;
  bot_uids = fresh.bot_uids;
}

replaced_fresh :
    (fresh r : RequestRow)
    → IsFresh fresh
    → has_key fresh.doc_id fresh.uid r ≡ true
    → replaced fresh r ≡ fresh
unfolding has_key
replaced_fresh fresh r h k = ground (
  arith,
  h.pending,
  h.undecided,
  h.no_note,
  text_eq_iff r.doc_id fresh.doc_id,
  text_eq_iff r.uid fresh.uid,
)

pub put_hit :
    (fresh r : RequestRow) (rows : List RequestRow)
    → IsFresh fresh
    → has_key fresh.doc_id fresh.uid r ≡ true
    → put fresh (r ∷ rows) ≡ fresh ∷ rows
unfolding put
put_hit fresh r rows h e = rw (e, put) (ap (λ x. x ∷ rows) (replaced_fresh fresh r h e))

pub put_miss :
    (fresh r : RequestRow) (rows : List RequestRow)
    → has_key fresh.doc_id fresh.uid r ≡ false
    → put fresh (r ∷ rows) ≡ r ∷ put fresh rows
unfolding put
put_miss fresh r rows e = rw (e, put) refl

module _ (test : RequestRow → Bool) where
  pub first_hit :
      (r : RequestRow) (rows : List RequestRow) → test r ≡ true → first test (r ∷ rows) ≡ some r
  unfolding first
  first_hit r rows e = rw (e, first) refl

  pub first_miss :
      (r : RequestRow) (rows : List RequestRow)
      → test r ≡ false
      → first test (r ∷ rows) ≡ first test rows
  unfolding first
  first_miss r rows e = rw (e, first) refl

  -- A fresh row that passes a test is what the test finds after its submission, if no old row
  -- under another key passes.
  first-put :
      (fresh : RequestRow) (rows : List RequestRow)
      → IsFresh fresh
      → test fresh ≡ true
      → All (λ r. (has_key fresh.doc_id fresh.uid r ≡ false) → test r ≡ false) rows
      → first test (put fresh rows) ≡ some fresh
  first-put fresh [] h t _ = unfold put in first_hit fresh [] t
  first-put fresh (r ∷ rows) h t (u, us) = elim (Bool-cases (has_key fresh.doc_id fresh.uid r)) [
    | inl e ↦ ap (first test) (put_hit fresh r rows h e) ∙ first_hit fresh rows t
    | inr e ↦
        ap (first test) (put_miss fresh r rows e)
        ∙ first_miss r (put fresh rows) (u e)
        ∙ first-put fresh rows h t us
  ]

has_id_self : (r : RequestRow) → has_id r.doc_id r.request_id r ≡ true
unfolding has_id
has_id_self r = ground (arith, text_eq_refl r.doc_id, text_eq_refl r.request_id)

has_key_self : (r : RequestRow) → has_key r.doc_id r.uid r ≡ true
unfolding has_key
has_key_self r = ground (arith, text_eq_refl r.doc_id, text_eq_refl r.uid)

unused_weak :
    (doc_id request_id d u : Text) (rows : List RequestRow)
    → IsUnused doc_id request_id rows
    → All (λ r. (has_key d u r ≡ false) → has_id doc_id request_id r ≡ false) rows
unused_weak doc_id request_id d u [] h = tt
unused_weak doc_id request_id d u (r ∷ rows) (h, hs) =
    (λ _. h, unused_weak doc_id request_id d u rows hs)

key_weak :
    (d u : Text) (rows : List RequestRow)
    → All (λ r. (has_key d u r ≡ false) → has_key d u r ≡ false) rows
key_weak d u [] = tt
key_weak d u (r ∷ rows) = (λ e. e, key_weak d u rows)

module _ (json_parse : Text → Option Value) (d u : Text) (n : ℕ) (reason : Text) (bots : List Text)
    (candidate : Text) where
  pub fresh_row-IsFresh : IsFresh (fresh_row json_parse d u n reason bots candidate)
  unfolding fresh_row
  fresh_row-IsFresh = record { pending = refl; undecided = refl; no_note = refl }

  found :
      (rows : List RequestRow)
      → first (has_id d candidate) rows ≡ some (fresh_row json_parse d u n reason bots candidate)
      → get_by_request_id json_parse d candidate rows
        ≡ some (record {
          row = fresh_row json_parse d u n reason bots candidate;
          bot_uids = parse_stored_bot_uids json_parse (array (map text bots));
        })
  unfolding get_by_request_id normalized fresh_row
  found rows h =
      rw (h, get_by_request_id)
        (ap
          (λ b.
            some (record { row = fresh_row json_parse d u n reason bots candidate; bot_uids = b }))
          (parse_stored-again json_parse (array (map text bots))))

  -- A submission whose new request id no row of the document has yet returns that id as pending,
  -- and the id then names exactly what was submitted, with the bots as the stored-list parser reads
  -- them and no decision.
  pub get_by_request_id-submit :
      (rows : List RequestRow)
      → IsUnused d candidate rows
      → let out = submit json_parse d u n reason bots candidate rows in
        (out.1 ≡ (candidate, request_status_pending))
        × (get_by_request_id json_parse d candidate out.0
            ≡ some (record {
              row = fresh_row json_parse d u n reason bots candidate;
              bot_uids = parse_stored_bot_uids json_parse (array (map text bots));
            }))
  unfolding submit
  get_by_request_id-submit rows h =
      let fresh = fresh_row json_parse d u n reason bots candidate in
      let self : has_id d candidate fresh ≡ true = has_id_self fresh in
      let key : has_key d u fresh ≡ true = has_key_self fresh in
      (
        ap (read_back candidate)
            (first-put (has_key d u) fresh rows fresh_row-IsFresh key (key_weak d u rows)),
        found (put fresh rows) (
            first-put (has_id d candidate) fresh rows fresh_row-IsFresh self
              (unused_weak d candidate d u rows h)),
      )

-- No row of the document with the request id is pending.
abbrev pub IsClosed : Text → Text → List RequestRow → Type 0
IsClosed doc_id request_id rows = any_open doc_id request_id rows ≡ false

-- Deciding a request closes it, and keeps every closed request closed.
pub decide-IsClosed :
    (d id : Text) (status : ℕ) (by note : Text) (rows : List RequestRow)
    → status ≢ request_status_pending
    → IsClosed d id (decide d id status by note rows).0
unfolding decide mark any_open is_open
decide-IsClosed d id status by note [] h = refl
decide-IsClosed d id status by note (r ∷ rows) h =
    ground (arith, decide-IsClosed d id status by note rows h, ==_iff status 1)

pub decide-keeps :
    (d id e other : Text) (status : ℕ) (by note : Text) (rows : List RequestRow)
    → status ≢ request_status_pending
    → IsClosed e other rows
    → IsClosed e other (decide d id status by note rows).0
unfolding decide mark any_open is_open has_id
decide-keeps d id e other status by note [] h k = refl
decide-keeps d id e other status by note (r ∷ rows) h k =
    ground (arith, k, decide-keeps d id e other status by note rows h, ==_iff status 1)

-- A submission under another id keeps a closed request closed.
put-keeps :
    (e other : Text) (fresh : RequestRow) (rows : List RequestRow)
    → fresh.request_id ≢ other
    → IsClosed e other rows
    → IsClosed e other (put fresh rows)
unfolding put any_open is_open has_id
put-keeps e other fresh [] h k = ground (arith, text_eq_iff fresh.request_id other)
put-keeps e other fresh (r ∷ rows) h k =
    ground (arith, k, text_eq_iff fresh.request_id other, put-keeps e other fresh rows h)

pub submit-keeps :
    (json_parse : Text → Option Value) (d u : Text) (n : ℕ) (reason : Text) (bots : List Text)
    (candidate e other : Text) (rows : List RequestRow)
    → candidate ≢ other
    → IsClosed e other rows
    → IsClosed e other (submit json_parse d u n reason bots candidate rows).0
unfolding submit fresh_row
submit-keeps json_parse d u n reason bots candidate e other rows h k =
    put-keeps e other (fresh_row json_parse d u n reason bots candidate) rows h k

first_open :
    (d id : Text) (rows : List RequestRow) (q : RequestRow)
    → first (has_id d id) rows ≡ some q
    → q.status ≡ request_status_pending
    → any_open d id rows ≡ true
unfolding any_open is_open first
first_open d id [] q h p = cc
first_open d id (r ∷ rows) q h p = elim (Bool-cases (has_id d id r)) [
  | inl e ↦
      let k : some r ≡ some q = sym (first_hit (has_id d id) r rows e) ∙ h in
      let st : r.status ≡ 1 = ap (λ x. x.status) (some-injective r q k) ∙ p in ground (arith, e, st)
  | inr e ↦
      let k = sym (first_miss (has_id d id) r rows e) ∙ h in
      ground (arith, e, first_open d id rows q k p)
]

-- A request that is read as pending is open.
pub found_open :
    (json_parse : Text → Option Value) (d id : Text) (rows : List RequestRow) (q : ReadRow)
    → get_by_request_id json_parse d id rows ≡ some q
    → q.row.status ≡ request_status_pending
    → any_open d id rows ≡ true
unfolding get_by_request_id normalized
found_open json_parse d id rows q h p = elim (Option-cases (first (has_id d id) rows)) [
  | inl e ↦ cc (rw (e, get_by_request_id) at h)
  | inr (r, e) ↦
      let k : some (normalized json_parse r) ≡ some q = rw (e, get_by_request_id) at h in
      first_open d id rows r e
        (ap (λ x. x.row.status) (some-injective (normalized json_parse r) q k) ∙ p)
]

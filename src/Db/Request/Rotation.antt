-- ===== src/Db/Request/Rotation.antt =====
-- The rotation of request ids by `submit` (src/db/repos/docAccessRequestRepo.ts).
use mathlib.Core.Path.{subst}
use octo_docs_backend.Base.{
  ℕ, ◌≡◌, ◌≢◌, refl, sym, ap, ◌∙◌, Bool, true, false, inl, inr, Option, none, some, List, [], ◌∷◌,
  Text, text_eq_iff, All, Bool-cases, arith,
}
use octo_docs_backend.BotUids.{Value}
use octo_docs_backend.Db.Request.{
  RequestRow, has_key, has_id, first, put, fresh_row, submit, get_by_request_id,
}
use octo_docs_backend.Db.Request.Laws.{
  IsUnused, IsFresh, put_hit, put_miss, first_hit, first_miss, fresh_row-IsFresh,
}

-- No two rows of a document carry the same request id.
abbrev pub IsAddressed : List RequestRow → Type 0
IsAddressed [] = Unit
IsAddressed (r ∷ rows) = IsUnused r.doc_id r.request_id rows × IsAddressed rows

first-none :
    (d id : Text) (rows : List RequestRow) → IsUnused d id rows → first (has_id d id) rows ≡ none
unfolding first
first-none d id [] h = refl
first-none d id (r ∷ rows) (h, hs) = first_miss (has_id d id) r rows h ∙ first-none d id rows hs

-- What a search finds satisfies what all rows satisfy, and the test.
module _ (P : RequestRow → Type 0) (test : RequestRow → Bool) (r : RequestRow) where
  first-All :
      (rows : List RequestRow) → All P rows → first test rows ≡ some r → P r × (test r ≡ true)
  first-All [] _ h = unfold first in cc
  first-All (x ∷ rows) (p, ps) h = elim (Bool-cases (test x)) [
    | inl e ↦
        let q : some x ≡ some r = sym (first_hit test x rows e) ∙ h in
        let s : x ≡ r = ap (λ o. elim o [ none ↦ x | some y ↦ y ]) q in
        subst (λ y. P y × (test y ≡ true)) s (p, e)
    | inr e ↦ first-All rows ps (sym (first_miss test x rows e) ∙ h)
  ]

other_id :
    (x r : RequestRow) (d u : Text)
    → has_id x.doc_id x.request_id r ≡ false
    → has_key d u r ≡ true
    → has_id d r.request_id x ≡ false
unfolding has_id has_key
other_id x r d u h k = ground (
  arith,
  text_eq_iff r.doc_id x.doc_id,
  text_eq_iff r.request_id x.request_id,
  text_eq_iff r.doc_id d,
  text_eq_iff x.doc_id d,
  text_eq_iff x.request_id r.request_id,
)

has_id_apart :
    (fresh : RequestRow) (d id : Text) → fresh.request_id ≢ id → has_id d id fresh ≡ false
unfolding has_id
has_id_apart fresh d id h = ground (arith, text_eq_iff fresh.request_id id)

at-IsUnused :
    (r : RequestRow) (d u : Text) (rows : List RequestRow)
    → has_key d u r ≡ true
    → IsUnused r.doc_id r.request_id rows
    → IsUnused d r.request_id rows
at-IsUnused r d u rows k h =
    let q : r.doc_id ≡ d = unfold has_key in ground (arith, text_eq_iff r.doc_id d) in
    subst (λ x. IsUnused x r.request_id rows) q h

put-IsUnused :
    (fresh r : RequestRow) (rows : List RequestRow)
    → IsFresh fresh
    → fresh.request_id ≢ r.request_id
    → IsAddressed rows
    → first (has_key fresh.doc_id fresh.uid) rows ≡ some r
    → IsUnused fresh.doc_id r.request_id (put fresh rows)
put-IsUnused fresh r [] f n a h = unfold first in cc
put-IsUnused fresh r (x ∷ rows) f n (a, rest) h =
    elim (Bool-cases (has_key fresh.doc_id fresh.uid x)) [
      | inl e ↦
          let q : some x ≡ some r = sym (first_hit (has_key fresh.doc_id fresh.uid) x rows e) ∙ h in
          let s : x ≡ r = ap (λ o. elim o [ none ↦ x | some y ↦ y ]) q in
          subst (IsUnused fresh.doc_id r.request_id) (sym (put_hit fresh x rows f e)) (
            has_id_apart fresh fresh.doc_id r.request_id n,
            subst (λ y. IsUnused fresh.doc_id y.request_id rows) s
                (at-IsUnused x fresh.doc_id fresh.uid rows e a),
          )
      | inr e ↦
          let later = sym (first_miss (has_key fresh.doc_id fresh.uid) x rows e) ∙ h in
          let (p, k) =
            first-All (λ y. has_id x.doc_id x.request_id y ≡ false) (has_key fresh.doc_id fresh.uid)
              r rows a later in
          subst (IsUnused fresh.doc_id r.request_id) (sym (put_miss fresh x rows e))
            (other_id x r fresh.doc_id fresh.uid p k, put-IsUnused fresh r rows f n rest later)
    ]

-- When no two requests of a document share an id, a submission under a new id by a user who has a
-- request there leaves that request's old id without a row: a card for the earlier submission
-- finds nothing.
pub stale_id :
    (json_parse : Text → Option Value) (d u : Text) (n : ℕ) (reason : Text) (bots : List Text)
    (candidate : Text) (rows : List RequestRow) (old : RequestRow)
    → IsAddressed rows
    → first (has_key d u) rows ≡ some old
    → candidate ≢ old.request_id
    → get_by_request_id json_parse d old.request_id
        (submit json_parse d u n reason bots candidate rows).0
      ≡ none
unfolding submit get_by_request_id fresh_row
stale_id json_parse d u n reason bots candidate rows old a h k =
    let fresh = fresh_row json_parse d u n reason bots candidate in
    let e = first-none d old.request_id (put fresh rows) (
      put-IsUnused fresh old rows (fresh_row-IsFresh json_parse d u n reason bots candidate) k a
        h) in
    rw (e, get_by_request_id) refl

-- ===== src/BotUids/Laws.antt =====
-- The parsers of src/util/botUids.ts against one another and against the lists they may return.
use mathlib.Core.Path.{subst}
use octo_docs_backend.Base.{
  append_nil, append_one, ltb, suc, Result-cases, ok-injective, ◌≤◌, ◌≡◌, refl, sym, ap, ◌∙◌, true,
  false, inl, inr, Option, List, [], ◌∷◌, ◌++◌, ◌||◌, Text, text_eq, text_eq_iff, length, Result,
  ok, err, All, Bool-cases, arith,
}
use octo_docs_backend.BotUids.{
  Element, text, not_text, Value, array, BotUidsValidationError, max_bot_uids, is_clean_uid, has,
  insert, sort, collect_strict, parse_request_bot_uids, collect_closed, parse_stored_bot_uids,
  text_le,
}

-- What the fail-closed parsers make of the strict parser's answer.
abbrev pub or_nothing : Result BotUidsValidationError (List Text) → List Text
or_nothing (ok uids) = uids
or_nothing (err e) = []

-- Every uid is clean and none stands twice.
abbrev pub IsDistinct : List Text → Type 0
IsDistinct [] = Unit
IsDistinct (s ∷ ts) = (has ts s ≡ false) × IsDistinct ts

abbrev pub IsClean : Text → Type 0
IsClean s = is_clean_uid s ≡ true

abbrev pub IsSorted : List Text → Type 0
IsSorted [] = Unit
IsSorted (s ∷ ts) = All (λ t. text_le s t ≡ true) ts × IsSorted ts

pub closed_strict :
    (seen : List Text) (raws : List Element)
    → collect_closed seen raws
      ≡ or_nothing (elim (collect_strict seen raws) [ ok u ↦ ok (sort u) | err e ↦ err e ])
unfolding collect_closed collect_strict
closed_strict seen [] = refl
closed_strict seen (not_text ∷ raws) = refl
closed_strict seen (text raw ∷ raws) = ground (arith, closed_strict (seen ++ (raw ∷ [])) raws)

-- A stored array means what the strict parser of request bodies reads in it, and nothing at all
-- where that parser rejects it.
pub parse_stored-eq_request :
    (json_parse : Text → Option Value) (raws : List Element)
    → parse_stored_bot_uids json_parse (array raws)
      ≡ or_nothing (parse_request_bot_uids (array raws))
unfolding parse_stored_bot_uids parse_request_bot_uids
parse_stored-eq_request json_parse raws = ground (arith, closed_strict [] raws)

pub has_append : (xs ys : List Text) (s : Text) → has (xs ++ ys) s ≡ (has xs s || has ys s)
unfolding has
has_append [] ys s = refl
has_append (x ∷ xs) ys s = ground (arith, has_append xs ys s)

-- The texts of a list of elements, in order.
abbrev pub texts : List Text → List Element
texts [] = []
texts (s ∷ ts) = text s ∷ texts ts

-- A list that the strict loop accepts is the list of its texts, each of them clean, none twice and
-- none among those seen before.
pub record IsAccepted (seen : List Text) (raws : List Element) (uids : List Text) : Type 0 where
  pub rest : List Text
  pub all_texts : raws ≡ texts rest
  pub appended : uids ≡ seen ++ rest
  pub clean : All IsClean rest
  pub distinct : IsDistinct rest
  pub unseen : All (λ s. has seen s ≡ false) rest

pub text_eq_sym : (s t : Text) → text_eq s t ≡ text_eq t s
text_eq_sym s t = ground (arith, text_eq_iff s t, text_eq_iff t s)

unseen_split :
    (seen : List Text) (raw : Text) (rest : List Text)
    → All (λ s. has (seen ++ (raw ∷ [])) s ≡ false) rest
    → All (λ s. has seen s ≡ false) rest × (has rest raw ≡ false)
unfolding has
unseen_split seen raw [] h = (tt, refl)
unseen_split seen raw (s ∷ rest) (h, hs) =
    let r = unseen_split seen raw rest hs in
    let a : (has seen s || has (raw ∷ []) s) ≡ false = sym (has_append seen (raw ∷ []) s) ∙ h in
    ((ground (arith, a), r.0), ground (arith, a, r.1, text_eq_sym raw s))

pub collect_strict-IsAccepted :
    (seen : List Text) (raws : List Element) (uids : List Text)
    → collect_strict seen raws ≡ ok uids
    → IsAccepted seen raws uids
unfolding collect_strict
collect_strict-IsAccepted seen [] uids h = record {
  rest = [];
  all_texts = refl;
  appended = ground (arith, h, append_nil seen);
  clean = tt;
  distinct = tt;
  unseen = tt;
}
collect_strict-IsAccepted seen (not_text ∷ raws) uids h = cc
collect_strict-IsAccepted seen (text raw ∷ raws) uids h = elim (Bool-cases (is_clean_uid raw)) [
  | inr e ↦ cc (rw (e) at h)
  | inl e ↦ elim (Bool-cases (has seen raw)) [
    | inl k ↦ cc (rw (e, k) at h)
    | inr k ↦
        let r = collect_strict-IsAccepted (seen ++ (raw ∷ [])) raws uids (rw (e, k) at h) in
        let u = unseen_split seen raw r.rest r.unseen in
        record {
          rest = raw ∷ r.rest;
          all_texts = ap (λ x. text raw ∷ x) r.all_texts;
          appended = r.appended ∙ append_one seen raw r.rest;
          clean = (e, r.clean);
          distinct = (u.1, r.distinct);
          unseen = (k, u.0);
        }
  ]
]

text_le_total : (s t : Text) → text_le s t ≡ false → text_le t s ≡ true
unfolding text_le
text_le_total [] t h = cc
text_le_total (x ∷ s) [] h = refl
text_le_total (x ∷ s) (y ∷ t) h = ground (arith, h, text_le_total s t)

text_le_trans : (s t u : Text) → text_le s t ≡ true → text_le t u ≡ true → text_le s u ≡ true
unfolding text_le
text_le_trans [] t u h k = refl
text_le_trans (x ∷ s) [] u h k = cc
text_le_trans (x ∷ s) (y ∷ t) [] h k = cc
text_le_trans (x ∷ s) (y ∷ t) (z ∷ u) h k = ground (arith, h, k, text_le_trans s t u)

below-All :
    (s t : Text) (ts : List Text)
    → text_le s t ≡ true
    → All (λ u. text_le t u ≡ true) ts
    → All (λ u. text_le s u ≡ true) ts
below-All s t [] h _ = tt
below-All s t (u ∷ ts) h (k, ks) = (text_le_trans s t u h k, below-All s t ts h ks)

pub All-insert :
    (P : Text → Type 0) (s : Text) (ts : List Text) → P s → All P ts → All P (insert s ts)
unfolding insert
All-insert P s [] h _ = (h, tt)
All-insert P s (t ∷ ts) h (k, ks) = elim (Bool-cases (text_le s t)) [
  | inl e ↦ rw (e, insert) (h, (k, ks))
  | inr e ↦ rw (e, insert) (k, All-insert P s ts h ks)
]

insert-IsSorted : (s : Text) (ts : List Text) → IsSorted ts → IsSorted (insert s ts)
unfolding insert
insert-IsSorted s [] h = (tt, tt)
insert-IsSorted s (t ∷ ts) (h, hs) = elim (Bool-cases (text_le s t)) [
  | inl e ↦ rw (e, insert) ((e, below-All s t ts e h), (h, hs))
  | inr e ↦
      rw (e, insert)
        (All-insert (λ u. text_le t u ≡ true) s ts (text_le_total s t e) h, insert-IsSorted s ts hs)
]

pub sort-IsSorted : (ts : List Text) → IsSorted (sort ts)
unfolding sort
sort-IsSorted [] = tt
sort-IsSorted (t ∷ ts) = insert-IsSorted t (sort ts) (sort-IsSorted ts)

pub has-insert :
    (s : Text) (ts : List Text) (u : Text) → has (insert s ts) u ≡ (text_eq s u || has ts u)
unfolding insert has
has-insert s [] u = refl
has-insert s (t ∷ ts) u = ground (arith, has-insert s ts u)

pub has-sort : (ts : List Text) (u : Text) → has (sort ts) u ≡ has ts u
unfolding sort has
has-sort [] u = refl
has-sort (t ∷ ts) u = ground (arith, has-insert t (sort ts) u, has-sort ts u)

-- A body that is accepted is a list of at most 50 clean, distinct texts.
pub record IsOrderly (raws : List Element) (uids : List Text) : Type 0 where
  pub uids_of : List Text
  pub all_texts : raws ≡ texts uids_of
  pub count : length uids_of ≤ max_bot_uids
  pub clean : All IsClean uids_of
  pub distinct : IsDistinct uids_of
  pub is_sorted : IsSorted uids
  pub same : (u : Text) → has uids u ≡ has uids_of u

pub length-texts : (ts : List Text) → length (texts ts) ≡ length ts
length-texts [] = refl
length-texts (t ∷ ts) = ap suc (length-texts ts)

-- An array that the parser of request bodies accepts consists of at most 50 clean texts, none
-- twice, and what the parser returns is sorted and has the same elements: nothing is dropped.
pub parse_request-IsOrderly :
    (raws : List Element) (uids : List Text)
    → parse_request_bot_uids (array raws) ≡ ok uids
    → IsOrderly raws uids
unfolding parse_request_bot_uids
parse_request-IsOrderly raws uids h = elim (Bool-cases (ltb max_bot_uids (length raws))) [
  | inl e ↦ cc (rw (e, parse_request_bot_uids) at h)
  | inr e ↦ elim (Result-cases (collect_strict [] raws)) [
    | inl (x, f) ↦ cc (rw (e, f, parse_request_bot_uids) at h)
    | inr (us, f) ↦
        let r = collect_strict-IsAccepted [] raws us f in
        let p : uids ≡ sort r.rest =
          sym (ok-injective (sort us) uids _ refl (rw (e, f, parse_request_bot_uids) at h))
          ∙ ap sort r.appended in
        record {
          uids_of = r.rest;
          all_texts = r.all_texts;
          count = ground (arith, e, r.all_texts, ap length r.all_texts, length-texts r.rest);
          clean = r.clean;
          distinct = r.distinct;
          is_sorted = subst IsSorted (sym p) (sort-IsSorted r.rest);
          same = λ u. ap (λ v. has v u) p ∙ has-sort r.rest u;
        }
  ]
]

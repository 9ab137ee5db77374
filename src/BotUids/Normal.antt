-- ===== src/BotUids/Normal.antt =====
-- The lists that the fail-closed parsers of src/util/botUids.ts return, read once more.
use mathlib.Core.Path.{subst}
use octo_docs_backend.Base.{
  append_nil, append_one, ltb, suc, Result-cases, ◌≤◌, ◌≡◌, refl, sym, ap, ◌∙◌, true, false, inl,
  inr, Option, none, some, List, [], ◌∷◌, ◌++◌, map, Text, length, All, Bool-cases, arith,
}
use octo_docs_backend.BotUids.{
  Element, text, Value, undefined, null, other, string, array, max_bot_uids, has, insert, sort,
  collect_strict, collect_closed, stored_array, parse_stored_bot_uids, text_le,
}
use octo_docs_backend.BotUids.Laws.{
  IsClean, IsDistinct, IsSorted, All-insert, has-insert, has-sort, has_append, sort-IsSorted,
  collect_strict-IsAccepted, closed_strict, length-texts, text_eq_sym,
}

-- At most 50 clean uids in order, none twice.
pub record IsNormal (uids : List Text) : Type 0 where
  pub count : length uids ≤ max_bot_uids
  pub clean : All IsClean uids
  pub distinct : IsDistinct uids
  pub in_order : IsSorted uids

insert-IsDistinct :
    (s : Text) (ts : List Text) → has ts s ≡ false → IsDistinct ts → IsDistinct (insert s ts)
unfolding insert has
insert-IsDistinct s [] h k = (refl, tt)
insert-IsDistinct s (t ∷ ts) h (k, ks) = elim (Bool-cases (text_le s t)) [
  | inl e ↦ rw (e, insert) (h, (k, ks))
  | inr e ↦
      rw (e, insert)
        (
          ground (arith, h, k, has-insert s ts t, text_eq_sym t s),
          insert-IsDistinct s ts (ground (arith, h)) ks,
        )
]

sort-IsDistinct : (ts : List Text) → IsDistinct ts → IsDistinct (sort ts)
unfolding sort
sort-IsDistinct [] h = tt
sort-IsDistinct (t ∷ ts) (h, hs) =
    insert-IsDistinct t (sort ts) (has-sort ts t ∙ h) (sort-IsDistinct ts hs)

pub sort-All : (P : Text → Type 0) (ts : List Text) → All P ts → All P (sort ts)
unfolding sort
sort-All P [] h = tt
sort-All P (t ∷ ts) (h, hs) = All-insert P t (sort ts) h (sort-All P ts hs)

length-insert : (s : Text) (ts : List Text) → length (insert s ts) ≡ suc (length ts)
unfolding insert
length-insert s [] = refl
length-insert s (t ∷ ts) = ground (arith, length-insert s ts)

length-sort : (ts : List Text) → length (sort ts) ≡ length ts
unfolding sort
length-sort [] = refl
length-sort (t ∷ ts) = length-insert t (sort ts) ∙ ap suc (length-sort ts)

nil-IsNormal : IsNormal []
nil-IsNormal = record { count = omega arith; clean = tt; distinct = tt; in_order = tt }

collect_closed-IsNormal :
    (raws : List Element) → length raws ≤ max_bot_uids → IsNormal (collect_closed [] raws)
collect_closed-IsNormal raws h = elim (Result-cases (collect_strict [] raws)) [
  | inl (e, f) ↦ let q = closed_strict [] raws in subst IsNormal (sym (rw (f) at q)) nil-IsNormal
  | inr (us, f) ↦
      let r = collect_strict-IsAccepted [] raws us f in
      let q = closed_strict [] raws in
      let same : sort r.rest ≡ collect_closed [] raws =
        ap sort (sym r.appended) ∙ sym (rw (f) at q) in
      subst IsNormal same (record {
        count = ground (arith, h, length-sort r.rest, length-texts r.rest, ap length r.all_texts);
        clean = sort-All IsClean r.rest r.clean;
        distinct = sort-IsDistinct r.rest r.distinct;
        in_order = sort-IsSorted r.rest;
      })
]

stored_array-IsNormal : (v : Option Value) → IsNormal (stored_array v)
unfolding stored_array
stored_array-IsNormal (some (array raws)) = elim (Bool-cases (ltb max_bot_uids (length raws))) [
  | inl e ↦ rw (e, stored_array) nil-IsNormal
  | inr e ↦ rw (e, stored_array) (collect_closed-IsNormal raws (ground (arith, e)))
]
stored_array-IsNormal none = nil-IsNormal
stored_array-IsNormal (some undefined) = nil-IsNormal
stored_array-IsNormal (some null) = nil-IsNormal
stored_array-IsNormal (some other) = nil-IsNormal
stored_array-IsNormal (some (string s)) = nil-IsNormal

pub parse_stored-IsNormal :
    (json_parse : Text → Option Value) (v : Value) → IsNormal (parse_stored_bot_uids json_parse v)
unfolding parse_stored_bot_uids
parse_stored-IsNormal json_parse undefined = nil-IsNormal
parse_stored-IsNormal json_parse null = nil-IsNormal
parse_stored-IsNormal json_parse other = stored_array-IsNormal (some other)
parse_stored-IsNormal json_parse (string s) = stored_array-IsNormal (json_parse s)
parse_stored-IsNormal json_parse (array raws) = stored_array-IsNormal (some (array raws))

insert-least : (s : Text) (ts : List Text) → All (λ t. text_le s t ≡ true) ts → insert s ts ≡ s ∷ ts
unfolding insert
insert-least s [] h = refl
insert-least s (t ∷ ts) (h, hs) = rw (h, insert) refl

sort_sorted : (ts : List Text) → IsSorted ts → sort ts ≡ ts
unfolding sort
sort_sorted [] h = refl
sort_sorted (t ∷ ts) (h, hs) = ap (insert t) (sort_sorted ts hs) ∙ insert-least t ts h

unseen_more :
    (seen : List Text) (raw : Text) (ts : List Text)
    → All (λ s. has seen s ≡ false) ts
    → has ts raw ≡ false
    → All (λ s. has (seen ++ (raw ∷ [])) s ≡ false) ts
unfolding has
unseen_more seen raw [] h k = tt
unseen_more seen raw (s ∷ ts) (h, hs) k = (
  ground (arith, h, k, has_append seen (raw ∷ []) s, text_eq_sym s raw),
  unseen_more seen raw ts hs (ground (arith, k)),
)

collect_closed_distinct :
    (seen ts : List Text)
    → All IsClean ts
    → IsDistinct ts
    → All (λ s. has seen s ≡ false) ts
    → collect_closed seen (map text ts) ≡ sort (seen ++ ts)
unfolding collect_closed
collect_closed_distinct seen [] c d u = ap sort (sym (append_nil seen))
collect_closed_distinct seen (t ∷ ts) (c, cs) (d, ds) (u, us) =
    rw (c, u, collect_closed)
      (collect_closed_distinct (seen ++ (t ∷ [])) ts cs ds (unseen_more seen t ts us d)
        ∙ ap sort (append_one seen t ts))

nothing_seen : (ts : List Text) → All (λ s. has [] s ≡ false) ts
unfolding has
nothing_seen [] = tt
nothing_seen (t ∷ ts) = (refl, nothing_seen ts)

length-map_text : (ts : List Text) → length (map text ts) ≡ length ts
length-map_text [] = refl
length-map_text (t ∷ ts) = ap suc (length-map_text ts)

normal_again :
    (json_parse : Text → Option Value) (us : List Text)
    → IsNormal us
    → parse_stored_bot_uids json_parse (array (map text us)) ≡ us
unfolding parse_stored_bot_uids stored_array
normal_again json_parse us h = ground (
  arith,
  h.count,
  length-map_text us,
  collect_closed_distinct [] us h.clean h.distinct (nothing_seen us),
  sort_sorted us h.in_order,
)

-- Reading a stored list, writing what was read as an array and reading that again gives the same
-- uids, for every stored value.
pub parse_stored-again :
    (json_parse : Text → Option Value) (v : Value)
    → parse_stored_bot_uids json_parse (array (map text (parse_stored_bot_uids json_parse v)))
      ≡ parse_stored_bot_uids json_parse v
parse_stored-again json_parse v =
    normal_again json_parse (parse_stored_bot_uids json_parse v)
      (parse_stored-IsNormal json_parse v)

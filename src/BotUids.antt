-- ===== src/BotUids.antt =====
-- src/util/botUids.ts: the three parsers of bot uid lists. A value of type `unknown` is modelled by
-- the cases that the code tells apart; `JSON.parse` is a parameter, `none` where it throws.
pub mod Laws
pub mod Normal
use octo_docs_backend.Base.{
  ℕ, Bool, true, false, not, ◌&&◌, ◌||◌, Option, none, some, ◌>>=◌, List, [], ◌∷◌, ◌++◌, Text,
  text_eq, trim, length, leb, ltb, ◌==◌, any, Result, ok, err, if◌then◌else◌,
}

pub data Element : Type 0 where
  text : Text → Element
  not_text : Element

pub data Value : Type 0 where
  undefined null other : Value
  string : Text → Value
  array : List Element → Value

-- The reasons of `BotUidsValidationError`.
pub data BotUidsValidationError : Type 0 where
  not_array too_many bad_element duplicate : BotUidsValidationError

abbrev pub max_bot_uids : ℕ
max_bot_uids = 50

abbrev pub max_bot_uid_len : ℕ
max_bot_uid_len = 64

-- `isCleanUid` of a string.
unfoldable pub is_clean_uid : Text → Bool
unfolding text_eq trim
is_clean_uid v = ltb 0 (length v) && leb (length v) max_bot_uid_len && text_eq (trim v) v

-- `seen.has(raw)`.
unfoldable pub has : List Text → Text → Bool
unfolding text_eq
has [] raw = false
has (s ∷ seen) raw = text_eq s raw || has seen raw

-- The order of `sort()`: lexicographic on UTF-16 code units.
unfoldable pub text_le : Text → Text → Bool
text_le [] t = true
text_le (x ∷ s) [] = false
text_le (x ∷ s) (y ∷ t) = ltb x y || ((x == y) && text_le s t)

unfoldable pub insert : Text → List Text → List Text
unfolding text_le
insert s [] = s ∷ []
insert s (t ∷ ts) = elim (text_le s t) [ true ↦ s ∷ t ∷ ts | false ↦ t ∷ insert s ts ]

unfoldable pub sort : List Text → List Text
unfolding insert
sort [] = []
sort (s ∷ ts) = insert s (sort ts)

-- The loop of `parseRequestBotUids`, from the uids that were seen.
unfoldable pub collect_strict : List Text → List Element → Result BotUidsValidationError (List Text)
unfolding has is_clean_uid
collect_strict seen [] = ok seen
collect_strict seen (not_text ∷ raws) = err bad_element
collect_strict seen (text raw ∷ raws) =
    if not (is_clean_uid raw)
    then err bad_element
    else if has seen raw
    then err duplicate
    else collect_strict (seen ++ (raw ∷ [])) raws

abbrev sorted :
    Result BotUidsValidationError (List Text) → Result BotUidsValidationError (List Text)
sorted (ok uids) = ok (sort uids)
sorted (err e) = err e

-- `parseRequestBotUids`.
unfoldable pub parse_request_bot_uids : Value → Result BotUidsValidationError (List Text)
unfolding collect_strict sort
parse_request_bot_uids undefined = ok []
parse_request_bot_uids (array raws) =
    if ltb max_bot_uids (length raws) then err too_many else sorted (collect_strict [] raws)
parse_request_bot_uids _ = err not_array

-- The loop of the other two parsers: an illegal element gives up the whole list.
unfoldable pub collect_closed : List Text → List Element → List Text
unfolding has is_clean_uid sort
collect_closed seen [] = sort seen
collect_closed seen (not_text ∷ raws) = []
collect_closed seen (text raw ∷ raws) =
    if not (is_clean_uid raw) || has seen raw then [] else collect_closed (seen ++ (raw ∷ [])) raws

-- `parseOwnedBotUidsStrict`.
unfoldable pub parse_owned_bot_uids_strict : Value → List Text
unfolding collect_closed
parse_owned_bot_uids_strict (array raws) = collect_closed [] raws
parse_owned_bot_uids_strict _ = []

-- The rest of `parseStoredBotUids`, on the value that `arr` holds.
unfoldable pub stored_array : Option Value → List Text
unfolding collect_closed
stored_array (some (array raws)) =
    if ltb max_bot_uids (length raws) then [] else collect_closed [] raws
stored_array _ = []

-- `parseStoredBotUids`.
unfoldable pub parse_stored_bot_uids : (Text → Option Value) → Value → List Text
unfolding stored_array
parse_stored_bot_uids json_parse undefined = []
parse_stored_bot_uids json_parse null = []
parse_stored_bot_uids json_parse (string s) = stored_array (json_parse s)
parse_stored_bot_uids json_parse v = stored_array (some v)

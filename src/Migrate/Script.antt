-- ===== src/Migrate/Script.antt =====
-- src/db/migrate.ts: `stripComments` and `splitSqlStatements`.
use octo_docs_backend.Base.{
  ℕ, ◌-◌, Bool, true, false, not, ◌&&◌, ◌||◌, Option, none, some, ◌>>=◌, List, [], ◌∷◌, ◌++◌, Text,
  codes, text_eq, trim, length, take, drop, ltb, leb, ◌==◌, if◌then◌else◌,
}
use octo_docs_backend.Base.Trim.{is_space, trim_start}
use octo_docs_backend.Permission.Name.{split_on}
use mathlib.Core.List.{reverse}

-- What a line is inside of: plain code, a quoted literal, or a block comment.
pub data Mode : Type 0 where
  code block : Mode
  quoted : ℕ → Mode

-- A quote opens a literal.
unfoldable pub after_code : ℕ → Mode
after_code c = if (c == 0x27) || (c == 0x22) || (c == 0x60) then quoted c else code

unfoldable pub after_quoted : ℕ → ℕ → Mode
after_quoted q c = if c == q then code else quoted q

abbrev pub in_block : Mode → Bool
in_block block = true
in_block _ = false

-- The test of a `--` comment on what follows the dashes.
abbrev pub ends_dashes : Text → Bool
ends_dashes [] = true
ends_dashes (c ∷ s) = is_space c

-- The loop of `stripComments`: the code that is kept, and whether a block comment stays open. A
-- literal ends with its line.
unfoldable pub strip : Mode → Text → Text × Bool
unfolding after_code after_quoted is_space
strip mode [] = ([], in_block mode)
strip block (c ∷ []) = ([], true)
strip block (c ∷ n ∷ s) = elim ((c == b'*') && (n == b'/')) [
  | true ↦ strip code s
  | false ↦ strip block (n ∷ s)
]
strip (quoted q) (c ∷ []) = (c ∷ [], false)
strip (quoted q) (c ∷ n ∷ s) = elim ((c == 0x5c) && not (q == 0x60)) [
  | true ↦ let r = strip (quoted q) s in (c ∷ n ∷ r.0, r.1)
  | false ↦ let r = strip (after_quoted q c) (n ∷ s) in (c ∷ r.0, r.1)
]
strip code (c ∷ []) = elim (c == b'#') [ true ↦ ([], false) | false ↦ (c ∷ [], false) ]
strip code (c ∷ n ∷ s) = elim (((c == b'-') && (n == b'-') && ends_dashes s) || (c == b'#')) [
  | true ↦ ([], false)
  | false ↦ elim ((c == b'/') && (n == b'*')) [
    | true ↦ strip block s
    | false ↦ let r = strip (after_code c) (n ∷ s) in (c ∷ r.0, r.1)
  ]
]

-- `stripComments`.
unfoldable pub strip_comments : Text → Bool → Text × Bool
unfolding strip
strip_comments line true = strip block line
strip_comments line false = strip code line

unfoldable pub without_return : Text → Text
without_return [] = []
without_return (c ∷ []) = if c == 13 then [] else c ∷ []
without_return (c ∷ d ∷ s) = c ∷ without_return (d ∷ s)

unfoldable pub without_returns : List Text → List Text
unfolding without_return
without_returns [] = []
without_returns (l ∷ []) = l ∷ []
without_returns (l ∷ m ∷ ls) = without_return l ∷ without_returns (m ∷ ls)

-- `sql.split(/\r?\n/)`.
unfoldable pub lines : Text → List Text
unfolding without_returns split_on
lines sql = without_returns (split_on 10 sql)

abbrev pub upper : ℕ → ℕ
upper c = if leb b'a' c && leb c b'z' then c - 32 else c

-- The text behind a prefix, in either case of its letters.
unfoldable pub behind : Text → Text → Option Text
behind [] s = some s
behind (p ∷ ps) [] = none
behind (p ∷ ps) (c ∷ s) = if upper c == p then behind ps s else none

unfoldable pub until_space : Text → Text
unfolding is_space
until_space [] = []
until_space (c ∷ s) = if is_space c then [] else c ∷ until_space s

-- The white space and the delimiter behind the word.
unfoldable pub delimiter_in : Text → Option Text
unfolding is_space trim_start until_space
delimiter_in [] = none
delimiter_in (c ∷ s) =
    if is_space c && ltb 0 (length (trim_start s)) then some (until_space (trim_start s)) else none

-- `code.trim().match(/^DELIMITER\s+(\S+)/i)`.
unfoldable pub delimiter_of : Text → Option Text
unfolding behind delimiter_in
delimiter_of s = behind (codes "DELIMITER") s >>= delimiter_in

unfoldable pub trim_end : Text → Text
unfolding trim_start
trim_end s = reverse (trim_start (reverse s))

-- `trimmed.endsWith(delimiter)`, and the text before the delimiter.
unfoldable pub before_delimiter : Text → Text → Option Text
unfolding text_eq
before_delimiter trimmed delimiter =
    if leb (length delimiter) (length trimmed)
      && text_eq (drop (length trimmed - length delimiter) trimmed) delimiter
    then some (take (length trimmed - length delimiter) trimmed)
    else none

-- `if (statement !== '') statements.push(statement)`.
unfoldable pub push : Text → List Text → List Text
unfolding text_eq
push statement rest = if text_eq statement [] then rest else statement ∷ rest

-- The loop over the lines; `none` is the error of a delimiter inside an open statement.
unfoldable pub split_lines : Text → Text → Bool → List Text → Option (List Text)
unfolding strip_comments delimiter_of trim_end before_delimiter push trim text_eq
split_lines delimiter buf open_block [] = some (push (trim buf) [])
split_lines delimiter buf open_block (raw ∷ raws) =
    let r = strip_comments raw open_block in
    elim (text_eq (trim r.0) []) [
      | true ↦ split_lines delimiter buf r.1 raws
      | false ↦ elim (delimiter_of (trim r.0)) [
        | some d ↦ elim (text_eq (trim buf) []) [ true ↦ split_lines d buf r.1 raws | false ↦ none ]
        | none ↦
            let text = buf ++ (r.0 ++ (10 ∷ [])) in
            elim (before_delimiter (trim_end text) delimiter) [
              | none ↦ split_lines delimiter text r.1 raws
              | some s ↦ do rest ← split_lines delimiter [] r.1 raws; some (push (trim s) rest)
            ]
      ]
    ]

-- `splitSqlStatements`.
unfoldable pub split_sql_statements : Text → Option (List Text)
unfolding split_lines lines
split_sql_statements sql = split_lines (codes ";") [] false (lines sql)

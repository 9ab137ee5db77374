-- ===== src/Permission/Name.antt =====
-- src/permission/documentName.ts: document names over their UTF-16 code units.
pub mod Split
pub mod RoundTrip
use octo_docs_backend.Base.{
  ℕ, Bool, true, false, not, ◌&&◌, ◌||◌, List, [], ◌∷◌, ◌++◌, Text, codes, text_eq, all, leb, ◌==◌,
  if◌then◌else◌, Result, ok, err,
}

-- `ParsedName`, one constructor for each `kind`; the fields are space, folder and doc (or board).
pub data ParsedName : Type 0 where
  document whiteboard html ppt : Text → Text → Text → ParsedName

-- The messages of `DocumentNameError`.
pub data NameError : Type 0 where
  bad_ns bad_seg doc_is_wb bad_segment_count : NameError

abbrev pub colon : ℕ
colon = b':'

-- `x` in front of the first part.
unfoldable pub extend : ℕ → List Text → List Text
extend x [] = (x ∷ []) ∷ []
extend x (part ∷ parts) = (x ∷ part) ∷ parts

-- `name.split(':')`.
unfoldable pub split_on : ℕ → Text → List Text
unfolding extend
split_on c [] = [] ∷ []
split_on c (x ∷ s) = if x == c then [] ∷ split_on c s else extend x (split_on c s)

unfoldable pub is_seg_char : ℕ → Bool
is_seg_char c =
    (leb b'A' c && leb c b'Z')
    || (leb b'a' c && leb c b'z')
    || (leb b'0' c && leb c b'9')
    || (c == b'_')
    || (c == b'-')

-- `SEG.test(s)`: one or more letters, digits, `_` and `-`.
unfoldable pub is_seg : Text → Bool
unfolding is_seg_char
is_seg [] = false
is_seg (c ∷ s) = is_seg_char c && all is_seg_char s

abbrev pub wb : Text
wb = codes "wb"

-- The three checked segments of a branch, with the constructor of its kind.
unfoldable pub checked :
    (Text → Text → Text → ParsedName) → Text → Text → Text → Result NameError ParsedName
unfolding is_seg
checked kind space folder doc =
    if is_seg space && is_seg folder && is_seg doc then ok (kind space folder doc) else err bad_seg

-- The branches of `parseDocumentName` behind the first segment.
unfoldable pub parse_segments : List Text → Result NameError ParsedName
unfolding checked text_eq
parse_segments (space ∷ folder ∷ tag ∷ doc ∷ []) =
    if text_eq tag wb
    then checked whiteboard space folder doc
    else if text_eq tag (codes "html")
    then checked html space folder doc
    else if text_eq tag (codes "ppt")
    then checked ppt space folder doc
    else err bad_segment_count
parse_segments (space ∷ folder ∷ doc ∷ []) =
    if is_seg space && is_seg folder && is_seg doc
    then if text_eq doc wb then err doc_is_wb else ok (document space folder doc)
    else err bad_seg
parse_segments _ = err bad_segment_count

unfoldable pub parse_parts : List Text → Result NameError ParsedName
unfolding parse_segments
parse_parts [] = err bad_ns
parse_parts (ns ∷ parts) = if text_eq ns (codes "octo") then parse_segments parts else err bad_ns

-- `parseDocumentName`.
unfoldable pub parse_document_name : Text → Result NameError ParsedName
unfolding parse_parts split_on
parse_document_name name = parse_parts (split_on colon name)

-- The template literals of the builders.
abbrev pub octo_prefix : Text → Text → Text
octo_prefix space folder = codes "octo:" ++ (space ++ (colon ∷ (folder ++ (colon ∷ []))))

-- `buildDocumentName`.
unfoldable pub build_document_name : Text → Text → Text → Result NameError Text
unfolding is_seg text_eq
build_document_name space folder doc =
    if is_seg space && is_seg folder && is_seg doc
    then if text_eq doc wb then err doc_is_wb else ok (octo_prefix space folder ++ doc)
    else err bad_seg

-- `buildHtmlDocumentName`.
unfoldable pub build_html_document_name : Text → Text → Text → Result NameError Text
unfolding is_seg
build_html_document_name space folder doc =
    if is_seg space && is_seg folder && is_seg doc
    then ok (octo_prefix space folder ++ (codes "html:" ++ doc))
    else err bad_seg

-- `buildPptDocumentName`.
unfoldable pub build_ppt_document_name : Text → Text → Text → Result NameError Text
unfolding is_seg
build_ppt_document_name space folder doc =
    if is_seg space && is_seg folder && is_seg doc
    then ok (octo_prefix space folder ++ (codes "ppt:" ++ doc))
    else err bad_seg

-- The wire values of `doc_meta.doc_type` that this file compares with.
abbrev pub html_doc_type : Text
html_doc_type = codes "html"

abbrev pub html_ppt_doc_type : Text
html_ppt_doc_type = codes "html_ppt"

abbrev pub board_doc_type : Text
board_doc_type = codes "board"

-- `isDocTypeConsistentWithName`.
unfoldable pub is_doc_type_consistent_with_name : ParsedName → Text → Bool
unfolding text_eq
is_doc_type_consistent_with_name (ppt _ _ _) t = text_eq t html_ppt_doc_type
is_doc_type_consistent_with_name (html _ _ _) t = text_eq t html_doc_type
is_doc_type_consistent_with_name (whiteboard _ _ _) t = text_eq t board_doc_type
is_doc_type_consistent_with_name (document _ _ _) t =
    not (text_eq t board_doc_type)
    && not (text_eq t html_doc_type)
    && not (text_eq t html_ppt_doc_type)

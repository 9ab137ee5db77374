-- ===== src/Permission/Name/RoundTrip.antt =====
-- Keys, parser and builders of src/permission/documentName.ts.
use mathlib.Core.List.{append_assoc}
use octo_docs_backend.Base.{
  Result, ◌≡◌, sym, ap, ◌∙◌, ◌↔◌, true, false, List, [], ◌∷◌, ◌++◌, Text, codes, text_eq,
  text_eq_iff, All, all, ok, arith, Bool-cases, inl, inr,
}
use octo_docs_backend.Permission.Name.{
  NameError, ParsedName, document, whiteboard, html, ppt, colon, wb, octo_prefix, split_on,
  is_seg_char, is_seg, parse_segments, parse_parts, parse_document_name, build_document_name,
  build_html_document_name, build_ppt_document_name,
}
use octo_docs_backend.Permission.Name.Split.{IsFree, join, split_on-join, join-split_on}

-- The segments of the key of a parsed name.
abbrev pub segments : ParsedName → List Text
segments (document space folder doc) = codes "octo" ∷ space ∷ folder ∷ doc ∷ []
segments (whiteboard space folder doc) = codes "octo" ∷ space ∷ folder ∷ wb ∷ doc ∷ []
segments (html space folder doc) = codes "octo" ∷ space ∷ folder ∷ codes "html" ∷ doc ∷ []
segments (ppt space folder doc) = codes "octo" ∷ space ∷ folder ∷ codes "ppt" ∷ doc ∷ []

abbrev pub document_key : ParsedName → Text
document_key p = join colon (segments p)

abbrev pub AreSegs : Text → Text → Text → Type 0
AreSegs space folder doc = (is_seg space ≡ true) × (is_seg folder ≡ true) × (is_seg doc ≡ true)

-- Valid segments, and in a 4-segment key a document that is not called "wb".
abbrev pub IsValidName : ParsedName → Type 0
IsValidName (document space folder doc) = AreSegs space folder doc × (text_eq doc wb ≡ false)
IsValidName (whiteboard space folder doc) = AreSegs space folder doc
IsValidName (html space folder doc) = AreSegs space folder doc
IsValidName (ppt space folder doc) = AreSegs space folder doc

all_seg-IsFree : (s : Text) → all is_seg_char s ≡ true → IsFree colon s
unfolding is_seg_char
all_seg-IsFree [] h = tt
all_seg-IsFree (c ∷ s) h = (ground arith, all_seg-IsFree s (ground arith))

pub is_seg-IsFree : (s : Text) → is_seg s ≡ true → IsFree colon s
unfolding is_seg
is_seg-IsFree [] h = tt
is_seg-IsFree (c ∷ s) h = all_seg-IsFree (c ∷ s) h

parse_segments_sound :
    (parts : List Text) (p : ParsedName)
    → parse_segments parts ≡ ok p
    → (codes "octo" ∷ parts ≡ segments p) × IsValidName p
unfolding parse_segments
parse_segments_sound (space ∷ folder ∷ tag ∷ doc ∷ []) p h =
    ground
      (arith, text_eq_iff tag wb, text_eq_iff tag (codes "html"), text_eq_iff tag (codes "ppt"))
parse_segments_sound (space ∷ folder ∷ doc ∷ []) p h = ground arith
parse_segments_sound _ p h = cc

parse_parts_sound :
    (parts : List Text) (p : ParsedName)
    → parse_parts parts ≡ ok p
    → (parts ≡ segments p) × IsValidName p
unfolding parse_parts
parse_parts_sound [] p h = cc
parse_parts_sound (ns ∷ parts) p h = elim (Bool-cases (text_eq ns (codes "octo"))) [
  | inl e ↦
      let (same, valid) = parse_segments_sound parts p (rw (e, parse_parts) at h) in
      (rw ((text_eq_iff ns _).0 e) same, valid)
  | inr e ↦ ground arith
]

parse_parts_complete : (p : ParsedName) → IsValidName p → parse_parts (segments p) ≡ ok p
unfolding parse_parts
parse_parts_complete (document s f d) h = ground arith
parse_parts_complete (whiteboard s f d) h = ground arith
parse_parts_complete (html s f d) h = ground arith
parse_parts_complete (ppt s f d) h = ground arith

segments-AreFree : (p : ParsedName) → IsValidName p → All (IsFree colon) (segments p)
segments-AreFree (document s f d) ((hs, hf, hd), _) =
    (omega arith, (is_seg-IsFree s hs, (is_seg-IsFree f hf, (is_seg-IsFree d hd, tt))))
segments-AreFree (whiteboard s f d) (hs, hf, hd) = (
  omega arith,
  (is_seg-IsFree s hs, (is_seg-IsFree f hf, (omega arith, (is_seg-IsFree d hd, tt)))),
)
segments-AreFree (html s f d) (hs, hf, hd) = (
  omega arith,
  (is_seg-IsFree s hs, (is_seg-IsFree f hf, (omega arith, (is_seg-IsFree d hd, tt)))),
)
segments-AreFree (ppt s f d) (hs, hf, hd) = (
  omega arith,
  (is_seg-IsFree s hs, (is_seg-IsFree f hf, (omega arith, (is_seg-IsFree d hd, tt)))),
)

split_on-document_key :
    (p : ParsedName) → IsValidName p → split_on colon (document_key p) ≡ segments p
split_on-document_key (document s f d) h =
    split_on-join colon _ _ (segments-AreFree (document s f d) h)
split_on-document_key (whiteboard s f d) h =
    split_on-join colon _ _ (segments-AreFree (whiteboard s f d) h)
split_on-document_key (html s f d) h = split_on-join colon _ _ (segments-AreFree (html s f d) h)
split_on-document_key (ppt s f d) h = split_on-join colon _ _ (segments-AreFree (ppt s f d) h)

-- A name parses to `p` exactly when it is the key of `p` (the segments joined by colons) and `p` is
-- valid: nonempty segments over the allowed characters, and no 4-segment document called "wb".
pub parse_document_name_iff :
    (name : Text) (p : ParsedName)
    → (parse_document_name name ≡ ok p) ↔ ((name ≡ document_key p) × IsValidName p)
parse_document_name_iff name p = (sound, complete)
  where
    sound : parse_document_name name ≡ ok p → (name ≡ document_key p) × IsValidName p
    sound h =
        let (parts, valid) =
          parse_parts_sound (split_on colon name) p (unfold parse_document_name in h) in
        (sym (join-split_on colon name) ∙ ap (join colon) parts, valid)

    complete : (name ≡ document_key p) × IsValidName p → parse_document_name name ≡ ok p
    complete (e, valid) =
        unfold parse_document_name in
        ap parse_parts (ap (split_on colon) e ∙ split_on-document_key p valid)
        ∙ parse_parts_complete p valid

prefix_append :
    (space folder rest : Text)
    → octo_prefix space folder ++ rest
      ≡ codes "octo" ++ (colon ∷ (space ++ (colon ∷ (folder ++ (colon ∷ rest)))))
prefix_append space folder rest = simp append_assoc

build_document_name_key :
    (space folder doc name : Text)
    → build_document_name space folder doc ≡ ok name
    → (name ≡ document_key (document space folder doc)) × IsValidName (document space folder doc)
unfolding build_document_name
build_document_name_key space folder doc name h = ground (arith, prefix_append space folder doc)

build_html_document_name_key :
    (space folder doc name : Text)
    → build_html_document_name space folder doc ≡ ok name
    → (name ≡ document_key (html space folder doc)) × IsValidName (html space folder doc)
unfolding build_html_document_name
build_html_document_name_key space folder doc name h =
    ground (arith, prefix_append space folder (codes "html:" ++ doc))

build_ppt_document_name_key :
    (space folder doc name : Text)
    → build_ppt_document_name space folder doc ≡ ok name
    → (name ≡ document_key (ppt space folder doc)) × IsValidName (ppt space folder doc)
unfolding build_ppt_document_name
build_ppt_document_name_key space folder doc name h =
    ground (arith, prefix_append space folder (codes "ppt:" ++ doc))

-- The three builders, by the kind of name that they build.
pub data Builder : Type 0 where
  document_builder html_builder ppt_builder : Builder

abbrev pub build : Builder → Text → Text → Text → Result NameError Text
build document_builder = build_document_name
build html_builder = build_html_document_name
build ppt_builder = build_ppt_document_name

abbrev pub kind_of : Builder → Text → Text → Text → ParsedName
kind_of document_builder = document
kind_of html_builder = html
kind_of ppt_builder = ppt

-- What a builder returns, of a document, an html page or a deck, parses back in the builder's own
-- kind to the segments that the builder was given.
pub parse_document_name-build :
    (b : Builder) (space folder doc name : Text)
    → build b space folder doc ≡ ok name
    → parse_document_name name ≡ ok (kind_of b space folder doc)
parse_document_name-build document_builder space folder doc name h =
    (parse_document_name_iff name _).1 (build_document_name_key space folder doc name h)
parse_document_name-build html_builder space folder doc name h =
    (parse_document_name_iff name _).1 (build_html_document_name_key space folder doc name h)
parse_document_name-build ppt_builder space folder doc name h =
    (parse_document_name_iff name _).1 (build_ppt_document_name_key space folder doc name h)

-- ===== src/Db/Meta/Laws.antt =====
-- Document rows (src/db/repos/docMetaRepo.ts) read back after a bump of the epoch.
use octo_docs_backend.Base.{
  ◌+◌, ◌≡◌, Option, none, some, List, [], ◌∷◌, Text, text_eq, text_eq_iff, if◌then◌else◌, arith,
}
use octo_docs_backend.Db.Meta.{DocMeta, get_by_doc_id, bump_epoch_tx, read_epoch}

abbrev pub bumped : Option DocMeta → Option DocMeta
bumped none = none
bumped (some m) = some (record m { permission_epoch = m.permission_epoch + 1 })

pub get_by_doc_id-id :
    (rows : List DocMeta) (id : Text) (m : DocMeta) → get_by_doc_id rows id ≡ some m → m.doc_id ≡ id
unfolding get_by_doc_id
get_by_doc_id-id [] id m h = cc
get_by_doc_id-id (x ∷ rows) id m h =
    ground (arith, get_by_doc_id-id rows id m, text_eq_iff x.doc_id id)

pub get_by_doc_id-bump_epoch_tx :
    (rows : List DocMeta) (id other : Text)
    → get_by_doc_id (bump_epoch_tx rows id) other
      ≡ (if text_eq id other then bumped (get_by_doc_id rows other) else get_by_doc_id rows other)
unfolding get_by_doc_id bump_epoch_tx
get_by_doc_id-bump_epoch_tx [] id other = ground arith
get_by_doc_id-bump_epoch_tx (m ∷ rows) id other = ground (
  arith,
  get_by_doc_id-bump_epoch_tx rows id other,
  text_eq_iff m.doc_id id,
  text_eq_iff m.doc_id other,
  text_eq_iff id other,
)

pub read_epoch-bump_epoch_tx :
    (rows : List DocMeta) (id : Text) (m : DocMeta)
    → get_by_doc_id rows id ≡ some m
    → read_epoch (bump_epoch_tx rows id) id ≡ m.permission_epoch + 1
unfolding read_epoch
read_epoch-bump_epoch_tx rows id m h =
    ground (arith, get_by_doc_id-bump_epoch_tx rows id id, text_eq_iff id id)

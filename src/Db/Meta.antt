-- ===== src/Db/Meta.antt =====
-- src/db/repos/docMetaRepo.ts: the `doc_meta` rows and the permission epoch.
pub mod Laws
use octo_docs_backend.Base.{ℕ, ◌+◌, Option, none, some, List, [], ◌∷◌, Text, text_eq, if◌then◌else◌}

-- The columns of `DocMeta` that access control reads.
pub record DocMeta : Type 0 where
  pub doc_id : Text
  pub document_name : Text
  pub owner_id : Text
  pub space_id : Text
  pub folder_id : Text
  pub doc_type : Text
  pub status : ℕ  -- 1 active, 0 deleted, 2 archived
  pub permission_epoch : ℕ
  pub share_scope : ℕ
  pub share_role : ℕ

-- `getByDocId`.
unfoldable pub get_by_doc_id : List DocMeta → Text → Option DocMeta
get_by_doc_id [] id = none
get_by_doc_id (m ∷ rows) id = if text_eq m.doc_id id then some m else get_by_doc_id rows id

-- `getByDocumentName`.
unfoldable pub get_by_document_name : List DocMeta → Text → Option DocMeta
get_by_document_name [] name = none
get_by_document_name (m ∷ rows) name =
    if text_eq m.document_name name then some m else get_by_document_name rows name

-- `getEpochByDocumentName`.
unfoldable pub get_epoch_by_document_name : List DocMeta → Text → Option ℕ
unfolding get_by_document_name
get_epoch_by_document_name rows name = elim (get_by_document_name rows name) [
  | none ↦ none
  | some m ↦ some m.permission_epoch
]

-- `bumpEpochTx`: the UPDATE adds one to every row with the id.
unfoldable pub bump_epoch_tx : List DocMeta → Text → List DocMeta
bump_epoch_tx [] id = []
bump_epoch_tx (m ∷ rows) id =
    (if text_eq m.doc_id id then record m { permission_epoch = m.permission_epoch + 1 } else m)
    ∷ bump_epoch_tx rows id

-- The SELECT of `permission_epoch` with its default 0.
unfoldable pub read_epoch : List DocMeta → Text → ℕ
unfolding get_by_doc_id
read_epoch rows id = elim (get_by_doc_id rows id) [ none ↦ 0 | some m ↦ m.permission_epoch ]

-- `bumpEpoch`: the table after the UPDATE, and the new epoch.
unfoldable pub bump_epoch : List DocMeta → Text → List DocMeta × ℕ
unfolding bump_epoch_tx read_epoch
bump_epoch rows id = (bump_epoch_tx rows id, read_epoch (bump_epoch_tx rows id) id)

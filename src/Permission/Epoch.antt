-- ===== src/Permission/Epoch.antt =====
-- src/permission/epoch.ts with the TtlCache of src/util/singleflight.ts: the permission epoch as one
-- process sees it. Redis is outside: its reply to the GET is an argument, and so is the reading of
-- its text as a number (`none` for NaN). Writes to Redis and the broadcast are best effort in the
-- code and do not change its result; the broadcast stands in the result as an event.
pub mod Laws
pub mod Staleness
use octo_docs_backend.Base.{
  ℕ, ◌+◌, Option, none, some, List, [], ◌∷◌, Text, text_eq, leb, Result, ok, err, if◌then◌else◌,
}
use octo_docs_backend.Db.Meta.{DocMeta, get_epoch_by_document_name}
use octo_docs_backend.Db.Meta

-- An entry of `TtlCache.store` under its key.
pub record Entry : Type 0 where
  pub key : Text
  pub value : ℕ
  pub expires_at : ℕ

-- The state of a `TtlCache`.
pub record TtlCache : Type 0 where
  pub ttl_ms : ℕ
  pub store : List Entry

unfoldable pub lookup : List Entry → Text → Option Entry
unfolding text_eq
lookup [] k = none
lookup (e ∷ store) k = if text_eq e.key k then some e else lookup store k

unfoldable pub drop_key : List Entry → Text → List Entry
unfolding text_eq
drop_key [] k = []
drop_key (e ∷ store) k = if text_eq e.key k then drop_key store k else e ∷ drop_key store k

-- `TtlCache.delete`.
unfoldable pub delete : TtlCache → Text → TtlCache
unfolding drop_key
delete cache k = record cache { store = drop_key cache.store k }

-- `TtlCache.get`: the cache after it, and the value.
unfoldable pub get : ℕ → TtlCache → Text → TtlCache × Option ℕ
unfolding lookup delete
get now cache k = elim (lookup cache.store k) [
  | none ↦ (cache, none)
  | some e ↦ if leb e.expires_at now then (delete cache k, none) else (cache, some e.value)
]

-- `TtlCache.set`.
unfoldable pub set : ℕ → TtlCache → Text → ℕ → TtlCache
unfolding drop_key
set now cache k v = record cache {
  store = record { key = k; value = v; expires_at = now + cache.ttl_ms } ∷ drop_key cache.store k;
}

-- What the GET of the epoch's key gives: the call throws, null, or a text.
pub data Reply : Type 0 where
  down miss : Reply
  hit : Text → Reply

-- Why `currentEpoch` throws.
pub data EpochError : Type 0 where
  redis_failed document_not_found : EpochError

-- `InvalidateEvent` of a publication.
pub record InvalidateEvent : Type 0 where
  pub document_name : Text
  pub uid : Option Text

-- The fallback to the database, which also warms the local cache.
unfoldable pub read_database : ℕ → TtlCache → List DocMeta → Text → TtlCache × Result EpochError ℕ
unfolding set
read_database now cache rows name = elim (get_epoch_by_document_name rows name) [
  | none ↦ (cache, err document_not_found)
  | some epoch ↦ (set now cache name epoch, ok epoch)
]

module _ (number : Text → Option ℕ) where
  -- The Redis cache, and the fallback behind it.
  unfoldable pub read_redis :
      ℕ → TtlCache → Reply → List DocMeta → Text → TtlCache × Result EpochError ℕ
  unfolding read_database set
  read_redis now cache down rows name = (cache, err redis_failed)
  read_redis now cache miss rows name = read_database now cache rows name
  read_redis now cache (hit cached) rows name = elim (number cached) [
    | none ↦ read_database now cache rows name
    | some n ↦ (set now cache name n, ok n)
  ]

  -- `currentEpoch`.
  unfoldable pub current_epoch :
      ℕ → TtlCache → Reply → List DocMeta → Text → TtlCache × Result EpochError ℕ
  unfolding get read_redis
  current_epoch now cache reply rows name = elim ((get now cache name).1) [
    | some n ↦ (cache, ok n)
    | none ↦ read_redis now (get now cache name).0 reply rows name
  ]

-- `refreshAndPublish`; an empty uid is falsy and is left out of the event.
unfoldable pub refresh_and_publish :
    ℕ → TtlCache → Text → ℕ → Option Text → TtlCache × InvalidateEvent
unfolding set
refresh_and_publish now cache name epoch (some []) =
    (set now cache name epoch, record { document_name = name; uid = none })
refresh_and_publish now cache name epoch uid =
    (set now cache name epoch, record { document_name = name; uid = uid })

-- `bumpEpoch`: the table, the cache, the event and the new epoch.
unfoldable pub bump_epoch :
    ℕ
    → TtlCache
    → List DocMeta
    → Text
    → Text
    → Option Text
    → List DocMeta × TtlCache × InvalidateEvent × ℕ
unfolding refresh_and_publish
bump_epoch now cache rows doc_id name uid =
    let db = Meta.bump_epoch rows doc_id in
    let published = refresh_and_publish now cache name db.1 uid in
    (db.0, published.0, published.1, db.1)

-- `invalidateEpochCache` on the local cache.
unfoldable pub invalidate_epoch_cache : TtlCache → Text → TtlCache
unfolding delete
invalidate_epoch_cache cache name = delete cache name

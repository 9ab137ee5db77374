-- ===== src/Permission/Epoch/Laws.antt =====
-- What the epoch caches of src/permission/epoch.ts may answer.
use mathlib.Core.Path.{subst}
use mathlib.Core.Option.{some-injective}
use octo_docs_backend.Base.{
  ℕ, ◌+◌, ◌<◌, ◌≡◌, ◌∙◌, refl, inl, inr, All, Bool-cases, Option, none, some, List, [], ◌∷◌, Text,
  text_eq, text_eq_iff, text_eq_refl, leb, ok, err, Option-cases, arith, if◌then◌else◌,
}
use octo_docs_backend.Db.Meta.{
  DocMeta, get_epoch_by_document_name, get_by_document_name, get_by_doc_id,
}
use octo_docs_backend.Db.Meta
use octo_docs_backend.Permission.Epoch.{
  Entry, TtlCache, lookup, drop_key, delete, get, set, Reply, miss, document_not_found,
  read_database, read_redis, current_epoch, refresh_and_publish, bump_epoch, invalidate_epoch_cache,
}

lookup-drop_key :
    (store : List Entry) (k other : Text)
    → lookup (drop_key store k) other ≡ (if text_eq k other then none else lookup store other)
unfolding lookup drop_key
lookup-drop_key [] k other = ground arith
lookup-drop_key (e ∷ store) k other = ground (
  arith,
  lookup-drop_key store k other,
  text_eq_iff e.key k,
  text_eq_iff e.key other,
  text_eq_iff k other,
)

-- A cached value is found until its time to live has passed, under its own key; the other keys
-- answer as before.
pub get-set :
    (cache : TtlCache) (k other : Text) (v now later : ℕ)
    → (get later (set now cache k v) other).1 ≡ (
        if text_eq k other
        then (if leb (now + cache.ttl_ms) later then none else some v)
        else (get later cache other).1)
unfolding get set lookup
get-set cache k other v now later = ground (arith, lookup-drop_key cache.store k other)

get-delete :
    (cache : TtlCache) (k : Text) (now : ℕ) → get now (delete cache k) k ≡ (delete cache k, none)
unfolding get delete
get-delete cache k now = ground (arith, lookup-drop_key cache.store k k, text_eq_refl k)

pub refreshed :
    (now : ℕ) (cache : TtlCache) (name : Text) (epoch : ℕ) (uid : Option Text)
    → (refresh_and_publish now cache name epoch uid).0 ≡ set now cache name epoch
unfolding refresh_and_publish
refreshed now cache name epoch none = refl
refreshed now cache name epoch (some []) = refl
refreshed now cache name epoch (some (c ∷ s)) = refl

pub lookup-All :
    (P : Entry → Type 0) (store : List Entry) (k : Text) (e : Entry)
    → All P store
    → lookup store k ≡ some e
    → P e × (e.key ≡ k)
unfolding lookup
lookup-All P [] k e h q = cc
lookup-All P (x ∷ store) k e (h, hs) q = elim (Bool-cases (text_eq x.key k)) [
  | inl t ↦
      subst (λ y. P y × (y.key ≡ k)) (some-injective x e (rw (t) at q))
        (h, (text_eq_iff x.key k).0 t)
  | inr t ↦ lookup-All P store k e hs (rw (t) at q)
]

pub drop_key-All :
    (P : Entry → Type 0) (store : List Entry) (k : Text) → All P store → All P (drop_key store k)
unfolding drop_key
drop_key-All P [] k h = tt
drop_key-All P (x ∷ store) k (h, hs) = elim (Bool-cases (text_eq x.key k)) [
  | inl t ↦ rw (t, drop_key) (drop_key-All P store k hs)
  | inr t ↦ rw (t, drop_key) (h, drop_key-All P store k hs)
]

module _ (number : Text → Option ℕ) where
  current_epoch_local :
      (now n : ℕ) (cache : TtlCache) (reply : Reply) (rows : List DocMeta) (name : Text)
      → (get now cache name).1 ≡ some n
      → (current_epoch number now cache reply rows name).1 ≡ ok n
  unfolding current_epoch
  current_epoch_local now n cache reply rows name h = rw (h, current_epoch) refl

  current_epoch_missed :
      (now : ℕ) (cache : TtlCache) (reply : Reply) (rows : List DocMeta) (name : Text)
      → (get now cache name).1 ≡ none
      → (current_epoch number now cache reply rows name).1
        ≡ (read_redis number now ((get now cache name).0) reply rows name).1
  unfolding current_epoch
  current_epoch_missed now cache reply rows name h = rw (h, current_epoch) refl

  -- Until the time to live of a change has passed, the epoch that is returned is the one that the
  -- database holds after the change, whatever Redis answers.
  pub current_epoch-bump_epoch :
      (cache : TtlCache) (rows : List DocMeta) (doc_id name : Text) (uid : Option Text)
      (reply : Reply) (now later : ℕ)
      → later < now + cache.ttl_ms
      → let b = bump_epoch now cache rows doc_id name uid in
        (current_epoch number later b.1 reply b.0 name).1 ≡ ok (Meta.read_epoch b.0 doc_id)
  unfolding bump_epoch Meta.bump_epoch
  current_epoch-bump_epoch cache rows doc_id name uid reply now later h =
      let epoch = Meta.read_epoch (Meta.bump_epoch_tx rows doc_id) doc_id in
      let found : (get later (set now cache name epoch) name).1 ≡ some epoch =
        ground (arith, h, get-set cache name name epoch now later, text_eq_refl name) in
      rw (refreshed now cache name epoch uid) (
        current_epoch_local later epoch (set now cache name epoch) reply
          (Meta.bump_epoch_tx rows doc_id) name found)

  -- After an invalidation, and with no epoch in Redis either, the epoch is the database's; the call
  -- fails for a name that the database does not have.
  pub current_epoch-invalidated :
      (cache : TtlCache) (rows : List DocMeta) (name : Text) (now : ℕ)
      → (current_epoch number now (invalidate_epoch_cache cache name) miss rows name).1
        ≡ elim (get_epoch_by_document_name rows name) [
          | none ↦ err document_not_found
          | some n ↦ ok n
        ]
  unfolding invalidate_epoch_cache read_redis read_database
  current_epoch-invalidated cache rows name now =
      current_epoch_missed now (delete cache name) miss rows name
        (rw (get-delete cache name now) refl)
      ∙ elim (Option-cases (get_epoch_by_document_name rows name)) [
        | inl e ↦ rw (e, read_redis, read_database) refl
        | inr (n, e) ↦ rw (e, read_redis, read_database) refl
      ]

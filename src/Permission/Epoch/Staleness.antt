-- ===== src/Permission/Epoch/Staleness.antt =====
-- How old an epoch may be that the local cache of src/permission/epoch.ts answers with.
use mathlib.Core.List.{Memᴰ}
use mathlib.Core.Path.{subst}
use mathlib.Core.Option.{some-injective}
use octo_docs_backend.Base.{
  ℕ, ◌+◌, ◌<◌, ◌≡◌, ◌∙◌, sym, ap, refl, inl, inr, Option, none, some, List, [], ◌∷◌, Text, leb, ok,
  ok-injective, All, Bool-cases, Option-cases, arith,
}
use octo_docs_backend.Db.Meta.{DocMeta, get_epoch_by_document_name}
use octo_docs_backend.Permission.Epoch.{
  Entry, TtlCache, lookup, delete, get, set, Reply, down, miss, hit, read_database, read_redis,
  current_epoch, refresh_and_publish, invalidate_epoch_cache,
}
use octo_docs_backend.Permission.Epoch.Laws.{lookup-All, drop_key-All, refreshed}

-- The calls that one process makes.
pub data Call : Type 0 where
  reads : ℕ → Reply → List DocMeta → Text → Call
  publishes : ℕ → Text → ℕ → Option Text → Call
  invalidates : Text → Call

module _ (number : Text → Option ℕ) where
  -- The cache after a call.
  unfoldable pub step : TtlCache → Call → TtlCache
  unfolding current_epoch refresh_and_publish invalidate_epoch_cache
  step cache (reads now reply rows name) = (current_epoch number now cache reply rows name).0
  step cache (publishes now name epoch uid) = (refresh_and_publish now cache name epoch uid).0
  step cache (invalidates name) = invalidate_epoch_cache cache name

  unfoldable pub run : TtlCache → List Call → TtlCache
  unfolding step
  run cache [] = cache
  run cache (c ∷ calls) = run (step cache c) calls

  -- The number that Redis holds.
  abbrev pub redis_says : Reply → Option ℕ
  redis_says down = none
  redis_says miss = none
  redis_says (hit t) = number t

  -- Redis answers, but with no number.
  abbrev pub Lacks : Reply → Type 0
  Lacks down = ⊥
  Lacks miss = Unit
  Lacks (hit t) = number t ≡ none

  -- What a call may learn at a time as the epoch of a name: what stands in Redis, what the database
  -- holds where Redis answers without a number, or what the call publishes.
  pub data Learns : Call → ℕ → Text → ℕ → Type 0 where
    from_redis :
        {now n : ℕ} {reply : Reply} {rows : List DocMeta} {name : Text}
        → redis_says reply ≡ some n
        → Learns (reads now reply rows name) now name n
    from_database :
        {now n : ℕ} {reply : Reply} {rows : List DocMeta} {name : Text}
        → Lacks reply
        → get_epoch_by_document_name rows name ≡ some n
        → Learns (reads now reply rows name) now name n
    from_writer :
        {now n : ℕ} {name : Text} {uid : Option Text} → Learns (publishes now name n uid) now name n

  -- An entry that a call made when it learned the value.
  record IsSourced (ttl : ℕ) (calls : List Call) (e : Entry) : Type 0 where
    call : Call
    made : Memᴰ call calls
    time : ℕ
    learned : Learns call time e.key e.value
    expiry : e.expires_at ≡ time + ttl

  record IsSound (ttl : ℕ) (calls : List Call) (cache : TtlCache) : Type 0 where
    lifetime : cache.ttl_ms ≡ ttl
    sourced : All (IsSourced ttl calls) cache.store

  module _ (ttl : ℕ) (calls : List Call) where
    set-IsSound :
        (call : Call) (cache : TtlCache) (now n : ℕ) (name : Text)
        → Memᴰ call calls
        → Learns call now name n
        → IsSound ttl calls cache
        → IsSound ttl calls (set now cache name n)
    unfolding set
    set-IsSound call cache now n name m l h = record {
      lifetime = h.lifetime;
      sourced = (
        record {
          call = call;
          made = m;
          time = now;
          learned = l;
          expiry = ap (λ x. now + x) h.lifetime;
        },
        drop_key-All (IsSourced ttl calls) cache.store name h.sourced,
      );
    }

    delete-IsSound :
        (cache : TtlCache) (name : Text)
        → IsSound ttl calls cache
        → IsSound ttl calls (delete cache name)
    unfolding delete
    delete-IsSound cache name h = record {
      lifetime = h.lifetime;
      sourced = drop_key-All (IsSourced ttl calls) cache.store name h.sourced;
    }

    get-IsSound :
        (cache : TtlCache) (now : ℕ) (name : Text)
        → IsSound ttl calls cache
        → IsSound ttl calls (get now cache name).0
    unfolding get
    get-IsSound cache now name h = elim (Option-cases (lookup cache.store name)) [
      | inl e ↦ rw (e, get) h
      | inr (x, e) ↦ elim (Bool-cases (leb x.expires_at now)) [
        | inl t ↦ rw (e, get) (rw (t) (delete-IsSound cache name h))
        | inr t ↦ rw (e, get) (rw (t) h)
      ]
    ]

    database-IsSound :
        (cache : TtlCache) (now : ℕ) (reply : Reply) (rows : List DocMeta) (name : Text)
        → Memᴰ (reads now reply rows name) calls
        → Lacks reply
        → IsSound ttl calls cache
        → IsSound ttl calls (read_database now cache rows name).0
    unfolding read_database
    database-IsSound cache now reply rows name m r h =
        elim (Option-cases (get_epoch_by_document_name rows name)) [
          | inl e ↦ rw (e, read_database) h
          | inr (n, e) ↦
              rw (e, read_database)
                (set-IsSound (reads now reply rows name) cache now n name m (from_database r e) h)
        ]

    redis-IsSound :
        (cache : TtlCache) (now : ℕ) (reply : Reply) (rows : List DocMeta) (name : Text)
        → Memᴰ (reads now reply rows name) calls
        → IsSound ttl calls cache
        → IsSound ttl calls (read_redis number now cache reply rows name).0
    unfolding read_redis
    redis-IsSound cache now down rows name m h = h
    redis-IsSound cache now miss rows name m h = database-IsSound cache now miss rows name m tt h
    redis-IsSound cache now (hit t) rows name m h = elim (Option-cases (number t)) [
      | inl e ↦ rw (e, read_redis) (database-IsSound cache now (hit t) rows name m e h)
      | inr (n, e) ↦
          rw (e, read_redis)
            (set-IsSound (reads now (hit t) rows name) cache now n name m (from_redis e) h)
    ]

    step-IsSound :
        (c : Call) (cache : TtlCache)
        → Memᴰ c calls
        → IsSound ttl calls cache
        → IsSound ttl calls (step cache c)
    unfolding step current_epoch invalidate_epoch_cache
    step-IsSound (reads now reply rows name) cache m h =
        elim (Option-cases ((get now cache name).1)) [
          | inl e ↦
              rw (e, step, current_epoch)
                (redis-IsSound (get now cache name).0 now reply rows name m
                  (get-IsSound cache now name h))
          | inr (n, e) ↦ rw (e, step, current_epoch) h
        ]
    step-IsSound (publishes now name epoch uid) cache m h =
        rw (refreshed now cache name epoch uid)
          (set-IsSound (publishes now name epoch uid) cache now epoch name m from_writer h)
    step-IsSound (invalidates name) cache m h = delete-IsSound cache name h

    run-IsSound :
        (some_calls : List Call) (cache : TtlCache)
        → ((c : Call) → Memᴰ c some_calls → Memᴰ c calls)
        → IsSound ttl calls cache
        → IsSound ttl calls (run cache some_calls)
    unfolding run
    run-IsSound [] cache within h = h
    run-IsSound (c ∷ rest) cache within h =
        run-IsSound rest (step cache c) (λ x m. within x (Memᴰ.tail m))
          (step-IsSound c cache (within c (Memᴰ.head refl)) h)

  abbrev pub empty : ℕ → TtlCache
  empty ttl = record { ttl_ms = ttl; store = [] }

  -- An epoch that the read may learn itself, or that an earlier call could learn less than a time to
  -- live ago.
  pub data IsFresh (ttl : ℕ) (calls : List Call) (now : ℕ) (reply : Reply) (rows : List DocMeta)
      (name : Text) (n : ℕ) : Type 0 where
    at_hand :
        Learns (reads now reply rows name) now name n → IsFresh ttl calls now reply rows name n
    remembered :
        (call : Call) (time : ℕ)
        → Memᴰ call calls
        → Learns call time name n
        → now < time + ttl
        → IsFresh ttl calls now reply rows name n

  module _ (ttl : ℕ) (calls : List Call) (now : ℕ) (reply : Reply) (rows : List DocMeta)
      (name : Text) (n : ℕ) where
    get-IsFresh :
        (cache : TtlCache)
        → IsSound ttl calls cache
        → (get now cache name).1 ≡ some n
        → IsFresh ttl calls now reply rows name n
    unfolding get
    get-IsFresh cache h q = elim (Option-cases (lookup cache.store name)) [
      | inl e ↦ cc (rw (e, get) at q)
      | inr (x, e) ↦ elim (Bool-cases (leb x.expires_at now)) [
        | inl t ↦ cc (rw (t) at (rw (e, get) at q))
        | inr t ↦
            let (s, key) = lookup-All (IsSourced ttl calls) cache.store name x h.sourced e in
            let value : x.value ≡ n = some-injective x.value n (rw (t) at (rw (e, get) at q)) in
            let learned : Learns s.call s.time name n =
              subst (λ v. Learns s.call s.time name v) value
                (subst (λ k. Learns s.call s.time k x.value) key s.learned) in
            remembered s.call s.time s.made learned (ground (arith, t, s.expiry))
      ]
    ]

    database-learned :
        (cache : TtlCache)
        → Lacks reply
        → (read_database now cache rows name).1 ≡ ok n
        → Learns (reads now reply rows name) now name n
    unfolding read_database
    database-learned cache r h = elim (Option-cases (get_epoch_by_document_name rows name)) [
      | inl e ↦ cc (rw (e, read_database) at h)
      | inr (m, e) ↦
          from_database r (e ∙ ap some (ok-injective m n _ refl (rw (e, read_database) at h)))
    ]

    redis-learned :
        (cache : TtlCache) (answer : Reply)
        → reply ≡ answer
        → (read_redis number now cache answer rows name).1 ≡ ok n
        → Learns (reads now reply rows name) now name n
    unfolding read_redis
    redis-learned cache down p h = cc
    redis-learned cache miss p h = database-learned cache (subst Lacks (sym p) tt) h
    redis-learned cache (hit t) p h = elim (Option-cases (number t)) [
      | inl e ↦ database-learned cache (subst Lacks (sym p) e) (rw (e, read_redis) at h)
      | inr (m, e) ↦
          from_redis
            (ap redis_says p ∙ e ∙ ap some (ok-injective m n _ refl (rw (e, read_redis) at h)))
    ]

    -- Whatever calls a process made from an empty cache, in any order and at any times, an epoch that
    -- `currentEpoch` returns stands in Redis at this read, or in the database where Redis answers
    -- without a number, or it stood there at an earlier call or was published by one, less than the
    -- time to live of the local cache before.
    pub current_epoch-IsFresh :
        (current_epoch number now (run (empty ttl) calls) reply rows name).1 ≡ ok n
        → IsFresh ttl calls now reply rows name n
    unfolding current_epoch
    current_epoch-IsFresh h =
        let cache = run (empty ttl) calls in
        let sound =
          run-IsSound ttl calls calls (empty ttl) (λ c m. m)
            (record { lifetime = refl; sourced = tt }) in
        elim (Option-cases ((get now cache name).1)) [
          | inl e ↦
              at_hand (redis-learned (get now cache name).0 reply refl (rw (e, current_epoch) at h))
          | inr (m, e) ↦
              get-IsFresh cache sound
                (e ∙ ap some (ok-injective m n _ refl (rw (e, current_epoch) at h)))
        ]

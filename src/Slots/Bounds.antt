-- ===== src/Slots/Bounds.antt =====
-- The slots and the queue of src/import/docx/importQueue.ts over runs of calls.
use octo_docs_backend.Base.{
  List-cases, ℕ, ◌≤◌, ◌<◌, ◌≡◌, ◌⊎◌, inl, inr, some, List, [], ◌∷◌, length, length-append, arith,
}
use octo_docs_backend.Slots.{
  Config, Gate, idle, acquire, release, Call, acquire_for, release_one, call, run,
}

-- Neither bound is passed, and somebody waits only while every slot is taken.
pub record IsBounded (cfg : Config) (g : Gate) : Type 0 where
  pub slots : g.active ≤ cfg.max_concurrent
  pub queue : length g.waiters ≤ cfg.max_queue
  pub full : (length g.waiters ≡ 0) ⊎ (g.active ≡ cfg.max_concurrent)

call-IsBounded :
    (cfg : Config) (g : Gate) (c : Call)
    → 0 < cfg.max_concurrent
    → IsBounded cfg g
    → IsBounded cfg (call cfg g c)
unfolding call acquire release
call-IsBounded cfg g (acquire_for request) pos h =
    ground (arith, length-append g.waiters (request ∷ []), h.slots, h.queue, h.full)
call-IsBounded cfg g release_one pos h = elim (List-cases g.waiters) [
  | inl e ↦ ground (arith, e, h.slots, h.queue, h.full)
  | inr (next, rest, e) ↦ ground (arith, e, h.slots, h.queue, h.full)
]

pub idle-IsBounded : (cfg : Config) → IsBounded cfg idle
idle-IsBounded cfg = ground arith

-- If at least one slot is configured, then after any acquisitions and releases from a gate within
-- its bounds at most `max_concurrent` requests hold a slot, at most `max_queue` wait, and a request
-- waits only while every slot is taken.
pub run-IsBounded :
    (cfg : Config) (g : Gate) (calls : List Call)
    → 0 < cfg.max_concurrent
    → IsBounded cfg g
    → IsBounded cfg (run cfg g calls)
unfolding run
run-IsBounded cfg g [] pos h = h
run-IsBounded cfg g (c ∷ calls) pos h =
    run-IsBounded cfg (call cfg g c) calls pos (call-IsBounded cfg g c pos h)

-- The waiters are served in the order of their arrival.
pub release-oldest :
    (g : Gate) (next : ℕ) (rest : List ℕ)
    → g.waiters ≡ next ∷ rest
    → ((release g).1 ≡ some next) × ((release g).0.waiters ≡ rest)
unfolding release
release-oldest g next rest h = ground arith

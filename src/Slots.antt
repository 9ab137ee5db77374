-- ===== src/Slots.antt =====
-- The concurrency gates of src/import/docx/importQueue.ts and src/whiteboard/boardExportQueue.ts:
-- the same code over two configurations. A waiter is the number of its request.
pub mod Bounds
use octo_docs_backend.Base.{
  ℕ, ◌+◌, ◌-◌, Bool, true, false, Option, none, some, List, [], ◌∷◌, ◌++◌, ltb, leb, length,
  if◌then◌else◌,
}

pub record Config : Type 0 where
  pub max_concurrent : ℕ
  pub max_queue : ℕ

-- The module's `active` and `waiters`.
pub record Gate : Type 0 where
  pub active : ℕ
  pub waiters : List ℕ

abbrev pub idle : Gate
idle = record { active = 0; waiters = [] }

-- How an acquisition is answered: resolved at once, later, or rejected as busy.
pub data Acquired : Type 0 where
  now later busy : Acquired

-- `acquireDocxImportSlot` and `acquirePngSlot`.
unfoldable pub acquire : Config → ℕ → Gate → Gate × Acquired
acquire cfg request g =
    if ltb g.active cfg.max_concurrent
    then (record g { active = g.active + 1 }, now)
    else if leb cfg.max_queue (length g.waiters)
    then (g, busy)
    else (record g { waiters = g.waiters ++ (request ∷ []) }, later)

-- `releaseDocxImportSlot` and `releasePngSlot`: the gate, and the request that is resolved. The
-- subtraction on ℕ stops at 0, which is the `Math.max(0, active - 1)`.
unfoldable pub release : Gate → Gate × Option ℕ
release g = elim g.waiters [
  | [] ↦ (record { active = g.active - 1; waiters = [] }, none)
  | next ∷ rest ↦ (record { active = g.active - 1 + 1; waiters = rest }, some next)
]

-- The calls that a server makes on the gate.
pub data Call : Type 0 where
  acquire_for : ℕ → Call
  release_one : Call

unfoldable pub call : Config → Gate → Call → Gate
unfolding acquire release
call cfg g (acquire_for request) = (acquire cfg request g).0
call cfg g release_one = (release g).0

unfoldable pub run : Config → Gate → List Call → Gate
run cfg g [] = g
run cfg g (c ∷ calls) = run cfg (call cfg g c) calls

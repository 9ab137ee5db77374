-- ===== src/Examples/Snapshots.antt =====
-- Automatic snapshots at concrete runs. A document is a number, and so is a state.
use mathlib.Core.Option.{some-injective}
use octo_docs_backend.Base.{
  ℕ, ◌+◌, ◌*◌, ◌≡◌, refl, true, Option, none, some, List, [], ◌∷◌, Text, codes, arith,
}
use octo_docs_backend.Examples.{plan_name}
use octo_docs_backend.Collab.Snapshot.{
  derive_snapshot_target, Config, lock_throws, lock_taken, written, DocAutoState, Node, Event,
  stores, fires, get, handle_after_store, fire, run, quiet,
}
use octo_docs_backend.Collab.Snapshot.History.{Burst, view, past, run-refines_history}
use octo_docs_backend.Collab.Snapshot.Losses.{throw_loses_idle}

abbrev settings : Config
settings = record {
  enabled = true;
  min_interval_ms = 60;
  schema_version = 2;
  wb_schema_version = 1;
}

abbrev ann : Option Text
ann = some (codes "ann")

-- What the documents encode to before and after an edit.
abbrev drawn : ℕ → ℕ
drawn doc = doc * 10

abbrev edited : ℕ → ℕ
edited doc = doc * 10 + 1

-- Ann stores at 100, the timer fires, and a store of the server follows.
abbrev events : List (Event ℕ ℕ)
events =
    stores (written 101) drawn 100 plan_name ann 7
    ∷ fires (written 131) edited plan_name
    ∷ stores lock_taken edited 150 plan_name none 8
    ∷ []

abbrev latest : Burst ℕ
latest = record { at = 150; writer = codes "ann"; doc = some 8 }

snapshotted : derive_snapshot_target settings plan_name ≡ some (codes "d1", 2)
unfolding derive_snapshot_target
snapshotted = refl

run-refines_history_example :
    view (get (run settings quiet events).doc_state plan_name) ≡ some latest
unfolding past
run-refines_history_example = run-refines_history settings plan_name events refl

-- The state after Ann's store at 100, whose timer is pending.
abbrev pending : DocAutoState ℕ
pending = record {
  last_store_at = 100;
  last_auto_at = 101;
  idle_timer = some 100;
  last_writer = codes "ann";
  live_doc = some 7;
}

abbrev busy : Node ℕ ℕ
busy = record { doc_state = (plan_name, pending) ∷ []; frames = [] }

throw_loses_idle_example :
    (fire settings
      (written 230)
      edited
      plan_name
      (handle_after_store settings lock_throws drawn 200 plan_name ann 8 busy)).frames
    ≡ []
unfolding get
throw_loses_idle_example =
    throw_loses_idle settings plan_name refl (codes "d1", 2) snapshotted busy lock_throws drawn
      edited 200 230 ann 8 pending (λ h. h) refl (omega arith)
      (λ h. omega (arith, some-injective 100 200 h))

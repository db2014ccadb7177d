-- ===== src/Scheduler/Tests.antt =====
-- The theorems on the saving scheduler (src/scheduler/checkpoint/memory.rs) and on the overview
-- (src/scheduler/snapshot.rs), at concrete values.
use kun.Prelude.{arith, String, pos, true, false, refl, List, [], ◌∷◌, none}
use kun.Error.{ok}
use kun.Scheduler.Task.{Task}
use kun.Scheduler.Worker.{Worker}
use kun.Scheduler.Checkpoint.{Checkpoint}
use kun.Scheduler.Memory.Control.{new_memory, from_checkpoint, checkpoint}
use kun.Scheduler.Memory.Run.{enqueues}
use kun.Scheduler.Persisted.{Persist, Persisted, call_persisted}
use kun.Scheduler.Persisted.Synced.{IfOk, IsSynced, call_persisted-IsSynced}
use kun.Scheduler.Snapshot.{Snapshot, from_snapshots}
use kun.Scheduler.Snapshot.Totals.{IsConsistent, from_snapshots-IsConsistent}

abbrev empty_checkpoint : Checkpoint String
empty_checkpoint = record { ready = []; delayed = []; inflight = [] }

-- A place that keeps the last checkpoint.
abbrev cell : Persist String (Checkpoint String)
cell = record { load = λ p. ok p; save = λ c p. (c, ok tt) }

abbrev worker : Worker
worker = record {
  worker_id = "w1";
  lease_timeout_override = none;
  heartbeat_interval_override = none;
}

abbrev first_task : Task String
first_task = record { id = "a"; request = "a"; ready_at = none; priority = pos 1; depth = 0 }

abbrev begun : Persisted String (Checkpoint String)
begun = record { scheduler = new_memory "s" worker 1; persist = empty_checkpoint }

call_persisted-IsSynced_example :
    IfOk (IsSynced cell) (call_persisted cell 5 (enqueues first_task) begun)
unfolding new_memory from_checkpoint checkpoint
call_persisted-IsSynced_example =
    call_persisted-IsSynced cell 5 (enqueues first_task) begun (λ c p p' h. ground arith) refl

abbrev scopes : List Snapshot
scopes =
    record {
      scope = "s";
      is_paused = false;
      counts = record { ready = 2; delayed = 0; inflight = 1 };
      worker_ids = "w1" ∷ [];
      active_lease_count = 1;
      reclaimed_total = 0;
      workers =
          record { worker_id = "w1"; is_stale = true; inflight_count = 1; active_lease_count = 1 }
          ∷ [];
    }
    ∷ []

from_snapshots-IsConsistent_example : IsConsistent (from_snapshots scopes)
from_snapshots-IsConsistent_example =
    from_snapshots-IsConsistent scopes (omega arith) (omega arith) (omega arith)

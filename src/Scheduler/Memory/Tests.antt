-- ===== src/Scheduler/Memory/Tests.antt =====
-- Runs of the in-memory scheduler (src/scheduler/memory.rs), and the theorems at concrete schedulers.
use kun.Prelude.{
  ℕ, String, ◌+◌, ◌≤◌, ◌≡◌, refl, ap, Bool, true, false, pos, str_eq, eq_iff, List, [], ◌∷◌, ◌++◌,
  none, some, count, All, arith, keep, not, length, inl, inr, map, if◌then◌else◌, position,
  get_elem?, remove_at, insert_at,
}
use kun.Prelude
use kun.Error.{ok, err, is_scheduler_lease_resolution_error}
use kun.Scheduler.Task.{Task, TaskLease, ClaimedTask, is_ready}
use kun.Scheduler.Worker.{Worker}
use kun.Scheduler.Checkpoint.{Checkpoint}
use kun.Scheduler.Traits.{default_batch, default_take_batch_ready}
use kun.Scheduler.Memory.Buckets.{
  InflightEntry, ready_ordering, goes_before, insert_ready, push_ready_task, push_task, push_tasks,
  promote_delayed, is_idle, reset_worker_if_idle,
}
use kun.Scheduler.Memory.Leases.{inactive, find_inflight_entry, ensure_memory_lease, claimed_entry}
use kun.Scheduler.Memory.Calls.{
  entry_tasks, Memory, next_memory_lease_id, new_lease, claim_next, promoted, enqueue, take_ready,
  take_batch_ready, complete, complete_batch, complete_and_enqueue, requeue, release_inflight,
  heartbeat, is_own,
}
use kun.Scheduler.Memory.Control.{from_checkpoint, new_memory, checkpoint}
use kun.Scheduler.Memory.Run.{Call, enqueues, takes, step, run}
use kun.Scheduler.Memory.Tally.{tally}
use kun.Scheduler.Memory.Conserve.{run_keeps_tasks, all_enters, all_leaves, has_id}
use kun.Scheduler.Memory.Histories.{AheadOf, run_take_best, run-Ordered}
use kun.Scheduler.Memory.Sorted.{Ordered}
use kun.Scheduler.Memory.Ready.{NotDue, insert_ready_position}
use kun.Scheduler.Memory.Accepted.{Accepts, claimed_entry-Accepts}
use kun.Scheduler.Memory.Lifecycle.{refused_unchanged, complete_once, claim_then_complete}
use kun.Scheduler.Memory.Batches.{take_batch_ready-default, complete_batch-default}
use kun.Scheduler.Memory.Restart.{restart, queued, release_inflight_own}

abbrev worker : Worker
worker = record {
  worker_id = "w1";
  lease_timeout_override = none;
  heartbeat_interval_override = none;
}

-- A task of the given identity, priority and depth.
abbrev task_of : String → ℕ → ℕ → Task String
task_of id priority depth = record {
  id = id;
  request = id;
  ready_at = none;
  priority = pos priority;
  depth = depth;
}

-- A task that is due at 100.
abbrev late_task : Task String
late_task = record {
  id = "late";
  request = "late";
  ready_at = some 100;
  priority = pos 9;
  depth = 0;
}

abbrev history : List (ℕ × Call String)
history =
    (1, enqueues (task_of "a" 1 0))
    ∷ (2, enqueues (task_of "b" 5 2))
    ∷ (3, enqueues late_task)
    ∷ (4, enqueues (task_of "c" 5 1))
    ∷ (5, takes)
    ∷ []

abbrev fresh : Memory String
fresh = new_memory "s" worker 1

-- Two tasks are ready, one waits, and "c" is inflight.
abbrev busy : Memory String
busy = record {
  scope = "s";
  worker = worker;
  state = record {
    ready = task_of "b" 5 2 ∷ task_of "a" 1 0 ∷ [];
    delayed = late_task ∷ [];
    inflight =
        record {
          task = task_of "c" 5 1;
          lease =
              some (record { task_id = "c"; worker_id = "w1"; lease_id = "w1-memory-lease-5-1" });
        }
        ∷ [];
    paused = false;
    worker_last_seen = some 5;
  };
  runtime_events = [];
  next_lease = 2;
}

run-history : run history fresh ≡ busy
unfolding run step enqueue take_ready promoted promote_delayed push_tasks push_task push_ready_task
    insert_ready goes_before ready_ordering is_ready claim_next new_lease next_memory_lease_id
    new_memory from_checkpoint Prelude.to_string
run-history = refl

abbrev lease_c : TaskLease
lease_c = record { task_id = "c"; worker_id = "w1"; lease_id = "w1-memory-lease-5-1" }

-- The entry of "c" in `busy`.
abbrev entry_c : InflightEntry String
entry_c = record { task = task_of "c" 5 1; lease = some lease_c }

-- The scheduler after "c" was completed.
abbrev calm : Memory String
calm = record busy { state = record busy.state { inflight = []; worker_last_seen = none } }

-- The scheduler after a claim at 200, when "late" is due: "late" goes before the others.
abbrev claimed : Memory String
claimed = record busy {
  state = record busy.state {
    delayed = [];
    inflight =
        entry_c
        ∷ record {
          task = late_task;
          lease =
              some
                (record { task_id = "late"; worker_id = "w1"; lease_id = "w1-memory-lease-200-2" });
        }
        ∷ [];
    worker_last_seen = some 200;
  };
  next_lease = 3;
}

abbrev claim_late : ClaimedTask String
claim_late = record {
  task = late_task;
  lease = record { task_id = "late"; worker_id = "w1"; lease_id = "w1-memory-lease-200-2" };
}

run_keeps_tasks_example :
    tally (has_id "c") (run history fresh).state + count (has_id "c") (all_leaves history fresh)
    ≡ tally (has_id "c") fresh.state + count (has_id "c") (all_enters history fresh)
run_keeps_tasks_example = run_keeps_tasks (has_id "c") history fresh

claims_late :
    take_ready 200 (run history (new_memory "s" worker 1)) ≡ (claimed, ok (some claim_late))
unfolding run step enqueue take_ready promoted promote_delayed push_tasks push_task push_ready_task
    insert_ready goes_before ready_ordering is_ready claim_next new_lease next_memory_lease_id
    new_memory from_checkpoint Prelude.to_string
claims_late = refl

run_take_best_example :
    ((promoted 200 (run history (new_memory "s" worker 1))).state.ready
      ≡ late_task ∷ claimed.state.ready)
    × All (AheadOf late_task) claimed.state.ready
    × NotDue 200 claimed.state.delayed
run_take_best_example = run_take_best "s" worker 1 history 200 claimed claim_late claims_late

run-Ordered_example : Ordered (run history fresh)
unfolding new_memory from_checkpoint
run-Ordered_example = run-Ordered history fresh tt

insert_ready_position_example :
    (front : List (Task String)) × (back : List (Task String)) × (busy.state.ready ≡ front ++ back)
    × (insert_ready (task_of "d" 3 0) busy.state.ready ≡ front ++ task_of "d" 3 0 ∷ back)
    × All (λ u. goes_before (task_of "d" 3 0) u ≡ false) front
    × All (λ u. goes_before (task_of "d" 3 0) u ≡ true) back
unfolding goes_before ready_ordering
insert_ready_position_example =
    insert_ready_position (task_of "d" 3 0) busy.state.ready ((refl, tt), (tt, tt))

finds_c : claimed_entry "complete" "w1" lease_c busy.state.inflight ≡ ok (entry_c, [])
unfolding claimed_entry find_inflight_entry ensure_memory_lease
finds_c = refl

claimed_entry-Accepts_example :
    Accepts "w1" lease_c entry_c
    × ((q : InflightEntry String → Bool)
        → count q busy.state.inflight ≡ (if q entry_c then 1 else 0) + count q [])
claimed_entry-Accepts_example =
    claimed_entry-Accepts "complete" "w1" lease_c busy.state.inflight [] entry_c finds_c

completes_c : complete lease_c busy ≡ (calm, ok tt)
unfolding complete claimed_entry find_inflight_entry ensure_memory_lease reset_worker_if_idle
    is_idle
completes_c = refl

complete_once_example :
    (complete lease_c calm ≡ (calm, err (inactive "complete" lease_c)))
    × (complete_and_enqueue 9 lease_c [] calm ≡ (calm, err (inactive "complete" lease_c)))
    × (requeue 9 lease_c calm ≡ (calm, err (inactive "requeue" lease_c)))
    × (heartbeat 9 lease_c calm ≡ (calm, err (inactive "heartbeat" lease_c)))
complete_once_example = complete_once 9 lease_c [] busy calm (λ id. ground arith) completes_c

claims_late_again : take_ready 200 busy ≡ (claimed, ok (some claim_late))
unfolding take_ready promoted promote_delayed push_tasks push_task push_ready_task insert_ready
    goes_before ready_ordering is_ready claim_next new_lease next_memory_lease_id Prelude.to_string
claims_late_again = refl

claim_then_complete_example :
    (after : Memory String) × (complete claim_late.lease claimed ≡ (after, ok tt))
    × (after.state.inflight ≡ busy.state.inflight)
    × ((promoted 200 busy).state.ready ≡ late_task ∷ after.state.ready)
claim_then_complete_example = claim_then_complete 200 busy claimed claim_late claims_late_again refl

refuses : complete lease_c calm ≡ (calm, err (inactive "complete" lease_c))
unfolding complete claimed_entry find_inflight_entry
refuses = refl

refused_unchanged_example :
    (calm ≡ calm) × (is_scheduler_lease_resolution_error (inactive "complete" lease_c) ≡ true)
refused_unchanged_example =
    refused_unchanged 9 lease_c [] calm calm (inactive "complete" lease_c) (inl refuses)

take_batch_ready-default_example :
    take_batch_ready 200 2 busy ≡ default_take_batch_ready (take_ready 200) 2 busy
take_batch_ready-default_example = take_batch_ready-default 200 2 busy

complete_batch_c : complete_batch (lease_c ∷ []) busy ≡ (calm, ok tt)
unfolding complete_batch claimed_entry find_inflight_entry ensure_memory_lease reset_worker_if_idle
    is_idle
complete_batch_c = refl

complete_batch-default_example : default_batch complete (lease_c ∷ []) busy ≡ (calm, ok tt)
complete_batch-default_example = complete_batch-default lease_c [] busy calm complete_batch_c

abbrev saved : Checkpoint String
saved = record { ready = task_of "a" 1 0 ∷ []; delayed = []; inflight = task_of "c" 5 1 ∷ [] }

restart_example :
    (checkpoint (from_checkpoint "s" worker 1 saved) ≡ saved)
    × ((action : String) (lease : TaskLease)
        → claimed_entry action "w1" lease (from_checkpoint "s" worker 1 saved).state.inflight
          ≡ err (inactive action lease))
restart_example = restart "s" worker 1 saved

release_inflight_own_example :
    ((release_inflight 9 busy).0.state.inflight
      ≡ keep (λ e. not (is_own "w1" e)) busy.state.inflight)
    × (queued (has_id "c") (release_inflight 9 busy).0
        ≡ queued (has_id "c") busy
          + count (has_id "c") (entry_tasks (keep (is_own "w1") busy.state.inflight)))
    × ((release_inflight 9 busy).1 ≡ ok (count (is_own "w1") busy.state.inflight))
release_inflight_own_example = release_inflight_own (has_id "c") 9 busy

-- ===== src/Scheduler/Memory/Run.antt =====
-- src/scheduler/memory.rs: the calls as data, and a history of calls. The mutex makes the calls of
-- several threads one sequence.
use kun.Prelude.{ℕ, String, List, [], ◌∷◌}
use kun.Scheduler.Task.{Task, TaskLease, TaskResolution}
use kun.Scheduler.Memory.Calls.{
  Memory, enqueue, take_ready, take_batch_ready, complete, complete_batch, complete_and_enqueue,
  complete_and_enqueue_batch, requeue, requeue_batch, release_inflight, heartbeat, close,
  drain_runtime_events,
}
use kun.Scheduler.Memory.Control.{pause_scope, resume_scope, release_scope, purge_scope}

pub data Call {ℓ} (R : Type ℓ) : Type ℓ where
  enqueues : Task R → Call R
  takes : Call R
  takes_batch : ℕ → Call R
  completes : TaskLease → Call R
  completes_batch : List TaskLease → Call R
  replaces : TaskLease → List (Task R) → Call R
  replaces_batch : List (TaskResolution R) → Call R
  requeues : TaskLease → Call R
  requeues_batch : List TaskLease → Call R
  releases : Call R
  beats : TaskLease → Call R
  closes : Call R
  drains : Call R
  pauses : String → Call R
  resumes : String → Call R
  releases_scope : String → Call R
  purges_scope : String → Call R

module _ {ℓ} {R : Type ℓ} where
  -- The scheduler after a call at a time.
  unfoldable pub step : ℕ → Call R → Memory R → Memory R
  step now (enqueues t) m = (enqueue now t m).0
  step now takes m = (take_ready now m).0
  step now (takes_batch limit) m = (take_batch_ready now limit m).0
  step now (completes lease) m = (complete lease m).0
  step now (completes_batch leases) m = (complete_batch leases m).0
  step now (replaces lease tasks) m = (complete_and_enqueue now lease tasks m).0
  step now (replaces_batch resolutions) m = (complete_and_enqueue_batch now resolutions m).0
  step now (requeues lease) m = (requeue now lease m).0
  step now (requeues_batch leases) m = (requeue_batch now leases m).0
  step now releases m = (release_inflight now m).0
  step now (beats lease) m = (heartbeat now lease m).0
  step now closes m = (close m).0
  step now drains m = (drain_runtime_events m).0
  step now (pauses scope) m = (pause_scope scope m).0
  step now (resumes scope) m = (resume_scope scope m).0
  step now (releases_scope scope) m = (release_scope now scope m).0
  step now (purges_scope scope) m = (purge_scope scope m).0

  unfoldable pub run : List (ℕ × Call R) → Memory R → Memory R
  run [] m = m
  run ((now, call) ∷ calls) m = run calls (step now call m)

-- ===== src/Scheduler/Memory/Control.antt =====
-- src/scheduler/memory.rs: construction, the exported checkpoint, and the `Control` calls.
use kun.Prelude.{
  ℕ, Bool, true, false, not, String, str_eq, concat, none, some, [], ◌∷◌, map, length, ltb,
  if◌then◌else◌,
}
use kun.Error.{Result, ok, err, scheduler, message}
use kun.Scheduler.Worker.{Worker}
use kun.Scheduler.Checkpoint.{Checkpoint, Counts}
use kun.Scheduler.Runtime.{released_event}
use kun.Scheduler.Memory.Buckets.{push_tasks}
use kun.Scheduler.Memory.Calls.{
  Memory, with_state, with_inflight, push_runtime_event, entry_tasks, reset,
}

unfoldable pub ensure_memory_scope : String → String → Result (Unit {0})
ensure_memory_scope current_scope scope =
    if str_eq scope current_scope
    then ok tt
    else err (
        scheduler (
          message (
            concat (
              "memory scheduler scope `" ∷ scope ∷ "` is not visible from current scope `"
              ∷ current_scope ∷ "`" ∷ []))))

module _ {ℓ} {R : Type ℓ} where
  -- `Memory::from_checkpoint` under the scope, the worker and the lease counter of its process.
  unfoldable pub from_checkpoint : String → Worker → ℕ → Checkpoint R → Memory R
  from_checkpoint scope worker next_lease c = record {
    scope = scope;
    worker = worker;
    state = record {
      ready = c.ready;
      delayed = c.delayed;
      inflight = map (λ t. record { task = t; lease = none }) c.inflight;
      paused = false;
      worker_last_seen = none;
    };
    runtime_events = [];
    next_lease = next_lease;
  }

  -- `Memory::new`.
  unfoldable pub new_memory : String → Worker → ℕ → Memory R
  unfolding from_checkpoint
  new_memory scope worker next_lease =
      from_checkpoint scope worker next_lease (record { ready = []; delayed = []; inflight = [] })

  unfoldable pub checkpoint : Memory R → Checkpoint R
  checkpoint m = record {
    ready = m.state.ready;
    delayed = m.state.delayed;
    inflight = entry_tasks m.state.inflight;
  }

  unfoldable pub counts : Memory R → Counts
  counts m = record {
    ready = length m.state.ready;
    delayed = length m.state.delayed;
    inflight = length m.state.inflight;
  }

  unfoldable pub pause_scope : String → Memory R → Memory R × Result Bool
  pause_scope scope m = elim (ensure_memory_scope m.scope scope) [
    | err e ↦ (m, err e)
    | ok u ↦ (with_state m (record m.state { paused = true }), ok (not m.state.paused))
  ]

  unfoldable pub resume_scope : String → Memory R → Memory R × Result Bool
  resume_scope scope m = elim (ensure_memory_scope m.scope scope) [
    | err e ↦ (m, err e)
    | ok u ↦ (with_state m (record m.state { paused = false }), ok m.state.paused)
  ]

  -- Every inflight entry goes back to the queues, whoever holds its lease.
  unfoldable pub release_all : ℕ → Memory R → Memory R
  release_all now m =
      let empty = with_inflight m [] in
      reset (with_state empty (push_tasks now (entry_tasks m.state.inflight) empty.state))

  unfoldable pub release_scope : ℕ → String → Memory R → Memory R × Result ℕ
  release_scope now scope m =
      let released = length m.state.inflight in
      elim (ensure_memory_scope m.scope scope) [
        | err e ↦ (m, err e)
        | ok u ↦ (
          if ltb 0 released
              then push_runtime_event (released_event (some scope) none released)
                  (release_all now m)
              else release_all now m,
          ok released,
        )
      ]

  unfoldable pub purge_scope : String → Memory R → Memory R × Result Counts
  purge_scope scope m = elim (ensure_memory_scope m.scope scope) [
    | err e ↦ (m, err e)
    | ok u ↦ (
      with_state m
          (record m.state { ready = []; delayed = []; inflight = []; worker_last_seen = none }),
      ok (counts m),
    )
  ]

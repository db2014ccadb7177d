-- ===== src/Scheduler/Memory/Calls.antt =====
-- src/scheduler/memory.rs: the `Scheduler` calls. A call holds the mutex from its first access of the
-- state to its end, so it is one function of the scheduler; it returns the scheduler after it beside
-- its result, on an error too. `now` is the clock in milliseconds.
use kun.Prelude.{
  ℕ, zero, suc, ◌+◌, Bool, true, false, not, ◌||◌, String, str_eq, concat, to_string, Option, none,
  some, List, [], ◌∷◌, ◌++◌, map, length, keep, ltb, if◌then◌else◌,
}
use kun.Error.{Result, ok, err}
use kun.Scheduler.Task.{Task, TaskLease, ClaimedTask, TaskResolution}
use kun.Scheduler.Worker.{Worker}
use kun.Scheduler.Runtime.{RuntimeEvent, released_event, closed_event}
use kun.Scheduler.Memory.Buckets.{
  InflightEntry, State, push_task, push_tasks, promote_delayed, reset_worker_if_idle,
}
use kun.Scheduler.Memory.Leases.{claimed_entry}

-- `next_lease` is the value of `NEXT_MEMORY_LEASE`.
pub record Memory {ℓ} (R : Type ℓ) : Type ℓ where
  pub scope : String
  pub worker : Worker
  pub state : State R
  pub runtime_events : List RuntimeEvent
  pub next_lease : ℕ

unfoldable pub next_memory_lease_id : String → ℕ → ℕ → String
next_memory_lease_id worker_id now n =
    concat (worker_id ∷ "-memory-lease-" ∷ to_string now ∷ "-" ∷ to_string n ∷ [])

abbrev pub is_nil {ℓ} : {A : Type ℓ} → List A → Bool
is_nil [] = true
is_nil (x ∷ xs) = false

module _ {ℓ} {R : Type ℓ} where
  abbrev pub with_state : Memory R → State R → Memory R
  with_state m s = record m { state = s }

  abbrev pub with_inflight : Memory R → List (InflightEntry R) → Memory R
  with_inflight m inflight = with_state m (record m.state { inflight = inflight })

  abbrev pub push_runtime_event : RuntimeEvent → Memory R → Memory R
  push_runtime_event event m = record m { runtime_events = m.runtime_events ++ event ∷ [] }

  unfoldable pub enqueue : ℕ → Task R → Memory R → Memory R × Result (Unit {0})
  enqueue now task m = (with_state m (push_task now task m.state), ok tt)

  -- The lease that the next claim gets.
  unfoldable pub new_lease : ℕ → Task R → Memory R → TaskLease
  new_lease now task m = record {
    task_id = task.id;
    worker_id = m.worker.worker_id;
    lease_id = next_memory_lease_id m.worker.worker_id now m.next_lease;
  }

  -- The front of the ready queue goes inflight under a new lease.
  unfoldable pub claim_next : ℕ → Memory R → Option (ClaimedTask R × Memory R)
  claim_next now m = elim m.state.ready [
    | [] ↦ none
    | task ∷ rest ↦
        let lease = new_lease now task m in
        some (
          record { task = task; lease = lease },
          record m {
            state = record m.state {
              ready = rest;
              inflight = m.state.inflight ++ record { task = task; lease = some lease } ∷ [];
              worker_last_seen = some now;
            };
            next_lease = m.next_lease + 1;
          },
        )
  ]

  unfoldable pub promoted : ℕ → Memory R → Memory R
  promoted now m = with_state m (promote_delayed now m.state)

  -- `none` stands for a call on a paused scheduler.
  unfoldable pub take_ready : ℕ → Memory R → Memory R × Result (Option (ClaimedTask R))
  take_ready now m =
      if m.state.paused then (m, ok none) else elim (claim_next now (promoted now m)) [
        | none ↦ (promoted now m, ok none)
        | some (claimed, m') ↦ (m', ok (some claimed))
      ]

  -- The loop of `take_batch_ready`, with the number of claims that are left.
  unfoldable pub claim_batch : ℕ → ℕ → Memory R → Memory R × List (ClaimedTask R)
  claim_batch now zero m = (m, [])
  claim_batch now (suc n) m = elim (claim_next now m) [
    | none ↦ (m, [])
    | some (claimed, m') ↦ let (m'', rest) = claim_batch now n m' in (m'', claimed ∷ rest)
  ]

  unfoldable pub take_batch_ready : ℕ → ℕ → Memory R → Memory R × Result (List (ClaimedTask R))
  take_batch_ready now zero m = (m, ok [])
  take_batch_ready now (suc n) m =
      if m.state.paused
      then (m, ok [])
      else let (m', claimed) = claim_batch now (suc n) (promoted now m) in (m', ok claimed)

  abbrev pub reset : Memory R → Memory R
  reset m = with_state m (reset_worker_if_idle m.state)

  unfoldable pub complete : TaskLease → Memory R → Memory R × Result (Unit {0})
  complete lease m = elim (claimed_entry "complete" m.worker.worker_id lease m.state.inflight) [
    | err e ↦ (m, err e)
    | ok (entry, rest) ↦ (reset (with_inflight m rest), ok tt)
  ]

  unfoldable pub complete_batch : List TaskLease → Memory R → Memory R × Result (Unit {0})
  complete_batch [] m = (reset m, ok tt)
  complete_batch (lease ∷ leases) m =
      elim (claimed_entry "complete" m.worker.worker_id lease m.state.inflight) [
        | err e ↦ (m, err e)
        | ok (entry, rest) ↦ complete_batch leases (with_inflight m rest)
      ]

  unfoldable pub complete_and_enqueue :
      ℕ → TaskLease → List (Task R) → Memory R → Memory R × Result (Unit {0})
  complete_and_enqueue now lease tasks m =
      elim (claimed_entry "complete" m.worker.worker_id lease m.state.inflight) [
        | err e ↦ (m, err e)
        | ok (entry, rest) ↦
            let m' = with_inflight m rest in
            (reset (with_state m' (push_tasks now tasks m'.state)), ok tt)
      ]

  unfoldable pub complete_and_enqueue_batch :
      ℕ → List (TaskResolution R) → Memory R → Memory R × Result (Unit {0})
  complete_and_enqueue_batch now [] m = (reset m, ok tt)
  complete_and_enqueue_batch now (r ∷ resolutions) m =
      elim (claimed_entry "complete" m.worker.worker_id r.lease m.state.inflight) [
        | err e ↦ (m, err e)
        | ok (entry, rest) ↦
            let m' = with_inflight m rest in
            complete_and_enqueue_batch now resolutions
              (with_state m' (push_tasks now r.tasks m'.state))
      ]

  unfoldable pub requeue : ℕ → TaskLease → Memory R → Memory R × Result (Unit {0})
  requeue now lease m = elim (claimed_entry "requeue" m.worker.worker_id lease m.state.inflight) [
    | err e ↦ (m, err e)
    | ok (entry, rest) ↦
        let m' = with_inflight m rest in
        (reset (with_state m' (push_task now entry.task m'.state)), ok tt)
  ]

  unfoldable pub requeue_batch : ℕ → List TaskLease → Memory R → Memory R × Result (Unit {0})
  requeue_batch now [] m = (reset m, ok tt)
  requeue_batch now (lease ∷ leases) m =
      elim (claimed_entry "requeue" m.worker.worker_id lease m.state.inflight) [
        | err e ↦ (m, err e)
        | ok (entry, rest) ↦
            let m' = with_inflight m rest in
            requeue_batch now leases (with_state m' (push_task now entry.task m'.state))
      ]

  unfoldable pub is_own : String → InflightEntry R → Bool
  is_own worker_id entry = elim entry.lease [
    | none ↦ false
    | some lease ↦ str_eq lease.worker_id worker_id
  ]

  abbrev pub entry_tasks : List (InflightEntry R) → List (Task R)
  entry_tasks = map (λ entry. entry.task)

  -- The entries of this worker go back to the queues, the others stay inflight.
  unfoldable pub release_inflight : ℕ → Memory R → Memory R × Result ℕ
  unfolding is_own
  release_inflight now m =
      let own : InflightEntry R → Bool = is_own m.worker.worker_id in
      let released_tasks = entry_tasks (keep own m.state.inflight) in
      let kept = with_inflight m (keep (λ entry. not (own entry)) m.state.inflight) in
      let after = reset (with_state kept (push_tasks now released_tasks kept.state)) in
      let released = length released_tasks in
      (
        if ltb 0 released
            then push_runtime_event
                (released_event (some m.scope) (some m.worker.worker_id) released) after
            else after,
        ok released,
      )

  unfoldable pub heartbeat : ℕ → TaskLease → Memory R → Memory R × Result (Unit {0})
  heartbeat now lease m =
      elim (claimed_entry "heartbeat" m.worker.worker_id lease m.state.inflight) [
        | err e ↦ (m, err e)
        | ok found ↦ (with_state m (record m.state { worker_last_seen = some now }), ok tt)
      ]

  unfoldable pub close : Memory R → Memory R × Result (Unit {0})
  close m = (push_runtime_event (closed_event (some m.scope) (some m.worker.worker_id)) m, ok tt)

  unfoldable pub drain_runtime_events : Memory R → Memory R × List RuntimeEvent
  drain_runtime_events m = (record m { runtime_events = [] }, m.runtime_events)

  unfoldable pub has_pending : Memory R → Bool
  has_pending m =
      not (is_nil m.state.ready) || not (is_nil m.state.delayed) || not (is_nil m.state.inflight)

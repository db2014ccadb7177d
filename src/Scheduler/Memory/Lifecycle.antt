-- ===== src/Scheduler/Memory/Lifecycle.antt =====
-- src/scheduler/memory.rs: the life of a lease, from the claim to the call that ends it.
use kun.Prelude.{
  ℕ, ◌≤◌, ◌≡◌, ap, ◌∙◌, sym, Bool, true, String, str_eq, eq_iff, List, [], ◌∷◌, ◌++◌, some, count,
  position-append, get_elem?-append, remove_at-append, length, inl, inr, ◌⊎◌, arith,
}
use kun.Error.{Result-cases, ok, err, SpiderError, is_scheduler_lease_resolution_error}
use kun.Scheduler.Task.{Task, TaskLease, TaskId, ClaimedTask}
use kun.Scheduler.Memory.Buckets.{InflightEntry, reset_worker_if_idle, promote_delayed}
use kun.Scheduler.Memory.Leases.{claimed_entry, ensure_memory_lease, find_inflight_entry, inactive}
use kun.Scheduler.Memory.Accepted.{claimed_entry-Accepts, claimed_entry-err, claimed_entry_missing}
use kun.Scheduler.Memory.Claims.{claim_next-parts, claim_next-lease, take_ready-claim_next}
use kun.Scheduler.Memory.Tally.{push_tasks-inflight}
use kun.Scheduler.Memory.Calls.{
  Memory, with_inflight, reset, take_ready, promoted, complete, complete_and_enqueue, requeue,
  heartbeat,
}

module _ {ℓ} {R : Type ℓ} where
  abbrev pub of_task : TaskId → InflightEntry R → Bool
  of_task id entry = str_eq entry.task.id id

  -- No task has two inflight entries.
  abbrev pub UniqueInflight : Memory R → Type 0
  UniqueInflight m = (id : TaskId) → count (of_task id) m.state.inflight ≤ 1

  -- A refused call leaves the scheduler as it was, and its error is one of a lost lease: so for
  -- `complete`, `complete_and_enqueue`, `requeue` and `heartbeat`.
  pub refused_unchanged :
      (now : ℕ) (lease : TaskLease) (tasks : List (Task R)) (m m' : Memory R) (e : SpiderError)
      → (complete lease m ≡ (m', err e))
        ⊎ (complete_and_enqueue now lease tasks m ≡ (m', err e))
        ⊎ (requeue now lease m ≡ (m', err e))
        ⊎ (heartbeat now lease m ≡ (m', err e))
      → (m' ≡ m) × (is_scheduler_lease_resolution_error e ≡ true)
  unfolding complete complete_and_enqueue requeue heartbeat
  refused_unchanged now lease tasks m m' e h = ground (
    arith,
    claimed_entry-err "complete" m.worker.worker_id lease m.state.inflight e,
    claimed_entry-err "requeue" m.worker.worker_id lease m.state.inflight e,
    claimed_entry-err "heartbeat" m.worker.worker_id lease m.state.inflight e,
  )

  -- A task whose id is taken out by an accepted lease is gone from the inflight bucket.
  gone :
      (action action' : String) (lease : TaskLease) (m : Memory R) (entry : InflightEntry R)
      (rest : List (InflightEntry R))
      → UniqueInflight m
      → claimed_entry action m.worker.worker_id lease m.state.inflight ≡ ok (entry, rest)
      → claimed_entry action' m.worker.worker_id lease rest ≡ err (inactive action' lease)
  gone action action' lease m entry rest unique h =
      let (accepted, counted) =
        claimed_entry-Accepts action m.worker.worker_id lease m.state.inflight rest entry h in
      let here = (eq_iff entry.task.id lease.task_id).1 accepted.same_task in
      claimed_entry_missing action' m.worker.worker_id lease rest
        (ground (arith, counted (of_task lease.task_id), unique lease.task_id))

  reset_inflight : (m : Memory R) → (reset m).state.inflight ≡ m.state.inflight
  unfolding reset_worker_if_idle
  reset_inflight m = ground arith

  reset_ready : (m : Memory R) → (reset m).state.ready ≡ m.state.ready
  unfolding reset_worker_if_idle
  reset_ready m = ground arith

  all_refused :
      (now : ℕ) (lease : TaskLease) (tasks : List (Task R)) (m : Memory R)
      → ((action : String)
          → claimed_entry action m.worker.worker_id lease m.state.inflight
            ≡ err (inactive action lease))
      → (complete lease m ≡ (m, err (inactive "complete" lease)))
        × (complete_and_enqueue now lease tasks m ≡ (m, err (inactive "complete" lease)))
        × (requeue now lease m ≡ (m, err (inactive "requeue" lease)))
        × (heartbeat now lease m ≡ (m, err (inactive "heartbeat" lease)))
  unfolding complete complete_and_enqueue requeue heartbeat
  all_refused now lease tasks m h = (
    rw (h "complete", complete),
    rw (h "complete", complete_and_enqueue),
    rw (h "requeue", requeue),
    rw (h "heartbeat", heartbeat),
  )

  -- A lease resolves once: when no task has two inflight entries, then after the lease was
  -- completed each further call on it is refused as inactive and leaves the scheduler as it is.
  pub complete_once :
      (now : ℕ) (lease : TaskLease) (tasks : List (Task R)) (m m' : Memory R)
      → UniqueInflight m
      → complete lease m ≡ (m', ok tt)
      → (complete lease m' ≡ (m', err (inactive "complete" lease)))
        × (complete_and_enqueue now lease tasks m' ≡ (m', err (inactive "complete" lease)))
        × (requeue now lease m' ≡ (m', err (inactive "requeue" lease)))
        × (heartbeat now lease m' ≡ (m', err (inactive "heartbeat" lease)))
  unfolding complete
  complete_once now lease tasks m m' unique h =
      elim (Result-cases (claimed_entry "complete" m.worker.worker_id lease m.state.inflight)) [
        | inl (e, refused) ↦ absurd (ground arith)
        | inr ((entry, rest), found) ↦
            let done : m' ≡ reset (with_inflight m rest) = ground arith in
            let inflight : m'.state.inflight ≡ rest =
              ap (λ n. n.state.inflight) done ∙ reset_inflight (with_inflight m rest) in
            let worker : m'.worker ≡ m.worker = ap (λ n. n.worker) done in
            all_refused now lease tasks m' λ action.
              rw (inflight, worker) (gone "complete" action lease m entry rest unique found)
      ]

  own_lease_ensured :
      (action worker_id : String) (task : Task R) (lease : TaskLease)
      → lease.worker_id ≡ worker_id
      → ensure_memory_lease action worker_id (record { task = task; lease = some lease }) lease
        ≡ ok tt
  unfolding ensure_memory_lease
  own_lease_ensured action worker_id task lease h =
      ground (arith, eq_iff lease.worker_id worker_id, eq_iff lease.lease_id lease.lease_id)

  fresh_accepted :
      (action worker_id : String) (task : Task R) (lease : TaskLease) (es : List (InflightEntry R))
      → count (of_task lease.task_id) es ≡ 0
      → task.id ≡ lease.task_id
      → lease.worker_id ≡ worker_id
      → claimed_entry action worker_id lease (es ++ record { task = task; lease = some lease } ∷ [])
        ≡ ok (record { task = task; lease = some lease }, es)
  unfolding claimed_entry find_inflight_entry
  fresh_accepted action worker_id task lease es h id worker =
      let entry : InflightEntry R = record { task = task; lease = some lease } in
      let found : find_inflight_entry (es ++ entry ∷ []) lease.task_id ≡ some (length es) =
        position-append (of_task lease.task_id) entry es h ((eq_iff task.id lease.task_id).1 id) in
      rw (
        found,
        claimed_entry,
        get_elem?-append es entry,
        own_lease_ensured action worker_id task lease worker,
        remove_at-append es entry,
      )

  promoted-inflight : (now : ℕ) (m : Memory R) → (promoted now m).state.inflight ≡ m.state.inflight
  unfolding promoted promote_delayed
  promoted-inflight now m =
      push_tasks-inflight now m.state.delayed (record m.state { delayed = [] })

  completed :
      (lease : TaskLease) (m : Memory R) (entry : InflightEntry R) (rest : List (InflightEntry R))
      → claimed_entry "complete" m.worker.worker_id lease m.state.inflight ≡ ok (entry, rest)
      → complete lease m ≡ (reset (with_inflight m rest), ok tt)
  unfolding complete
  completed lease m entry rest found = rw (found, complete)

  -- The lease of a claim is accepted: when no other inflight entry has the identity of the claimed
  -- task, `complete` succeeds, the inflight entries are again those from before the claim, and the
  -- task does not come back to the ready queue.
  pub claim_then_complete :
      (now : ℕ) (m m' : Memory R) (c : ClaimedTask R)
      → take_ready now m ≡ (m', ok (some c))
      → count (of_task c.task.id) m.state.inflight ≡ 0
      → (m'' : Memory R) × (complete c.lease m' ≡ (m'', ok tt))
        × (m''.state.inflight ≡ m.state.inflight)
        × ((promoted now m).state.ready ≡ c.task ∷ m''.state.ready)
  claim_then_complete now m m' c h unique =
      let (_, claimed) = take_ready-claim_next now m m' c h in
      let (ready, _, inflight, _, _) = claim_next-parts now (promoted now m) c m' claimed in
      let (id, worker, same_worker) = claim_next-lease now (promoted now m) c m' claimed in
      let before = promoted-inflight now m in
      let entry : InflightEntry R = record { task = c.task; lease = some c.lease } in
      let own =
        fresh_accepted "complete" m'.worker.worker_id c.task c.lease m.state.inflight (rw id unique)
          (sym id) (worker ∙ sym (ap (λ w. w.worker_id) same_worker)) in
      let found : claimed_entry "complete" m'.worker.worker_id c.lease m'.state.inflight
          ≡ ok (entry, m.state.inflight) =
        rw (inflight, before) own in
      let after = with_inflight m' m.state.inflight in
      (
        reset after,
        completed c.lease m' entry m.state.inflight found,
        reset_inflight after,
        ready ∙ ap (◌∷◌ c.task) (sym (reset_ready after)),
      )

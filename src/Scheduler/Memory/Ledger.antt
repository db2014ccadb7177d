-- ===== src/Scheduler/Memory/Ledger.antt =====
-- src/scheduler/memory.rs: which tasks a call brings in and which it takes out for good, and the
-- balance of the calls that complete leases.
use mathlib.Core.Path.{subst}
use kun.Prelude.{
  ℕ, ◌+◌, ◌≡◌, Bool, String, List, [], ◌∷◌, ◌++◌, map, count, count-append, count-map, inl, inr,
  arith,
}
use kun.Error.{Result-cases, ok, err}
use kun.Scheduler.Task.{Task, TaskLease, TaskResolution}
use kun.Scheduler.Memory.Buckets.{InflightEntry, push_tasks}
use kun.Scheduler.Memory.Leases.{claimed_entry}
use kun.Scheduler.Memory.Accepted.{claimed_entry-Accepts}
use kun.Scheduler.Memory.Calls.{
  Memory, with_state, with_inflight, entry_tasks, complete, complete_batch, complete_and_enqueue,
  complete_and_enqueue_batch,
}
use kun.Scheduler.Memory.Control.{ensure_memory_scope}
use kun.Scheduler.Memory.Run.{
  Call, enqueues, completes, completes_batch, replaces, replaces_batch, purges_scope,
}
use kun.Scheduler.Memory.Tally.{tally, one, tally-push_tasks, tally-reset, push_tasks-inflight}

module _ {ℓ} {R : Type ℓ} where
  -- The tasks of the leases that a batch completes: those up to the first refused lease.
  unfoldable pub completed_by : String → List TaskLease → List (InflightEntry R) → List (Task R)
  completed_by worker [] es = []
  completed_by worker (l ∷ ls) es = elim (claimed_entry "complete" worker l es) [
    | err e ↦ []
    | ok (entry, rest) ↦ entry.task ∷ completed_by worker ls rest
  ]

  -- The follow-up tasks of the same resolutions.
  unfoldable pub enqueued_by :
      String → List (TaskResolution R) → List (InflightEntry R) → List (Task R)
  enqueued_by worker [] es = []
  enqueued_by worker (r ∷ rs) es = elim (claimed_entry "complete" worker r.lease es) [
    | err e ↦ []
    | ok (entry, rest) ↦ r.tasks ++ enqueued_by worker rs rest
  ]

  abbrev lease_of : TaskResolution R → TaskLease
  lease_of r = r.lease

  -- What a call brings in.
  unfoldable pub enters : Call R → Memory R → List (Task R)
  unfolding enqueued_by
  enters (enqueues t) m = t ∷ []
  enters (replaces lease tasks) m =
      enqueued_by m.worker.worker_id (record { lease = lease; tasks = tasks } ∷ []) m.state.inflight
  enters (replaces_batch rs) m = enqueued_by m.worker.worker_id rs m.state.inflight
  enters call m = []

  -- What a call takes out for good: completed tasks, and all tasks of a purged scope.
  unfoldable pub leaves : Call R → Memory R → List (Task R)
  unfolding completed_by
  leaves (completes lease) m = completed_by m.worker.worker_id (lease ∷ []) m.state.inflight
  leaves (completes_batch leases) m = completed_by m.worker.worker_id leases m.state.inflight
  leaves (replaces lease tasks) m = completed_by m.worker.worker_id (lease ∷ []) m.state.inflight
  leaves (replaces_batch rs) m = completed_by m.worker.worker_id (map lease_of rs) m.state.inflight
  leaves (purges_scope scope) m = elim (ensure_memory_scope m.scope scope) [
    | err e ↦ []
    | ok u ↦ m.state.ready ++ (m.state.delayed ++ entry_tasks m.state.inflight)
  ]
  leaves call m = []

  module _ (p : Task R → Bool) where
    -- An accepted lease takes one task out of the inflight bucket.
    pub tally-claimed :
        (action : String) (lease : TaskLease) (m : Memory R) (entry : InflightEntry R)
        (rest : List (InflightEntry R))
        → claimed_entry action m.worker.worker_id lease m.state.inflight ≡ ok (entry, rest)
        → tally p (with_inflight m rest).state + one p entry.task ≡ tally p m.state
    unfolding tally
    tally-claimed action lease m entry rest h =
        let (_, counted) =
          claimed_entry-Accepts action m.worker.worker_id lease m.state.inflight rest entry h in
        omega (
          arith,
          counted (λ e. p e.task),
          count-map p (λ (e : InflightEntry R). e.task) m.state.inflight,
          count-map p (λ (e : InflightEntry R). e.task) rest,
        )

    pub tally-complete_batch :
        (leases : List TaskLease) (m : Memory R)
        → tally p (complete_batch leases m).0.state
            + count p (completed_by m.worker.worker_id leases m.state.inflight)
          ≡ tally p m.state
    unfolding complete_batch completed_by
    tally-complete_batch [] m = omega (arith, tally-reset p m.state)
    tally-complete_batch (l ∷ ls) m =
        elim (Result-cases (claimed_entry "complete" m.worker.worker_id l m.state.inflight)) [
          | inl (e, h) ↦ rw (h, complete_batch, completed_by) (omega arith)
          | inr ((entry, rest), h) ↦
              rw (h, complete_batch, completed_by)
                (omega (
                  arith,
                  tally-claimed "complete" l m entry rest h,
                  tally-complete_batch ls (with_inflight m rest),
                ))
        ]

    -- The tasks that a resolution brings in.
    tally-enqueued :
        (now : ℕ) (tasks : List (Task R)) (lease : TaskLease) (m : Memory R)
        (entry : InflightEntry R) (rest : List (InflightEntry R))
        → claimed_entry "complete" m.worker.worker_id lease m.state.inflight ≡ ok (entry, rest)
        → let m' = with_inflight m rest in
          tally p (push_tasks now tasks m'.state) + one p entry.task
          ≡ tally p m.state + count p tasks
    tally-enqueued now tasks lease m entry rest h = omega (
      arith,
      tally-claimed "complete" lease m entry rest h,
      tally-push_tasks p now tasks (with_inflight m rest).state,
    )

    pub tally-replaces :
        (now : ℕ) (lease : TaskLease) (tasks : List (Task R)) (m : Memory R)
        → tally p (complete_and_enqueue now lease tasks m).0.state
            + count p (completed_by m.worker.worker_id (lease ∷ []) m.state.inflight)
          ≡ tally p m.state
            + count p (
                enqueued_by m.worker.worker_id
                  (record { lease = lease; tasks = tasks } ∷ [])
                  m.state.inflight)
    unfolding complete_and_enqueue completed_by enqueued_by
    tally-replaces now lease tasks m =
        elim (Result-cases (claimed_entry "complete" m.worker.worker_id lease m.state.inflight)) [
          | inl (e, h) ↦ rw (h, complete_and_enqueue, completed_by, enqueued_by) (omega arith)
          | inr ((entry, rest), h) ↦
              rw (h, complete_and_enqueue, completed_by, enqueued_by)
                (omega (
                  arith,
                  tally-enqueued now tasks lease m entry rest h,
                  tally-reset p (push_tasks now tasks (with_inflight m rest).state),
                  count-append p tasks [],
                ))
        ]

    pub tally-complete :
        (lease : TaskLease) (m : Memory R)
        → tally p (complete lease m).0.state
            + count p (completed_by m.worker.worker_id (lease ∷ []) m.state.inflight)
          ≡ tally p m.state
    unfolding complete completed_by
    tally-complete lease m =
        elim (Result-cases (claimed_entry "complete" m.worker.worker_id lease m.state.inflight)) [
          | inl (e, h) ↦ rw (h, complete, completed_by) (omega arith)
          | inr ((entry, rest), h) ↦
              rw (h, complete, completed_by)
                (omega (
                  arith,
                  tally-claimed "complete" lease m entry rest h,
                  tally-reset p (with_inflight m rest).state,
                ))
        ]

    pub tally-replaces_batch :
        (now : ℕ) (rs : List (TaskResolution R)) (m : Memory R)
        → tally p (complete_and_enqueue_batch now rs m).0.state
            + count p (completed_by m.worker.worker_id (map lease_of rs) m.state.inflight)
          ≡ tally p m.state + count p (enqueued_by m.worker.worker_id rs m.state.inflight)
    unfolding complete_and_enqueue_batch completed_by enqueued_by
    tally-replaces_batch now [] m = omega (arith, tally-reset p m.state)
    tally-replaces_batch now (r ∷ rs) m =
        elim (Result-cases (claimed_entry "complete" m.worker.worker_id r.lease m.state.inflight)) [
          | inl (e, h) ↦ rw (h, complete_and_enqueue_batch, completed_by, enqueued_by) (omega arith)
          | inr ((entry, rest), h) ↦
              let m' = with_inflight m rest in
              let m'' = with_state m' (push_tasks now r.tasks m'.state) in
              let ih =
                subst
                  (λ es.
                    tally p (complete_and_enqueue_batch now rs m'').0.state
                      + count p (completed_by m.worker.worker_id (map lease_of rs) es)
                    ≡ tally p m''.state + count p (enqueued_by m.worker.worker_id rs es))
                  (push_tasks-inflight now r.tasks m'.state) (tally-replaces_batch now rs m'') in
              rw (h, complete_and_enqueue_batch, completed_by, enqueued_by)
                (omega (
                  arith,
                  ih,
                  tally-enqueued now r.tasks r.lease m entry rest h,
                  count-append p r.tasks (enqueued_by m.worker.worker_id rs rest),
                ))
        ]

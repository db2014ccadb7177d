-- ===== src/Scheduler/Memory/Sorted.antt =====
-- src/scheduler/memory.rs: the ready queue stays in its order through every history of calls.
use mathlib.Core.Path.{subst}
use kun.Prelude.{
  ℕ, zero, suc, ◌≡◌, refl, Bool, true, false, List, [], ◌∷◌, Option, none, some, Option-cases,
  Bool-cases, inl, inr, if◌then◌else◌,
}
use kun.Error.{Result-cases, Result, ok}
use kun.Scheduler.Task.{Task, TaskLease, ClaimedTask, TaskResolution}
use kun.Scheduler.Memory.Buckets.{State, push_task, push_tasks, reset_worker_if_idle, is_idle}
use kun.Scheduler.Memory.Leases.{claimed_entry}
use kun.Scheduler.Memory.Claims.{claim_next-parts}
use kun.Scheduler.Memory.Ready.{
  IsSorted, push_task-IsSorted, push_tasks-IsSorted, promote_delayed-IsSorted,
}
use kun.Scheduler.Memory.Calls.{
  Memory, with_state, with_inflight, take_ready, take_batch_ready, complete, complete_batch,
  complete_and_enqueue, complete_and_enqueue_batch, requeue, requeue_batch, promoted, claim_next,
  claim_batch,
}

module _ {ℓ} {R : Type ℓ} where
  abbrev pub Ordered : Memory R → Type 0
  Ordered m = IsSorted m.state.ready

  pub reset-IsSorted : (s : State R) → IsSorted s.ready → IsSorted (reset_worker_if_idle s).ready
  unfolding reset_worker_if_idle
  reset-IsSorted s h = elim (Bool-cases (is_idle s)) [ inl e ↦ rw e h | inr e ↦ rw e h ]

  pub promoted-Ordered : (now : ℕ) (m : Memory R) → Ordered m → Ordered (promoted now m)
  unfolding promoted
  promoted-Ordered now m h = promote_delayed-IsSorted now m.state h

  claim_next-Ordered :
      (now : ℕ) (m : Memory R) (c : ClaimedTask R) (m' : Memory R)
      → claim_next now m ≡ some (c, m')
      → Ordered m
      → Ordered m'
  claim_next-Ordered now m c m' e h = (subst IsSorted (claim_next-parts now m c m' e).0 h).1

  claim_batch-Ordered : (now n : ℕ) (m : Memory R) → Ordered m → Ordered (claim_batch now n m).0
  unfolding claim_batch
  claim_batch-Ordered now zero m h = h
  claim_batch-Ordered now (suc n) m h = elim (Option-cases (claim_next now m)) [
    | inl e ↦ rw (e, claim_batch) h
    | inr ((c, m'), e) ↦
        rw (e, claim_batch) (claim_batch-Ordered now n m' (claim_next-Ordered now m c m' e h))
  ]

  taken-Ordered :
      (paused : Bool) (claim : Option (ClaimedTask R × Memory R)) (m m' : Memory R)
      → Ordered m
      → Ordered m'
      → ((c : ClaimedTask R) (after : Memory R) → claim ≡ some (c, after) → Ordered after)
      → Ordered
          (if◌then◌else◌ {A = Memory R × Result (Option (ClaimedTask R))} paused
            (m, ok none)
            (elim claim [ none ↦ (m', ok none) | some (c, after) ↦ (after, ok (some c)) ])).0
  taken-Ordered true claim m m' h k l = h
  taken-Ordered false none m m' h k l = k
  taken-Ordered false (some (c, after)) m m' h k l = l c after refl

  pub take_ready-Ordered : (now : ℕ) (m : Memory R) → Ordered m → Ordered (take_ready now m).0
  unfolding take_ready
  take_ready-Ordered now m h =
      let k = promoted-Ordered now m h in
      taken-Ordered m.state.paused (claim_next now (promoted now m)) m (promoted now m) h k
        λ c after e. claim_next-Ordered now (promoted now m) c after e k

  either-Ordered :
      (b : Bool) (x y : Memory R × Result (List (ClaimedTask R)))
      → Ordered x.0
      → Ordered y.0
      → Ordered (if b then x else y).0
  either-Ordered true x y h k = h
  either-Ordered false x y h k = k

  pub take_batch_ready-Ordered :
      (now n : ℕ) (m : Memory R) → Ordered m → Ordered (take_batch_ready now n m).0
  unfolding take_batch_ready
  take_batch_ready-Ordered now zero m h = h
  take_batch_ready-Ordered now (suc n) m h =
      either-Ordered m.state.paused _ _ h
        (claim_batch-Ordered now (suc n) (promoted now m) (promoted-Ordered now m h))

  -- The calls on leases: in each the queue is reset, or tasks are pushed first.
  pub complete_batch-Ordered :
      (leases : List TaskLease) (m : Memory R) → Ordered m → Ordered (complete_batch leases m).0
  unfolding complete_batch
  complete_batch-Ordered [] m h = reset-IsSorted m.state h
  complete_batch-Ordered (l ∷ ls) m h =
      elim (Result-cases (claimed_entry "complete" m.worker.worker_id l m.state.inflight)) [
        | inl (e, f) ↦ rw (f, complete_batch) h
        | inr ((entry, rest), f) ↦
            rw (f, complete_batch) (complete_batch-Ordered ls (with_inflight m rest) h)
      ]

  pub complete-Ordered :
      (lease : TaskLease) (m : Memory R) → Ordered m → Ordered (complete lease m).0
  unfolding complete
  complete-Ordered l m h =
      elim (Result-cases (claimed_entry "complete" m.worker.worker_id l m.state.inflight)) [
        | inl (e, f) ↦ rw (f, complete) h
        | inr ((entry, rest), f) ↦ rw (f, complete) (reset-IsSorted (with_inflight m rest).state h)
      ]

  pub replaces-Ordered :
      (now : ℕ) (l : TaskLease) (tasks : List (Task R)) (m : Memory R)
      → Ordered m
      → Ordered (complete_and_enqueue now l tasks m).0
  unfolding complete_and_enqueue
  replaces-Ordered now l tasks m h =
      elim (Result-cases (claimed_entry "complete" m.worker.worker_id l m.state.inflight)) [
        | inl (e, f) ↦ rw (f, complete_and_enqueue) h
        | inr ((entry, rest), f) ↦
            let s = (with_inflight m rest).state in
            rw (f, complete_and_enqueue)
              (reset-IsSorted (push_tasks now tasks s) (push_tasks-IsSorted now tasks s h))
      ]

  pub replaces_batch-Ordered :
      (now : ℕ) (rs : List (TaskResolution R)) (m : Memory R)
      → Ordered m
      → Ordered (complete_and_enqueue_batch now rs m).0
  unfolding complete_and_enqueue_batch
  replaces_batch-Ordered now [] m h = reset-IsSorted m.state h
  replaces_batch-Ordered now (r ∷ rs) m h =
      elim (Result-cases (claimed_entry "complete" m.worker.worker_id r.lease m.state.inflight)) [
        | inl (e, f) ↦ rw (f, complete_and_enqueue_batch) h
        | inr ((entry, rest), f) ↦
            let m' = with_inflight m rest in
            rw (f, complete_and_enqueue_batch)
              (replaces_batch-Ordered now rs (with_state m' (push_tasks now r.tasks m'.state))
                (push_tasks-IsSorted now r.tasks m'.state h))
      ]

  pub requeue-Ordered :
      (now : ℕ) (l : TaskLease) (m : Memory R) → Ordered m → Ordered (requeue now l m).0
  unfolding requeue
  requeue-Ordered now l m h =
      elim (Result-cases (claimed_entry "requeue" m.worker.worker_id l m.state.inflight)) [
        | inl (e, f) ↦ rw (f, requeue) h
        | inr ((entry, rest), f) ↦
            let s = (with_inflight m rest).state in
            rw (f, requeue)
              (reset-IsSorted (push_task now entry.task s) (push_task-IsSorted now entry.task s h))
      ]

  pub requeue_batch-Ordered :
      (now : ℕ) (ls : List TaskLease) (m : Memory R)
      → Ordered m
      → Ordered (requeue_batch now ls m).0
  unfolding requeue_batch
  requeue_batch-Ordered now [] m h = reset-IsSorted m.state h
  requeue_batch-Ordered now (l ∷ ls) m h =
      elim (Result-cases (claimed_entry "requeue" m.worker.worker_id l m.state.inflight)) [
        | inl (e, f) ↦ rw (f, requeue_batch) h
        | inr ((entry, rest), f) ↦
            let m' = with_inflight m rest in
            rw (f, requeue_batch)
              (requeue_batch-Ordered now ls (with_state m' (push_task now entry.task m'.state))
                (push_task-IsSorted now entry.task m'.state h))
      ]

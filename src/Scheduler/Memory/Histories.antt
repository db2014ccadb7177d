-- ===== src/Scheduler/Memory/Histories.antt =====
-- src/scheduler/memory.rs: properties of the scheduler after every history of calls.
use kun.Prelude.{
  arith, All-imp, leb_int, ◌≤◌, All, ℕ, ◌≡◌, Bool, true, false, String, List, [], ◌∷◌, some, inl,
  inr, not, if◌then◌else◌, keep, length, ltb,
}
use kun.Error.{Result-cases, ok}
use kun.Scheduler.Task.{Task, ClaimedTask}
use kun.Scheduler.Worker.{Worker}
use kun.Scheduler.Memory.Buckets.{InflightEntry, push_tasks, goes_before, ready_ordering}
use kun.Scheduler.Memory.Leases.{claimed_entry}
use kun.Scheduler.Memory.Ready.{push_task-IsSorted, push_tasks-IsSorted, NotDue, take_ready_best}
use kun.Scheduler.Memory.Calls.{
  Memory, with_inflight, entry_tasks, enqueue, take_ready, release_inflight, heartbeat, close,
  drain_runtime_events, promoted, is_own,
}
use kun.Scheduler.Memory.Control.{
  pause_scope, resume_scope, release_scope, purge_scope, release_all, ensure_memory_scope,
  new_memory,
}
use kun.Scheduler.Memory.Run.{
  Call, enqueues, takes, takes_batch, completes, completes_batch, replaces, replaces_batch,
  requeues, requeues_batch, releases, beats, closes, drains, pauses, resumes, releases_scope,
  purges_scope, step, run,
}
use kun.Scheduler.Memory.Sorted.{
  Ordered, reset-IsSorted, take_ready-Ordered, take_batch_ready-Ordered, complete_batch-Ordered,
  complete-Ordered, replaces-Ordered, replaces_batch-Ordered, requeue-Ordered,
  requeue_batch-Ordered,
}

module _ {ℓ} {R : Type ℓ} where
  if_Ordered : (b : Bool) (x y : Memory R) → Ordered x → Ordered y → Ordered (if b then x else y)
  if_Ordered true x y h k = h
  if_Ordered false x y h k = k

  release_inflight-Ordered :
      (now : ℕ) (m : Memory R) → Ordered m → Ordered (release_inflight now m).0
  unfolding release_inflight
  release_inflight-Ordered now m h =
      let own : InflightEntry R → Bool = is_own m.worker.worker_id in
      let back = entry_tasks (keep own m.state.inflight) in
      let kept = (with_inflight m (keep (λ e. not (own e)) m.state.inflight)).state in
      let sorted =
        reset-IsSorted (push_tasks now back kept) (push_tasks-IsSorted now back kept h) in
      if_Ordered (ltb 0 (length back)) _ _ sorted sorted

  release_all-Ordered : (now : ℕ) (m : Memory R) → Ordered m → Ordered (release_all now m)
  unfolding release_all
  release_all-Ordered now m h =
      let s = (with_inflight m []).state in
      reset-IsSorted (push_tasks now (entry_tasks m.state.inflight) s)
        (push_tasks-IsSorted now (entry_tasks m.state.inflight) s h)

  release_scope-Ordered :
      (now : ℕ) (scope : String) (m : Memory R) → Ordered m → Ordered (release_scope now scope m).0
  unfolding release_scope
  release_scope-Ordered now scope m h = elim (Result-cases (ensure_memory_scope m.scope scope)) [
    | inl (e, f) ↦ rw (f, release_scope) h
    | inr (u, f) ↦
        rw (f, release_scope)
          (if_Ordered (ltb 0 (length m.state.inflight)) _ _ (release_all-Ordered now m h)
            (release_all-Ordered now m h))
  ]

  -- Every call keeps the ready queue in its order.
  pub step-Ordered :
      (now : ℕ) (call : Call R) (m : Memory R) → Ordered m → Ordered (step now call m)
  unfolding step enqueue heartbeat close drain_runtime_events pause_scope resume_scope purge_scope
  step-Ordered now (enqueues t) m h = push_task-IsSorted now t m.state h
  step-Ordered now takes m h = take_ready-Ordered now m h
  step-Ordered now (takes_batch n) m h = take_batch_ready-Ordered now n m h
  step-Ordered now (completes l) m h = complete-Ordered l m h
  step-Ordered now (completes_batch ls) m h = complete_batch-Ordered ls m h
  step-Ordered now (replaces l ts) m h = replaces-Ordered now l ts m h
  step-Ordered now (replaces_batch rs) m h = replaces_batch-Ordered now rs m h
  step-Ordered now (requeues l) m h = requeue-Ordered now l m h
  step-Ordered now (requeues_batch ls) m h = requeue_batch-Ordered now ls m h
  step-Ordered now releases m h = release_inflight-Ordered now m h
  step-Ordered now (beats l) m h =
      elim (Result-cases (claimed_entry "heartbeat" m.worker.worker_id l m.state.inflight)) [
        | inl (e, f) ↦ rw (f, step, heartbeat) h
        | inr (x, f) ↦ rw (f, step, heartbeat) h
      ]
  step-Ordered now closes m h = h
  step-Ordered now drains m h = h
  step-Ordered now (pauses s) m h = elim (Result-cases (ensure_memory_scope m.scope s)) [
    | inl (e, f) ↦ rw (f, step, pause_scope) h
    | inr (x, f) ↦ rw (f, step, pause_scope) h
  ]
  step-Ordered now (resumes s) m h = elim (Result-cases (ensure_memory_scope m.scope s)) [
    | inl (e, f) ↦ rw (f, step, resume_scope) h
    | inr (x, f) ↦ rw (f, step, resume_scope) h
  ]
  step-Ordered now (releases_scope s) m h = release_scope-Ordered now s m h
  step-Ordered now (purges_scope s) m h = elim (Result-cases (ensure_memory_scope m.scope s)) [
    | inl (e, f) ↦ rw (f, step, purge_scope) h
    | inr (x, f) ↦ rw (f, step, purge_scope) tt
  ]

  -- When the ready queue is in its order, it is in its order after any history of calls.
  pub run-Ordered : (calls : List (ℕ × Call R)) (m : Memory R) → Ordered m → Ordered (run calls m)
  unfolding run
  run-Ordered [] m h = h
  run-Ordered ((now, call) ∷ calls) m h =
      run-Ordered calls (step now call m) (step-Ordered now call m h)

  -- `t` is of a priority at least as high as that of `u`, and at most as deep if they are equal.
  abbrev pub AheadOf : Task R → Task R → Type 0
  AheadOf t u =
      (leb_int u.priority t.priority ≡ true)
      × (leb_int t.priority u.priority ≡ true → t.depth ≤ u.depth)

  goes_before-AheadOf : (t u : Task R) → goes_before u t ≡ false → AheadOf t u
  unfolding goes_before ready_ordering
  goes_before-AheadOf t u h = (ground arith, λ same. ground arith)

  -- After any history of calls on a new scheduler, a claim takes a task of the highest priority that
  -- is ready or has become due, and of the lowest depth among those; the other tasks stay in the
  -- queue in their order, and no due task stays in the delayed bucket.
  pub run_take_best :
      (scope : String) (worker : Worker) (n : ℕ) (calls : List (ℕ × Call R)) (now : ℕ)
      (m' : Memory R) (c : ClaimedTask R)
      → take_ready now (run calls (new_memory scope worker n)) ≡ (m', ok (some c))
      → ((promoted now (run calls (new_memory scope worker n))).state.ready
          ≡ c.task ∷ m'.state.ready)
        × All (AheadOf c.task) m'.state.ready
        × NotDue now m'.state.delayed
  unfolding new_memory
  run_take_best scope worker n calls now m' c h =
      let (front, best, due) =
        take_ready_best now (run calls (new_memory scope worker n)) m' c
          (run-Ordered calls (new_memory scope worker n) tt) h in
      (
        front,
        All-imp (λ u. goes_before u c.task ≡ false) (AheadOf c.task)
            (λ u. goes_before-AheadOf c.task u) m'.state.ready best,
        due,
      )

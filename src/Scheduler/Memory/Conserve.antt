-- ===== src/Scheduler/Memory/Conserve.antt =====
-- src/scheduler/memory.rs: every call, and every history of calls, keeps the tasks of the scheduler.
use kun.Prelude.{
  ℕ, zero, suc, ◌+◌, ◌≡◌, refl, ◌∙◌, Bool, true, false, not, String, str_eq, Option, none, some,
  List, [], ◌∷◌, ◌++◌, count, keep, count-append, inl, inr, if◌then◌else◌, arith,
}
use kun.Error.{Result-cases, Result, ok}
use kun.Scheduler.Task.{Task, TaskId, TaskLease, ClaimedTask}
use kun.Scheduler.Memory.Buckets.{InflightEntry, push_task, push_tasks}
use kun.Scheduler.Memory.Leases.{claimed_entry}
use kun.Scheduler.Memory.Calls.{
  Memory, claim_next, with_state, with_inflight, entry_tasks, enqueue, take_ready, take_batch_ready,
  requeue, requeue_batch, release_inflight, heartbeat, close, drain_runtime_events, promoted,
  is_own,
}
use kun.Scheduler.Memory.Control.{
  pause_scope, resume_scope, release_scope, purge_scope, release_all, ensure_memory_scope,
}
use kun.Scheduler.Memory.Run.{
  Call, enqueues, takes, takes_batch, completes, completes_batch, replaces, replaces_batch,
  requeues, requeues_batch, releases, beats, closes, drains, pauses, resumes, releases_scope,
  purges_scope, step, run,
}
use kun.Scheduler.Memory.Tally.{
  tally, tally-push_task, tally-push_tasks, tally-reset, tally-promoted, tally-claim_next,
  tally-claim_batch, count-keep,
}
use kun.Scheduler.Memory.Ledger.{
  enters, leaves, tally-claimed, tally-complete_batch, tally-replaces, tally-complete,
  tally-replaces_batch,
}

module _ {ℓ} {R : Type ℓ} where
  module _ (p : Task R → Bool) where
    tally-requeue_batch :
        (now : ℕ) (leases : List TaskLease) (m : Memory R)
        → tally p (requeue_batch now leases m).0.state ≡ tally p m.state
    unfolding requeue_batch
    tally-requeue_batch now [] m = tally-reset p m.state
    tally-requeue_batch now (l ∷ ls) m =
        elim (Result-cases (claimed_entry "requeue" m.worker.worker_id l m.state.inflight)) [
          | inl (e, h) ↦ rw (h, requeue_batch)
          | inr ((entry, rest), h) ↦
              let m' = with_inflight m rest in
              rw (h, requeue_batch)
                (omega (
                  arith,
                  tally-requeue_batch now ls (with_state m' (push_task now entry.task m'.state)),
                  tally-claimed p "requeue" l m entry rest h,
                  tally-push_task p now entry.task m'.state,
                ))
        ]

    -- The two branches of `take_ready`, over what the claim answers.
    tally-taken :
        (paused : Bool) (claim : Option (ClaimedTask R × Memory R)) (m m' : Memory R)
        → tally p m'.state ≡ tally p m.state
        → ((c : ClaimedTask R) (after : Memory R)
            → claim ≡ some (c, after)
            → tally p after.state ≡ tally p m'.state)
        → tally p
            (if◌then◌else◌ {A = Memory R × Result (Option (ClaimedTask R))} paused
              (m, ok none)
              (elim claim [
                | none ↦ (m', ok none)
                | some (c, after) ↦ (after, ok (some c))
              ])).0.state
          ≡ tally p m.state
    tally-taken true claim m m' same claimed = refl
    tally-taken false none m m' same claimed = same
    tally-taken false (some (c, after)) m m' same claimed = claimed c after refl ∙ same

    tally-take_ready :
        (now : ℕ) (m : Memory R) → tally p (take_ready now m).0.state ≡ tally p m.state
    unfolding take_ready
    tally-take_ready now m =
        tally-taken m.state.paused (claim_next now (promoted now m)) m (promoted now m)
          (tally-promoted p now m) (tally-claim_next p now (promoted now m))

    tally-take_batch_ready :
        (now n : ℕ) (m : Memory R) → tally p (take_batch_ready now n m).0.state ≡ tally p m.state
    unfolding take_batch_ready
    tally-take_batch_ready now zero m = refl
    tally-take_batch_ready now (suc n) m =
        ground (arith, tally-claim_batch p now (suc n) (promoted now m), tally-promoted p now m)

    tally-requeue :
        (now : ℕ) (l : TaskLease) (m : Memory R)
        → tally p (requeue now l m).0.state ≡ tally p m.state
    unfolding requeue
    tally-requeue now l m =
        elim (Result-cases (claimed_entry "requeue" m.worker.worker_id l m.state.inflight)) [
          | inl (e, h) ↦ rw (h, requeue)
          | inr ((entry, rest), h) ↦
              let m' = with_inflight m rest in
              rw (h, requeue)
                (omega (
                  arith,
                  tally-reset p (push_task now entry.task m'.state),
                  tally-claimed p "requeue" l m entry rest h,
                  tally-push_task p now entry.task m'.state,
                ))
        ]

    pub tally-release_inflight :
        (now : ℕ) (m : Memory R) → tally p (release_inflight now m).0.state ≡ tally p m.state
    unfolding release_inflight tally
    tally-release_inflight now m =
        let own : InflightEntry R → Bool = is_own m.worker.worker_id in
        let back = entry_tasks (keep own m.state.inflight) in
        let kept = (with_inflight m (keep (λ e. not (own e)) m.state.inflight)).state in
        ground (
          arith,
          tally-reset p (push_tasks now back kept),
          tally-push_tasks p now back kept,
          count-keep p own m.state.inflight,
        )

    pub tally-release_all :
        (now : ℕ) (m : Memory R) → tally p (release_all now m).state ≡ tally p m.state
    unfolding release_all tally
    tally-release_all now m =
        let empty = (with_inflight m []).state in
        omega (
          arith,
          tally-reset p (push_tasks now (entry_tasks m.state.inflight) empty),
          tally-push_tasks p now (entry_tasks m.state.inflight) empty,
        )

    tally-heartbeat :
        (now : ℕ) (l : TaskLease) (m : Memory R)
        → tally p (heartbeat now l m).0.state ≡ tally p m.state
    unfolding heartbeat tally
    tally-heartbeat now l m = ground arith

    tally-pause_scope :
        (scope : String) (m : Memory R) → tally p (pause_scope scope m).0.state ≡ tally p m.state
    unfolding pause_scope tally
    tally-pause_scope scope m = ground arith

    tally-resume_scope :
        (scope : String) (m : Memory R) → tally p (resume_scope scope m).0.state ≡ tally p m.state
    unfolding resume_scope tally
    tally-resume_scope scope m = ground arith

    tally-release_scope :
        (now : ℕ) (scope : String) (m : Memory R)
        → tally p (release_scope now scope m).0.state ≡ tally p m.state
    unfolding release_scope
    tally-release_scope now scope m = ground (arith, tally-release_all now m)

    tally-purged :
        (m : Memory R)
        → tally p
              (record m.state { ready = []; delayed = []; inflight = []; worker_last_seen = none })
            + count p (m.state.ready ++ (m.state.delayed ++ entry_tasks m.state.inflight))
          ≡ tally p m.state + 0
    unfolding tally
    tally-purged m = omega (
      arith,
      count-append p m.state.ready (m.state.delayed ++ entry_tasks m.state.inflight),
      count-append p m.state.delayed (entry_tasks m.state.inflight),
    )

    tally-purge_scope :
        (scope : String) (m : Memory R)
        → tally p (purge_scope scope m).0.state + count p (leaves (purges_scope scope) m)
          ≡ tally p m.state + 0
    unfolding purge_scope leaves
    tally-purge_scope scope m = elim (Result-cases (ensure_memory_scope m.scope scope)) [
      | inl (e, h) ↦ rw (h, purge_scope, leaves) (omega arith)
      | inr (u, h) ↦ rw (h, purge_scope, leaves) (tally-purged m)
    ]

    -- Every call keeps the tasks that the scheduler tracks, but for those that it brings in and
    -- those that it takes out for good; whatever it answers, and whatever it was called with.
    pub step_keeps_tasks :
        (now : ℕ) (call : Call R) (m : Memory R)
        → tally p (step now call m).state + count p (leaves call m)
          ≡ tally p m.state + count p (enters call m)
    unfolding step enters leaves enqueue close drain_runtime_events
    step_keeps_tasks now (enqueues t) m = omega (arith, tally-push_task p now t m.state)
    step_keeps_tasks now takes m = omega (arith, tally-take_ready now m)
    step_keeps_tasks now (takes_batch n) m = omega (arith, tally-take_batch_ready now n m)
    step_keeps_tasks now (completes lease) m = omega (arith, tally-complete p lease m)
    step_keeps_tasks now (completes_batch leases) m = omega (arith, tally-complete_batch p leases m)
    step_keeps_tasks now (replaces lease tasks) m = tally-replaces p now lease tasks m
    step_keeps_tasks now (replaces_batch rs) m = tally-replaces_batch p now rs m
    step_keeps_tasks now (requeues l) m = omega (arith, tally-requeue now l m)
    step_keeps_tasks now (requeues_batch ls) m = omega (arith, tally-requeue_batch now ls m)
    step_keeps_tasks now releases m = omega (arith, tally-release_inflight now m)
    step_keeps_tasks now (beats l) m = omega (arith, tally-heartbeat now l m)
    step_keeps_tasks now closes m = refl
    step_keeps_tasks now drains m = refl
    step_keeps_tasks now (pauses s) m = omega (arith, tally-pause_scope s m)
    step_keeps_tasks now (resumes s) m = omega (arith, tally-resume_scope s m)
    step_keeps_tasks now (releases_scope s) m = omega (arith, tally-release_scope now s m)
    step_keeps_tasks now (purges_scope s) m = tally-purge_scope s m

  -- What a whole history brings in, and what it takes out.
  unfoldable pub all_enters : List (ℕ × Call R) → Memory R → List (Task R)
  all_enters [] m = []
  all_enters ((now, call) ∷ calls) m = enters call m ++ all_enters calls (step now call m)

  unfoldable pub all_leaves : List (ℕ × Call R) → Memory R → List (Task R)
  all_leaves [] m = []
  all_leaves ((now, call) ∷ calls) m = leaves call m ++ all_leaves calls (step now call m)

  -- After any history, the tracked tasks and those that were taken out for good are exactly the
  -- tasks that were there and those that were brought in: none is lost, none is made up, none is
  -- doubled, whatever leases, times and scopes the calls were given.
  pub run_keeps_tasks :
      (p : Task R → Bool) (calls : List (ℕ × Call R)) (m : Memory R)
      → tally p (run calls m).state + count p (all_leaves calls m)
        ≡ tally p m.state + count p (all_enters calls m)
  unfolding run all_enters all_leaves
  run_keeps_tasks p [] m = refl
  run_keeps_tasks p ((now, call) ∷ calls) m = omega (
    arith,
    step_keeps_tasks p now call m,
    run_keeps_tasks p calls (step now call m),
    count-append p (enters call m) (all_enters calls (step now call m)),
    count-append p (leaves call m) (all_leaves calls (step now call m)),
  )

  abbrev pub has_id : TaskId → Task R → Bool
  has_id id t = str_eq t.id id

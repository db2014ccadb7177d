-- ===== src/Engine/Task/Commit.antt =====
-- src/engine/task.rs: what a transition of the scheduler leaves, and a commit on a lost lease.
use kun.Prelude.{
  ℕ, ◌≡◌, refl, ap, ◌∙◌, true, false, String, some, List, [], ◌∷◌, arith, inl, inr, Bool-cases,
}
use kun.Error.{SpiderError, Result, ok, err, is_scheduler_lease_resolution_error}
use kun.Scheduler.Task.{Task, TaskId, TaskLease}
use kun.Scheduler.Memory.Accepted.{claimed_entry-err}
use kun.Scheduler.Memory.Leases.{claimed_entry}
use kun.Scheduler.Memory.Calls
use kun.Scheduler.Memory.Calls.{Memory, complete_and_enqueue}
use kun.Request.{Request}
use kun.Engine.Task.{
  ignore_bool, Setup, Engine, tell, SchedulerEventKind, completed, record_scheduler_event,
  resolve_scheduler_transition, commit_tasks, record_error,
}

module _ {F : Type 0} where
  refused :
      (now : ℕ) (lease : TaskLease) (tasks : List (Task (Request F))) (m : Memory (Request F))
      (cause : SpiderError)
      → claimed_entry "complete" m.worker.worker_id lease m.state.inflight ≡ err cause
      → complete_and_enqueue now lease tasks m ≡ (m, err cause)
  unfolding complete_and_enqueue
  refused now lease tasks m cause h = rw (h, complete_and_enqueue) refl

  pub refused_requeue :
      (now : ℕ) (lease : TaskLease) (m : Memory (Request F)) (cause : SpiderError)
      → claimed_entry "requeue" m.worker.worker_id lease m.state.inflight ≡ err cause
      → Calls.requeue now lease m ≡ (m, err cause)
  unfolding Calls.requeue
  refused_requeue now lease m cause h = rw (h, Calls.requeue) refl

  pub refused_complete :
      (lease : TaskLease) (m : Memory (Request F)) (cause : SpiderError)
      → claimed_entry "complete" m.worker.worker_id lease m.state.inflight ≡ err cause
      → Calls.complete lease m ≡ (m, err cause)
  unfolding Calls.complete
  refused_complete lease m cause h = rw (h, Calls.complete) refl

module _ {F W : Type 0} where
  -- The lease of the run is not accepted by the scheduler.
  abbrev pub NotAccepted : TaskLease → Engine F W → SpiderError → Type 0
  NotAccepted lease e cause =
      claimed_entry "complete" e.scheduler.worker.worker_id lease e.scheduler.state.inflight
      ≡ err cause

  -- What is left of a commit on a lost lease: the log tells of the error and the lost lease.
  abbrev pub lost_lease : TaskLease → String → SpiderError → Engine F W → Engine F W
  lost_lease lease url cause e =
      record_scheduler_event SchedulerEventKind.lease_lost lease url (some cause)
        (tell (record_error ∷ []) e)

  resolve_lost :
      (lease : TaskLease) (url : String) (cause : SpiderError) (e : Engine F W)
      → is_scheduler_lease_resolution_error cause ≡ true
      → resolve_scheduler_transition (e.scheduler, err cause) lease completed url e
        ≡ (lost_lease lease url cause e, ok false)
  unfolding resolve_scheduler_transition
  resolve_lost lease url cause e h = rw (h, resolve_scheduler_transition) refl

  resolved :
      (now : ℕ) (lease : TaskLease) (url : String) (tasks : List (Task (Request F)))
      (e : Engine F W) (cause : SpiderError)
      → NotAccepted lease e cause
      → resolve_scheduler_transition
          (complete_and_enqueue now lease tasks e.scheduler)
          lease
          completed
          url
          e
        ≡ (lost_lease lease url cause e, ok false)
  resolved now lease url tasks e cause h =
      ap (λ r. resolve_scheduler_transition r lease completed url e)
        (refused now lease tasks e.scheduler cause h)
      ∙ resolve_lost lease url cause e (
          claimed_entry-err "complete" e.scheduler.worker.worker_id lease e.scheduler.state.inflight
            cause h)

module _ {F W : Type 0} where
  pub ignored :
      (lease : TaskLease) (url : String) (event : SchedulerEventKind) (e : Engine F W)
      (transition : Memory (Request F) × Result (Unit {0}))
      → (ignore_bool (resolve_scheduler_transition transition lease event url e)).0.scheduler
        ≡ transition.0
  unfolding resolve_scheduler_transition record_scheduler_event
  ignored lease url event e (m, ok u) = refl
  ignored lease url event e (m, err cause) =
      elim (Bool-cases (is_scheduler_lease_resolution_error cause)) [
        | inl here ↦ rw (here, resolve_scheduler_transition) refl
        | inr other ↦ rw (other, resolve_scheduler_transition) refl
      ]

  pub ignored_lost :
      (lease : TaskLease) (url : String) (event : SchedulerEventKind) (e : Engine F W)
      (transition : Memory (Request F) × Result (Unit {0})) (cause : SpiderError)
      → transition ≡ (e.scheduler, err cause)
      → (ignore_bool (resolve_scheduler_transition transition lease event url e)).0.scheduler
        ≡ e.scheduler
  ignored_lost lease url event e transition cause h =
      ignored lease url event e transition ∙ ap (λ r. r.0) h

  pub resolve-scheduler :
      (lease : TaskLease) (url : String) (event : SchedulerEventKind) (e : Engine F W)
      (transition : Memory (Request F) × Result (Unit {0}))
      → (resolve_scheduler_transition transition lease event url e).0.scheduler ≡ transition.0
  unfolding resolve_scheduler_transition record_scheduler_event
  resolve-scheduler lease url event e (m, ok u) = refl
  resolve-scheduler lease url event e (m, err cause) =
      elim (Bool-cases (is_scheduler_lease_resolution_error cause)) [
        | inl here ↦ rw (here, resolve_scheduler_transition) refl
        | inr other ↦ rw (other, resolve_scheduler_transition) refl
      ]

module _ {F Response Item W : Type 0} where
  -- When the lease of a run is lost, committing its tasks succeeds, queues none of them and
  -- announces no request: the scheduler, the middleware and the round stay, and the log tells of
  -- one error and of the lost lease.
  pub commit_tasks_lost :
      (x : Setup F Response Item W) (now : ℕ) (lease : TaskLease) (url : String)
      (tasks : List (Task (Request F))) (requests : List (Request F × TaskId)) (e : Engine F W)
      (cause : SpiderError)
      → NotAccepted lease e cause
      → commit_tasks x now lease url tasks requests e ≡ (lost_lease lease url cause e, ok tt)
  unfolding commit_tasks
  commit_tasks_lost x now lease url tasks requests e cause h =
      let transition = resolved now lease url tasks e cause h in ground arith

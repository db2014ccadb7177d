-- ===== src/Engine/Task/Lost.antt =====
-- src/engine/task.rs: a run whose lease is lost leaves the scheduler as it is.
use kun.Prelude.{ℕ, ◌+◌, ◌≡◌, refl, ap, ◌∙◌, String, none, some, List, [], ◌∷◌, map, inl, inr}
use kun.Error.{SpiderError, err, Result-cases}
use kun.Scheduler.Task.{Task, TaskId, TaskLease}
use kun.Scheduler.Memory.Leases.{claimed_entry}
use kun.Scheduler.Memory.Calls
use kun.Scheduler.Memory.Calls.{Memory, complete_and_enqueue}
use kun.Request.{Request}
use kun.Engine.Task.{
  TaskOutput, success, delay, retry, error, lease_lost, record_retry, TaskRun, TaskOutcome, Setup,
  Engine, tell, completed, requeued, record_scheduler_event, commit_tasks, reschedule,
  apply_task_run, prepare_task_for_enqueue, prepare_follows, step_chain, record_error,
}
use kun.Engine.Task.Commit.{
  NotAccepted, refused_requeue, refused_complete, ignored_lost, commit_tasks_lost,
}
use kun.Engine.Task.Prepare.{prepare_task_for_enqueue-scheduler, prepare_follows-scheduler}

module _ {F Response Item W : Type 0} where
  -- The scheduler of the engine after a commit on a lost lease.
  commit_tasks_lost-scheduler :
      (x : Setup F Response Item W) (now : ℕ) (lease : TaskLease) (url : String)
      (tasks : List (Task (Request F))) (requests : List (Request F × TaskId)) (e : Engine F W)
      (cause : SpiderError)
      → NotAccepted lease e cause
      → (commit_tasks x now lease url tasks requests e).0.scheduler ≡ e.scheduler
  unfolding record_scheduler_event
  commit_tasks_lost-scheduler x now lease url tasks requests e cause h =
      ap (λ r. r.0.scheduler) (commit_tasks_lost x now lease url tasks requests e cause h)

  reschedule_lost-scheduler :
      (x : Setup F Response Item W) (now : ℕ) (lease : TaskLease) (url : String)
      (task : Task (Request F)) (e : Engine F W) (cause : SpiderError)
      → NotAccepted lease e cause
      → (reschedule x now lease url task e).0.scheduler ≡ e.scheduler
  unfolding reschedule
  reschedule_lost-scheduler x now lease url task e cause h =
      let step = step_chain x task.request in
      let (e', prepared) = prepare_task_for_enqueue x step task e in
      let same : e'.scheduler ≡ e.scheduler = prepare_task_for_enqueue-scheduler x step task e in
      elim (Result-cases prepared) [
        | inl (c, failed) ↦ rw (failed, reschedule) same
        | inr (queued, good) ↦
            rw (good, reschedule)
              (commit_tasks_lost-scheduler x now lease url
                  (elim queued [ none ↦ [] | some t ↦ t ∷ [] ]) ((task.request, task.id) ∷ []) e'
                  cause (rw same h)
                ∙ same)
      ]

  success_lost-scheduler :
      (x : Setup F Response Item W) (now : ℕ) (lease : TaskLease) (url : String)
      (output : TaskOutput F) (e : Engine F W) (cause : SpiderError)
      → NotAccepted lease e cause
      → (apply_task_run x now
          (record { lease = lease; url = url; outcome = success output })
          e).0.scheduler
        ≡ e.scheduler
  unfolding apply_task_run
  success_lost-scheduler x now lease url output e cause h =
      let begun : Engine F W = record e { round = e.round + 1 } in
      let (e', prepared) = prepare_follows x output.follows begun in
      let same : e'.scheduler ≡ e.scheduler = prepare_follows-scheduler x output.follows begun in
      elim (Result-cases prepared) [
        | inl (c, failed) ↦ rw (failed, apply_task_run) same
        | inr (tasks, good) ↦
            rw (good, apply_task_run)
              (commit_tasks_lost-scheduler x now lease url (map (λ t. t.1) tasks)
                  (map (λ t. (t.0, t.1.id)) tasks) e' cause (rw same h)
                ∙ same)
      ]

  outcome_lost :
      (x : Setup F Response Item W) (now : ℕ) (lease : TaskLease) (url : String)
      (outcome : TaskOutcome F) (e : Engine F W) (cause cause' : SpiderError)
      → NotAccepted lease e cause
      → claimed_entry "requeue" e.scheduler.worker.worker_id lease e.scheduler.state.inflight
        ≡ err cause'
      → (apply_task_run x now
          (record { lease = lease; url = url; outcome = outcome })
          e).0.scheduler
        ≡ e.scheduler
  unfolding apply_task_run record_scheduler_event
  outcome_lost x now lease url (success output) e c c' h k =
      success_lost-scheduler x now lease url output e c h
  outcome_lost x now lease url (retry task) e c c' h k =
      reschedule_lost-scheduler x now lease url task (tell (record_retry ∷ []) e) c h
  outcome_lost x now lease url (delay task) e c c' h k =
      reschedule_lost-scheduler x now lease url task e c h
  outcome_lost x now lease url TaskOutcome.drop e c c' h k =
      ignored_lost lease url completed e (Calls.complete lease e.scheduler) c
        (refused_complete lease e.scheduler c h)
  outcome_lost x now lease url (error cause) e c c' h k =
      ignored_lost lease url requeued (tell (record_error ∷ []) e)
        (Calls.requeue now lease e.scheduler) c' (refused_requeue now lease e.scheduler c' k)
  outcome_lost x now lease url (lease_lost cause) e c c' h k = refl

  -- When the lease of a run is lost, so that the scheduler accepts it neither to complete nor to
  -- requeue, the run leaves the scheduler as it was, whatever its outcome is and whatever the
  -- middleware answers to the tasks it would queue.
  pub apply_task_run_lost :
      (x : Setup F Response Item W) (now : ℕ) (run : TaskRun F) (e : Engine F W)
      (cause cause' : SpiderError)
      → claimed_entry "complete" e.scheduler.worker.worker_id run.lease e.scheduler.state.inflight
        ≡ err cause
      → claimed_entry "requeue" e.scheduler.worker.worker_id run.lease e.scheduler.state.inflight
        ≡ err cause'
      → (apply_task_run x now run e).0.scheduler ≡ e.scheduler
  apply_task_run_lost x now run e cause cause' h k =
      outcome_lost x now run.lease run.url run.outcome e cause cause' h k

-- ===== src/Engine/Task/Asked.antt =====
-- src/engine/task.rs: the call of the scheduler that the outcome of a run comes to.
use kun.Scheduler.Memory.Ledger.{enters, leaves}
use kun.Prelude.{ℕ, Option, ◌+◌, none, some, List, [], ◌∷◌, map}
use kun.Error.{Result, ok, err}
use kun.Scheduler.Task.{Task, TaskLease}
use kun.Scheduler.Memory.Calls
use kun.Scheduler.Memory.Calls.{Memory}
use kun.Scheduler.Memory.Run.{Call, step, replaces, completes, requeues}
use kun.Request.{Request}
use kun.Engine.Task.{
  TaskRun, TaskOutcome, success, delay, retry, error, lease_lost, Setup, Engine, tell, record_retry,
  prepare_task_for_enqueue, prepare_follows, step_chain,
}

-- What a scheduler goes through: one call, or none.
abbrev pub transition :
    {F : Type 0} → ℕ → Option (Call (Request F)) → Memory (Request F) → Memory (Request F)
transition now none m = m
transition now (some call) m = step now call m

-- The tasks that it takes out for good, and those that it brings in.
abbrev pub taken_out :
    {F : Type 0} → Option (Call (Request F)) → Memory (Request F) → List (Task (Request F))
taken_out none m = []
taken_out (some call) m = leaves call m

abbrev pub brought_in :
    {F : Type 0} → Option (Call (Request F)) → Memory (Request F) → List (Task (Request F))
brought_in none m = []
brought_in (some call) m = enters call m

-- The call of a delayed or a retried task.
abbrev pub rescheduled :
    {F : Type 0} → TaskLease → Result (Option (Task (Request F))) → Option (Call (Request F))
rescheduled lease (err cause) = none
rescheduled lease (ok none) = some (replaces lease [])
rescheduled lease (ok (some t)) = some (replaces lease (t ∷ []))

module _ {F Response Item W : Type 0} where
  -- The call that an outcome asks for. A success completes the lease with the follow-up tasks that
  -- the hooks and the domain filter let through, a delay or a retry with its own task if they let it
  -- through; a drop completes it with none, an error requeues it, and a lost lease is left alone. A
  -- failed hook asks for nothing.
  unfoldable pub asked_of :
      Setup F Response Item W → TaskRun F → Engine F W → Option (Call (Request F))
  asked_of x run e = elim run.outcome [
    | success output ↦
        elim (prepare_follows x output.follows (record e { round = e.round + 1 })).1 [
          | err cause ↦ none
          | ok tasks ↦ some (replaces run.lease (map (λ t. t.1) tasks))
        ]
    | delay task ↦
        rescheduled run.lease (prepare_task_for_enqueue x (step_chain x task.request) task e).1
    | retry task ↦
        rescheduled run.lease
          (prepare_task_for_enqueue x (step_chain x task.request) task
            (tell (record_retry ∷ []) e)).1
    | TaskOutcome.drop ↦ some (completes run.lease)
    | error cause ↦ some (requeues run.lease)
    | lease_lost cause ↦ none
  ]

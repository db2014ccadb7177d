-- ===== src/Engine/Execute/Renewal.antt =====
-- src/engine/task.rs with src/scheduler/memory.rs: the heartbeats of a task on the memory scheduler.
use kun.Prelude.{ℕ, suc, pos, ◌≡◌, ap, ◌∙◌, refl, List, [], ◌∷◌, ◌++◌, some, inr}
use kun.Error.{SpiderError, Result, err}
use kun.Scheduler.Task.{TaskLease}
use kun.Scheduler.Worker.{SignedDuration}
use kun.Scheduler.Memory.Calls
use kun.Scheduler.Memory.Calls.{Memory}
use kun.Scheduler.Memory.Lifecycle.{refused_unchanged}
use kun.Engine.Task.{TaskOutcome}
use kun.Engine.Execute.{Ended, other}
use kun.Engine.Execute.Heartbeat.{
  AllAccepted, after_beats, run_task_with_heartbeat, run_task_with_heartbeat_ends,
}

module _ {R T : Type 0} where
  -- A heartbeat of the lease at the time that the clock shows.
  abbrev pub renews :
      (clock : T → ℕ) (lease : TaskLease) → Memory R × T → (Memory R × T) × Result (Unit {0})
  renews clock lease (m, t) =
      let (m', answer) = Calls.heartbeat (clock t) lease m in ((m', t), answer)

module _ {R T F Item : Type 0} where
  -- On the memory scheduler a task whose heartbeat is refused has always lost its lease: the outcome is
  -- never another error, and the refused heartbeat leaves the scheduler as the task found it, whatever
  -- the task and the other users of the scheduler did before and were still to do.
  pub renews_lost :
      (clock : T → ℕ) (lease : TaskLease) (interval : SignedDuration) (nanoseconds : ℕ)
      (told : Memory R × T → Memory R × T) (early : List (Memory R × T → Memory R × T))
      (progress : Memory R × T → Memory R × T) (late : List (Memory R × T → Memory R × T))
      (finish : Memory R × T → (Memory R × T) × Ended F Item) (s : Memory R × T) (m m' : Memory R)
      (t : T) (e : SpiderError)
      → interval ≡ pos (suc nanoseconds)
      → AllAccepted (renews clock lease) told early s
      → progress (after_beats (renews clock lease) told early s) ≡ (m, t)
      → Calls.heartbeat (clock t) lease m ≡ (m', err e)
      → run_task_with_heartbeat
          (some interval)
          (renews clock lease)
          told
          (early ++ progress ∷ late)
          finish
          s
        ≡ ((m, t), other (TaskOutcome.lease_lost e))
  renews_lost clock lease interval nanoseconds told early progress late finish s m m' t e waits h
        found refused =
      let (same, lost) = refused_unchanged (clock t) lease [] m m' e (inr (inr (inr refused))) in
      let beaten = ap (renews clock lease) found ∙ ap (λ r. ((r.0, t), r.1)) refused in
      let ends =
        run_task_with_heartbeat_ends interval nanoseconds (renews clock lease) told early progress
          late finish s (m', t) e waits h beaten in
      ends.2 ∙ rw (lost, same) refl

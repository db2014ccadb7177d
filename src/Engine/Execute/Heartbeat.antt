-- ===== src/Engine/Execute/Heartbeat.antt =====
-- src/engine/task.rs: `run_task_with_heartbeat`. The task is the list of what it
-- does before each tick of the timer, and its end; a tick that the end precedes is not in the list.
use mathlib.Core.Path.{subst}
use mathlib.Core.List.{append-nil}
use kun.Prelude.{
  ℕ, ap, zero, suc, ◌≡◌, refl, true, Option, none, some, List, [], ◌∷◌, ◌++◌, pos, negsuc,
  if◌then◌else◌, inl, inr, arith,
}
use kun.Error.{
  SpiderError, Result, ok, err, is_ok, Result-cases, is_scheduler_lease_resolution_error,
}
use kun.Scheduler.Worker.{SignedDuration}
use kun.Engine.Execute.{Ended, other}
use kun.Engine.Task.{TaskOutcome}

-- The nanoseconds of a duration that a timer can wait.
unfoldable pub non_negative_std_duration : SignedDuration → Option ℕ
non_negative_std_duration (negsuc n) = none
non_negative_std_duration (pos zero) = none
non_negative_std_duration (pos (suc n)) = some (suc n)

-- What the timer waits between two heartbeats, if it runs.
abbrev pub interval_of : Option SignedDuration → Option ℕ
interval_of none = none
interval_of (some duration) = non_negative_std_duration duration

-- A refused heartbeat ends a task: the lease is lost, or another error.
abbrev pub refused_beat : {F Item : Type 0} → SpiderError → Ended F Item
refused_beat error = other (
    if is_scheduler_lease_resolution_error error
    then TaskOutcome.lease_lost error
    else TaskOutcome.error error)

module _ {S : Type 0} where
  -- The task without a timer.
  unfoldable pub all_progress : List (S → S) → S → S
  all_progress [] s = s
  all_progress (progress ∷ later) s = all_progress later (progress s)

  -- Every heartbeat of these ticks is accepted.
  abbrev pub AllAccepted :
      (heartbeat : S → S × Result (Unit {0})) (told : S → S) → List (S → S) → S → Type 0
  AllAccepted heartbeat told [] s = Unit {0}
  AllAccepted heartbeat told (progress ∷ later) s =
      (is_ok (heartbeat (progress s)).1 ≡ true)
      × AllAccepted heartbeat told later (told (heartbeat (progress s)).0)

  abbrev pub after_beats :
      (heartbeat : S → S × Result (Unit {0})) (told : S → S) → List (S → S) → S → S
  after_beats heartbeat told [] s = s
  after_beats heartbeat told (progress ∷ later) s =
      after_beats heartbeat told later (told (heartbeat (progress s)).0)

module _ {S F Item : Type 0} where
  -- The loop, for a scheduler's heartbeat and the record of its event.
  unfoldable pub beats :
      (heartbeat : S → S × Result (Unit {0})) (told : S → S)
      → List (S → S)
      → (S → S × Ended F Item)
      → S
      → S × Ended F Item
  beats heartbeat told [] finish s = finish s
  beats heartbeat told (progress ∷ later) finish s =
      let (s', answer) = heartbeat (progress s) in
      elim answer [
        | err error ↦ (s', refused_beat error)
        | ok u ↦ beats heartbeat told later finish (told s')
      ]

  unfoldable pub run_task_with_heartbeat :
      (interval : Option SignedDuration) (heartbeat : S → S × Result (Unit {0})) (told : S → S)
      → List (S → S)
      → (S → S × Ended F Item)
      → S
      → S × Ended F Item
  run_task_with_heartbeat interval heartbeat told ticks finish s = elim (interval_of interval) [
    | none ↦ finish (all_progress ticks s)
    | some nanoseconds ↦ beats heartbeat told ticks finish s
  ]

  accepted_beats :
      (heartbeat : S → S × Result (Unit {0})) (told : S → S) (early late : List (S → S))
      (finish : S → S × Ended F Item) (s : S)
      → AllAccepted heartbeat told early s
      → beats heartbeat told (early ++ late) finish s
        ≡ beats heartbeat told late finish (after_beats heartbeat told early s)
  unfolding beats
  accepted_beats heartbeat told [] late finish s h = refl
  accepted_beats heartbeat told (progress ∷ early) late finish s (good, h) =
      elim (Result-cases (heartbeat (progress s)).1) [
        | inl (e, failed) ↦ absurd (ground (good, failed, arith))
        | inr (u, answered) ↦
            rw (answered, beats)
              (accepted_beats heartbeat told early late finish (told (heartbeat (progress s)).0) h)
      ]

  -- Without a timer a task ends by itself, and with one it does so too when all its heartbeats are
  -- accepted. When a heartbeat is refused, the task ends with it, whatever was still to do: the lease is
  -- lost if the error is one of a lease, and otherwise the outcome is the error.
  pub run_task_with_heartbeat_ends :
      (interval : SignedDuration) (nanoseconds : ℕ) (heartbeat : S → S × Result (Unit {0}))
      (told : S → S) (early : List (S → S)) (progress : S → S) (late : List (S → S))
      (finish : S → S × Ended F Item) (s s' : S) (e : SpiderError)
      → interval ≡ pos (suc nanoseconds)
      → AllAccepted heartbeat told early s
      → heartbeat (progress (after_beats heartbeat told early s)) ≡ (s', err e)
      → (run_task_with_heartbeat none heartbeat told early finish s ≡ finish (all_progress early s))
        × (run_task_with_heartbeat (some interval) heartbeat told early finish s
            ≡ finish (after_beats heartbeat told early s))
        × (run_task_with_heartbeat
              (some interval)
              heartbeat
              told
              (early ++ progress ∷ late)
              finish
              s
            ≡ (
              s',
              other (
                  if is_scheduler_lease_resolution_error e
                  then TaskOutcome.lease_lost e
                  else TaskOutcome.error e),
            ))
  unfolding run_task_with_heartbeat beats non_negative_std_duration
  run_task_with_heartbeat_ends interval nanoseconds heartbeat told early progress late finish s s' e
        waits h refused =
      (
        refl,
        rw (waits) (
            subst
              (λ ticks.
                beats heartbeat told ticks finish s ≡ finish (after_beats heartbeat told early s))
              (append-nil early) (accepted_beats heartbeat told early [] finish s h)),
        rw
            (
              waits,
              accepted_beats heartbeat told early (progress ∷ late) finish s h,
              ap (λ r. r.1) refused,
              beats,
            )
            (ap (λ r. (r.0, refused_beat e)) refused),
      )

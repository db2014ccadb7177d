-- ===== src/Scheduler/Persisted.antt =====
-- src/scheduler/checkpoint/memory.rs: the memory scheduler that saves its checkpoint after each call.
-- The place where checkpoints are kept (`Persist`: a file, Redis) is a parameter.
use kun.Prelude.{ℕ, String, Bool, Option, List}
use kun.Error.{Result, ok, err}
use kun.Scheduler.Task.{Task, TaskLease, TaskResolution, ClaimedTask}
use kun.Scheduler.Worker.{Worker}
use kun.Scheduler.Checkpoint.{Checkpoint, Counts}
use kun.Scheduler.Runtime.{RuntimeEvent}
use kun.Scheduler.Traits.{default_batch, default_take_batch_ready}
use kun.Scheduler.Memory.Calls
use kun.Scheduler.Memory.Calls.{Memory}
use kun.Scheduler.Memory.Control
use kun.Scheduler.Memory.Run.{
  Call, enqueues, takes, takes_batch, completes, completes_batch, replaces, replaces_batch,
  requeues, requeues_batch, releases, beats, closes, drains, pauses, resumes, releases_scope,
  purges_scope,
}
pub mod Synced

-- The trait `Persist`, for stores of type `P`: a call returns the store after it.
pub record Persist {ℓ} (R P : Type ℓ) : Type ℓ where
  pub load : P → Result (Checkpoint R)
  pub save : Checkpoint R → P → P × Result (Unit {0})

pub record Persisted {ℓ} (R P : Type ℓ) : Type ℓ where
  pub scheduler : Memory R
  pub persist : P

module _ {ℓ} {R P : Type ℓ} (x : Persist R P) where
  -- `Memory::load`: under the scope, the worker and the lease counter of the process.
  unfoldable pub load : String → Worker → ℕ → P → Result (Persisted R P)
  load scope worker next_lease persist = elim (x.load persist) [
    | err e ↦ err e
    | ok c ↦ ok (record {
      scheduler = Control.from_checkpoint scope worker next_lease c;
      persist = persist;
    })
  ]

  unfoldable pub save_checkpoint : Persisted R P → Persisted R P × Result (Unit {0})
  save_checkpoint s =
      let (persist, saved) = x.save (Control.checkpoint s.scheduler) s.persist in
      (record s { persist = persist }, saved)

  -- `self.scheduler.call(..).await?; self.save_checkpoint().await?; Ok(result)`.
  unfoldable pub saved_call {κ} :
      {A : Type κ} → (Memory R → Memory R × Result A) → Persisted R P → Persisted R P × Result A
  unfolding save_checkpoint
  saved_call call s =
      let (scheduler, result) = call s.scheduler in
      let called : Persisted R P = record s { scheduler = scheduler } in
      elim result [
        | err e ↦ (called, err e)
        | ok a ↦
            let (s', saved) = save_checkpoint called in
            (s', elim saved [ err e ↦ err e | ok u ↦ ok a ])
      ]

  unfoldable pub enqueue : ℕ → Task R → Persisted R P → Persisted R P × Result (Unit {0})
  enqueue now task s = saved_call (Calls.enqueue now task) s

  unfoldable pub take_ready : ℕ → Persisted R P → Persisted R P × Result (Option (ClaimedTask R))
  take_ready now s = saved_call (Calls.take_ready now) s

  unfoldable pub complete : TaskLease → Persisted R P → Persisted R P × Result (Unit {0})
  complete lease s = saved_call (Calls.complete lease) s

  unfoldable pub complete_and_enqueue :
      ℕ → TaskLease → List (Task R) → Persisted R P → Persisted R P × Result (Unit {0})
  complete_and_enqueue now lease tasks s = saved_call (Calls.complete_and_enqueue now lease tasks) s

  unfoldable pub requeue : ℕ → TaskLease → Persisted R P → Persisted R P × Result (Unit {0})
  requeue now lease s = saved_call (Calls.requeue now lease) s

  unfoldable pub release_inflight : ℕ → Persisted R P → Persisted R P × Result ℕ
  release_inflight now s = saved_call (Calls.release_inflight now) s

  unfoldable pub close : Persisted R P → Persisted R P × Result (Unit {0})
  close s = saved_call Calls.close s

  unfoldable pub drain_runtime_events : Persisted R P → Persisted R P × List RuntimeEvent
  drain_runtime_events s =
      let (scheduler, events) = Calls.drain_runtime_events s.scheduler in
      (record s { scheduler = scheduler }, events)

  unfoldable pub pause_scope : String → Persisted R P → Persisted R P × Result Bool
  pause_scope scope s = saved_call (Control.pause_scope scope) s

  unfoldable pub resume_scope : String → Persisted R P → Persisted R P × Result Bool
  resume_scope scope s = saved_call (Control.resume_scope scope) s

  unfoldable pub release_scope : ℕ → String → Persisted R P → Persisted R P × Result ℕ
  release_scope now scope s = saved_call (Control.release_scope now scope) s

  unfoldable pub purge_scope : String → Persisted R P → Persisted R P × Result Counts
  purge_scope scope s = saved_call (Control.purge_scope scope) s

  -- The methods that the trait gives by default: the batches are calls one after the other, and a
  -- heartbeat does nothing.
  unfoldable pub take_batch_ready :
      ℕ → ℕ → Persisted R P → Persisted R P × Result (List (ClaimedTask R))
  take_batch_ready now limit s = default_take_batch_ready (take_ready now) limit s

  unfoldable pub complete_batch : List TaskLease → Persisted R P → Persisted R P × Result (Unit {0})
  complete_batch leases s = default_batch complete leases s

  unfoldable pub complete_and_enqueue_batch :
      ℕ → List (TaskResolution R) → Persisted R P → Persisted R P × Result (Unit {0})
  complete_and_enqueue_batch now resolutions s =
      default_batch (λ r. complete_and_enqueue now r.lease r.tasks) resolutions s

  unfoldable pub requeue_batch :
      ℕ → List TaskLease → Persisted R P → Persisted R P × Result (Unit {0})
  requeue_batch now leases s = default_batch (requeue now) leases s

  unfoldable pub heartbeat : TaskLease → Persisted R P → Persisted R P × Result (Unit {0})
  heartbeat lease s = (s, ok tt)

-- The scheduler after a call, and whether the call succeeded.
abbrev pub done {ℓ κ} : {S : Type ℓ} {A : Type κ} → S × Result A → S × Result (Unit {0})
done (s, err e) = (s, err e)
done (s, ok a) = (s, ok tt)

module _ {ℓ} {R P : Type ℓ} (x : Persist R P) where
  unfoldable pub call_persisted : ℕ → Call R → Persisted R P → Persisted R P × Result (Unit {0})
  call_persisted now (enqueues t) s = enqueue x now t s
  call_persisted now takes s = done (take_ready x now s)
  call_persisted now (takes_batch limit) s = done (take_batch_ready x now limit s)
  call_persisted now (completes lease) s = complete x lease s
  call_persisted now (completes_batch leases) s = complete_batch x leases s
  call_persisted now (replaces lease tasks) s = complete_and_enqueue x now lease tasks s
  call_persisted now (replaces_batch resolutions) s = complete_and_enqueue_batch x now resolutions s
  call_persisted now (requeues lease) s = requeue x now lease s
  call_persisted now (requeues_batch leases) s = requeue_batch x now leases s
  call_persisted now releases s = done (release_inflight x now s)
  call_persisted now (beats lease) s = heartbeat x lease s
  call_persisted now closes s = close x s
  call_persisted now drains s = ((drain_runtime_events x s).0, ok tt)
  call_persisted now (pauses scope) s = done (pause_scope x scope s)
  call_persisted now (resumes scope) s = done (resume_scope x scope s)
  call_persisted now (releases_scope scope) s = done (release_scope x now scope s)
  call_persisted now (purges_scope scope) s = done (purge_scope x scope s)

-- ===== src/Scheduler/Memory/Restart.antt =====
-- src/scheduler/memory.rs: a scheduler restored from a checkpoint, and the calls that give inflight
-- tasks back to the queues.
use kun.Prelude.{
  ℕ, ◌+◌, ◌≡◌, refl, ap, eq_iff, ◌∙◌, Bool, true, not, String, List, [], ◌∷◌, none, map, length,
  count, keep, all, length-keep, length-map, arith,
}
use kun.Error.{ok, err}
use kun.Scheduler.Task.{Task, TaskLease}
use kun.Scheduler.Worker.{Worker}
use kun.Scheduler.Checkpoint.{Checkpoint}
use kun.Scheduler.Memory.Buckets.{InflightEntry, is_none, push_tasks, reset_worker_if_idle}
use kun.Scheduler.Memory.Leases.{claimed_entry, inactive}
use kun.Scheduler.Memory.Accepted.{claimed_entry_idle}
use kun.Scheduler.Memory.Tally.{push_tasks-inflight, tally, count-keep}
use kun.Scheduler.Memory.Conserve.{tally-release_all, tally-release_inflight}
use kun.Scheduler.Memory.Calls.{
  Memory, with_inflight, with_state, reset, entry_tasks, is_own, release_inflight,
}
use kun.Scheduler.Memory.Control.{
  from_checkpoint, checkpoint, release_scope, release_all, ensure_memory_scope,
}

module _ {ℓ} {R : Type ℓ} where
  abbrev inactive_entry : Task R → InflightEntry R
  inactive_entry t = record { task = t; lease = none }

  entry_tasks_inactive : (ts : List (Task R)) → entry_tasks (map inactive_entry ts) ≡ ts
  entry_tasks_inactive [] = refl
  entry_tasks_inactive (t ∷ ts) = ap (◌∷◌ t) (entry_tasks_inactive ts)

  all_inactive :
      (ts : List (Task R))
      → all (λ (e : InflightEntry R). is_none e.lease) (map inactive_entry ts) ≡ true
  all_inactive [] = refl
  all_inactive (t ∷ ts) = all_inactive ts

  -- A checkpoint survives a restart: the restored scheduler exports the same three buckets in the
  -- same order. The leases do not: every call on a lease is refused as inactive.
  pub restart :
      (scope : String) (worker : Worker) (n : ℕ) (c : Checkpoint R)
      → let m = from_checkpoint scope worker n c in
        (checkpoint m ≡ c)
        × ((action : String) (lease : TaskLease)
            → claimed_entry action worker.worker_id lease m.state.inflight
              ≡ err (inactive action lease))
  unfolding from_checkpoint checkpoint
  restart scope worker n c = (
    ap (λ ts. record c { inflight = ts }) (entry_tasks_inactive c.inflight),
    λ action lease.
        claimed_entry_idle action worker.worker_id lease (map inactive_entry c.inflight)
          (all_inactive c.inflight),
  )

  reset_inflight : (m : Memory R) → (reset m).state.inflight ≡ m.state.inflight
  unfolding reset_worker_if_idle
  reset_inflight m = ground arith

  kept_inflight :
      (now : ℕ) (m : Memory R)
      → (release_inflight now m).0.state.inflight
        ≡ keep (λ e. not (is_own m.worker.worker_id e)) m.state.inflight
  unfolding release_inflight
  kept_inflight now m =
      let own : InflightEntry R → Bool = is_own m.worker.worker_id in
      let back = entry_tasks (keep own m.state.inflight) in
      let kept = with_inflight m (keep (λ e. not (own e)) m.state.inflight) in
      ground (
        arith,
        reset_inflight (with_state kept (push_tasks now back kept.state)),
        push_tasks-inflight now back kept.state,
      )

  -- The queued tasks with a property, ready or delayed.
  abbrev pub queued : (Task R → Bool) → Memory R → ℕ
  queued p m = count p m.state.ready + count p m.state.delayed

  -- `release_inflight` gives back the entries of this worker and no other: the others stay in their
  -- order, the queues get exactly the tasks of its own entries, and the answer is how many were given
  -- back.
  pub release_inflight_own :
      (p : Task R → Bool) (now : ℕ) (m : Memory R)
      → let own = is_own m.worker.worker_id in
        let after = (release_inflight now m).0 in
        (after.state.inflight ≡ keep (λ e. not (own e)) m.state.inflight)
        × (queued p after ≡ queued p m + count p (entry_tasks (keep own m.state.inflight)))
        × ((release_inflight now m).1 ≡ ok (count own m.state.inflight))
  unfolding release_inflight tally
  release_inflight_own p now m = (
    kept_inflight now m,
    let own : InflightEntry R → Bool = is_own m.worker.worker_id in
        let same : count p (entry_tasks (release_inflight now m).0.state.inflight)
            ≡ count p (entry_tasks (keep (λ e. not (own e)) m.state.inflight)) =
          ap (λ es. count p (entry_tasks es)) (kept_inflight now m) in
        omega (arith, same, tally-release_inflight p now m, count-keep p own m.state.inflight),
    ap ok (
        length-map (λ (e : InflightEntry R). e.task)
          (keep (is_own m.worker.worker_id) m.state.inflight)
        ∙ length-keep (is_own m.worker.worker_id) m.state.inflight),
  )

  release_all-inflight : (now : ℕ) (m : Memory R) → (release_all now m).state.inflight ≡ []
  unfolding release_all
  release_all-inflight now m =
      let empty = with_inflight m [] in
      reset_inflight (with_state empty (push_tasks now (entry_tasks m.state.inflight) empty.state))
      ∙ push_tasks-inflight now (entry_tasks m.state.inflight) empty.state

  -- `release_scope` empties the inflight bucket, whoever holds the leases, and keeps every task.
  pub release_scope_all :
      (p : Task R → Bool) (now : ℕ) (m : Memory R)
      → let after = (release_scope now m.scope m).0 in
        ((release_scope now m.scope m).1 ≡ ok (length m.state.inflight))
        × (after.state.inflight ≡ [])
        × (tally p after.state ≡ tally p m.state)
  unfolding release_scope ensure_memory_scope
  release_scope_all p now m =
      ground (arith, eq_iff m.scope m.scope, release_all-inflight now m, tally-release_all p now m)

-- ===== src/Scheduler/Memory/Accepted.antt =====
-- src/scheduler/memory.rs: what an accepted lease says of the inflight entries, and which errors a
-- refused one gives.
use kun.Prelude.{
  ℕ, ◌+◌, ◌≡◌, Bool, true, String, str_eq, eq_iff, some, List, get_elem?, remove_at, count,
  position_found, position-none, all, all-get_elem?, Option-cases, inl, inr, if◌then◌else◌, arith,
}
use kun.Error.{ok, err, SpiderError, is_scheduler_lease_resolution_error}
use kun.Scheduler.Task.{TaskLease}
use kun.Scheduler.Memory.Buckets.{InflightEntry, is_none}
use kun.Scheduler.Memory.Leases.{find_inflight_entry, ensure_memory_lease, claimed_entry, inactive}

module _ {ℓ} {R : Type ℓ} where
  -- A call accepts `lease` for `entry`: the same task, the worker of the scheduler, and the token
  -- that the entry holds.
  pub record Accepts (worker_id : String) (lease : TaskLease) (entry : InflightEntry R)
      : Type 0 where
    pub active : TaskLease
    pub holds : entry.lease ≡ some active
    pub same_task : entry.task.id ≡ lease.task_id
    pub same_worker : lease.worker_id ≡ worker_id
    pub same_token : lease.lease_id ≡ active.lease_id

  ensure_accepts :
      (action worker_id : String) (entry : InflightEntry R) (lease : TaskLease)
      → ensure_memory_lease action worker_id entry lease ≡ ok tt
      → (active : TaskLease) × (entry.lease ≡ some active)
        × (lease.worker_id ≡ worker_id)
        × (lease.lease_id ≡ active.lease_id)
  unfolding ensure_memory_lease
  ensure_accepts action worker_id entry lease h = elim (Option-cases entry.lease) [
    | inl e ↦ absurd (ground arith)
    | inr (active, e) ↦ (
      active,
      e,
      ground (arith, eq_iff lease.worker_id worker_id),
      ground (arith, eq_iff lease.lease_id active.lease_id),
    )
  ]

  pub claimed_entry-ok :
      (action worker_id : String) (lease : TaskLease) (inflight rest : List (InflightEntry R))
      (entry : InflightEntry R)
      → claimed_entry action worker_id lease inflight ≡ ok (entry, rest)
      → (i : ℕ) × (find_inflight_entry inflight lease.task_id ≡ some i)
        × (get_elem? inflight i ≡ some entry)
        × (rest ≡ remove_at inflight i)
        × (ensure_memory_lease action worker_id entry lease ≡ ok tt)
  unfolding claimed_entry
  claimed_entry-ok action worker_id lease inflight rest entry h = ground arith

  -- An accepted lease singles out one inflight entry, and the call goes on without it.
  pub claimed_entry-Accepts :
      (action worker_id : String) (lease : TaskLease) (inflight rest : List (InflightEntry R))
      (entry : InflightEntry R)
      → claimed_entry action worker_id lease inflight ≡ ok (entry, rest)
      → Accepts worker_id lease entry
        × ((q : InflightEntry R → Bool)
            → count q inflight ≡ (if q entry then 1 else 0) + count q rest)
  unfolding find_inflight_entry
  claimed_entry-Accepts action worker_id lease inflight rest entry h =
      let (i, found, at, removed, ensured) =
        claimed_entry-ok action worker_id lease inflight rest entry h in
      let (active, holds, worker, token) = ensure_accepts action worker_id entry lease ensured in
      let same : InflightEntry R → Bool = λ e. str_eq e.task.id lease.task_id in
      (
        record {
          active = active;
          holds = holds;
          same_task =
              (eq_iff entry.task.id lease.task_id).0
                (position_found same same inflight i entry found at).0;
          same_worker = worker;
          same_token = token;
        },
        λ q. rw removed (position_found same q inflight i entry found at).1,
      )

  -- A refused lease always gives an error of lost leases.
  pub claimed_entry-err :
      (action worker_id : String) (lease : TaskLease) (inflight : List (InflightEntry R))
      (e : SpiderError)
      → claimed_entry action worker_id lease inflight ≡ err e
      → is_scheduler_lease_resolution_error e ≡ true
  unfolding claimed_entry ensure_memory_lease is_scheduler_lease_resolution_error
  claimed_entry-err action worker_id lease inflight e h = ground arith

  -- No entry of the task: the lease is refused as inactive.
  pub claimed_entry_missing :
      (action worker_id : String) (lease : TaskLease) (inflight : List (InflightEntry R))
      → count (λ e. str_eq e.task.id lease.task_id) inflight ≡ 0
      → claimed_entry action worker_id lease inflight ≡ err (inactive action lease)
  unfolding claimed_entry find_inflight_entry
  claimed_entry_missing action worker_id lease inflight h =
      let none_found = position-none (λ e. str_eq e.task.id lease.task_id) inflight h in
      rw (none_found, claimed_entry)

  -- No entry holds a lease: none is accepted.
  pub claimed_entry_idle :
      (action worker_id : String) (lease : TaskLease) (inflight : List (InflightEntry R))
      → all (λ (e : InflightEntry R). is_none e.lease) inflight ≡ true
      → claimed_entry action worker_id lease inflight ≡ err (inactive action lease)
  unfolding claimed_entry ensure_memory_lease
  claimed_entry_idle action worker_id lease inflight h =
      elim (Option-cases (find_inflight_entry inflight lease.task_id)) [
        | inl e ↦ rw (e, claimed_entry)
        | inr (i, e) ↦ elim (Option-cases (get_elem? inflight i)) [
          | inl f ↦ rw (e, claimed_entry, f)
          | inr (entry, f) ↦
              let idle =
                all-get_elem? (λ (x : InflightEntry R). is_none x.lease) inflight i entry h f in
              ground arith
        ]
      ]

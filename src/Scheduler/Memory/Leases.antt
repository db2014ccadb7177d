-- ===== src/Scheduler/Memory/Leases.antt =====
-- src/scheduler/memory.rs: how a call finds the entry of its lease, and when the lease is accepted.
use kun.Prelude.{
  ℕ, String, str_eq, Option, none, some, List, position, get_elem?, remove_at, if◌then◌else◌,
}
use kun.Error.{
  Result, ok, err, SpiderError, scheduler, lease_worker_mismatch, stale_lease, inactive_lease,
}
use kun.Scheduler.Task.{TaskId, TaskLease}
use kun.Scheduler.Memory.Buckets.{InflightEntry}

unfoldable pub inactive : String → TaskLease → SpiderError
inactive action lease = scheduler (inactive_lease action lease.task_id)

unfoldable pub stale : String → TaskLease → SpiderError
stale action lease = scheduler (stale_lease action lease.task_id lease.worker_id lease.lease_id)

module _ {ℓ} {R : Type ℓ} where
  unfoldable pub find_inflight_entry : List (InflightEntry R) → TaskId → Option ℕ
  find_inflight_entry inflight task_id =
      position (λ (entry : InflightEntry R). str_eq entry.task.id task_id) inflight

  -- The three tests of a lease, in their order.
  unfoldable pub ensure_memory_lease :
      String → String → InflightEntry R → TaskLease → Result (Unit {0})
  unfolding inactive stale
  ensure_memory_lease action current_worker_id entry lease = elim entry.lease [
    | none ↦ err (inactive action lease)
    | some active ↦
        if str_eq lease.worker_id current_worker_id
        then if str_eq lease.lease_id active.lease_id then ok tt else err (stale action lease)
        else err (scheduler (lease_worker_mismatch lease.worker_id current_worker_id))
  ]

  -- The start of each call on a lease: the entry, if the lease is accepted, and the entries without
  -- it. A position that was found is in range, so the inner `none` does not occur.
  unfoldable pub claimed_entry :
      String
      → String
      → TaskLease
      → List (InflightEntry R)
      → Result (InflightEntry R × List (InflightEntry R))
  claimed_entry action worker_id lease inflight =
      elim (find_inflight_entry inflight lease.task_id) [
        | none ↦ err (inactive action lease)
        | some i ↦ elim (get_elem? inflight i) [
          | none ↦ err (inactive action lease)
          | some entry ↦ elim (ensure_memory_lease action worker_id entry lease) [
            | err e ↦ err e
            | ok u ↦ ok (entry, remove_at inflight i)
          ]
        ]
      ]

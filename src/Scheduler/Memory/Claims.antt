-- ===== src/Scheduler/Memory/Claims.antt =====
-- src/scheduler/memory.rs: what one claim does, and `take_batch_ready` against the loop of
-- `take_ready` that the `Scheduler` trait gives by default (src/scheduler/traits.rs).
use kun.Prelude.{ℕ, ◌≡◌, false, [], ◌∷◌, ◌++◌, some, arith}
use kun.Error.{ok}
use kun.Scheduler.Task.{ClaimedTask}
use kun.Scheduler.Memory.Calls.{Memory, claim_next, promoted, take_ready, new_lease}

module _ {ℓ} {R : Type ℓ} where
  pub claim_next-parts :
      (now : ℕ) (m : Memory R) (c : ClaimedTask R) (m' : Memory R)
      → claim_next now m ≡ some (c, m')
      → (m.state.ready ≡ c.task ∷ m'.state.ready)
        × (m'.state.delayed ≡ m.state.delayed)
        × (m'.state.inflight
            ≡ m.state.inflight ++ record { task = c.task; lease = some c.lease } ∷ [])
        × (c.lease ≡ new_lease now c.task m)
        × (m'.state.paused ≡ m.state.paused)
  unfolding claim_next
  claim_next-parts now m c m' h =
      (ground arith, ground arith, ground arith, ground arith, ground arith)

  pub claim_next-lease :
      (now : ℕ) (m : Memory R) (c : ClaimedTask R) (m' : Memory R)
      → claim_next now m ≡ some (c, m')
      → (c.lease.task_id ≡ c.task.id)
        × (c.lease.worker_id ≡ m.worker.worker_id)
        × (m'.worker ≡ m.worker)
  unfolding claim_next new_lease
  claim_next-lease now m c m' h = (ground arith, ground arith, ground arith)

  -- A claim is made on an unpaused scheduler, from the promoted queue.
  pub take_ready-claim_next :
      (now : ℕ) (m m' : Memory R) (c : ClaimedTask R)
      → take_ready now m ≡ (m', ok (some c))
      → (m.state.paused ≡ false) × (claim_next now (promoted now m) ≡ some (c, m'))
  unfolding take_ready
  take_ready-claim_next now m m' c h = ground arith

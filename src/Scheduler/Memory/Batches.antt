-- ===== src/Scheduler/Memory/Batches.antt =====
-- src/scheduler/memory.rs: the batch calls against the loops that the `Scheduler` trait gives by
-- default (src/scheduler/traits.rs).
use mathlib.Core.List.{append_assoc}
use kun.Prelude.{
  ℕ, zero, suc, ◌≡◌, refl, ap, sym, ◌∙◌, true, false, String, List, [], ◌∷◌, ◌++◌, none, some,
  append-nil, Bool-cases, Option-cases, inl, inr, if_true, if_false, arith,
}
use kun.Error.{Result-cases, ok, err}
use kun.Scheduler.Task.{Task, TaskLease}
use kun.Scheduler.Traits.{default_take_batch_ready, default_batch}
use kun.Scheduler.Memory.Buckets.{
  State, InflightEntry, is_idle, push_tasks, promote_delayed, push_task, reset_worker_if_idle,
}
use kun.Scheduler.Memory.Leases.{claimed_entry, inactive}
use kun.Scheduler.Memory.Accepted.{claimed_entry_idle}
use kun.Scheduler.Memory.Calls.{
  Memory, with_state, with_inflight, reset, claim_next, claim_batch, promoted, take_ready,
  take_batch_ready, complete, complete_batch,
}
use kun.Scheduler.Memory.Claims.{claim_next-parts}
use kun.Scheduler.Memory.Ready.{NotDue, promote_delayed-NotDue}

module _ {ℓ} {R : Type ℓ} where
  -- A second promotion at the same time changes nothing.
  push_tasks-NotDue :
      (now : ℕ) (ts : List (Task R)) (s : State R)
      → NotDue now ts
      → push_tasks now ts s ≡ record s { delayed = s.delayed ++ ts }
  unfolding push_tasks push_task
  push_tasks-NotDue now [] s h = ap (λ d. record s { delayed = d }) (sym (append-nil s.delayed))
  push_tasks-NotDue now (t ∷ ts) s h = rw h.0 (
      push_tasks-NotDue now ts (record s { delayed = s.delayed ++ t ∷ [] }) h.1
      ∙ ap (λ d. record s { delayed = d }) (append_assoc s.delayed (t ∷ []) ts))

  promote_again : (now : ℕ) (s : State R) → NotDue now s.delayed → promote_delayed now s ≡ s
  unfolding promote_delayed
  promote_again now s h = push_tasks-NotDue now s.delayed (record s { delayed = [] }) h

  promoted_again : (now : ℕ) (m : Memory R) → NotDue now m.state.delayed → promoted now m ≡ m
  unfolding promoted
  promoted_again now m h = ap (with_state m) (promote_again now m.state h)

  take_ready_paused :
      (now : ℕ) (m : Memory R) → m.state.paused ≡ true → take_ready now m ≡ (m, ok none)
  unfolding take_ready
  take_ready_paused now m h = ground arith

  -- On an unpaused scheduler with nothing to promote, `take_ready` is one claim.
  take_ready_settled :
      (now : ℕ) (m : Memory R)
      → m.state.paused ≡ false
      → NotDue now m.state.delayed
      → take_ready now m
        ≡ elim (claim_next now m) [ none ↦ (m, ok none) | some (c, m') ↦ (m', ok (some c)) ]
  unfolding take_ready
  take_ready_settled now m unpaused h = ground (arith, promoted_again now m h)

  claim_batch-default :
      (now n : ℕ) (m : Memory R)
      → m.state.paused ≡ false
      → NotDue now m.state.delayed
      → default_take_batch_ready (take_ready now) n m
        ≡ ((claim_batch now n m).0, ok (claim_batch now n m).1)
  unfolding claim_batch default_take_batch_ready
  claim_batch-default now zero m unpaused h = refl
  claim_batch-default now (suc n) m unpaused h =
      let settled = take_ready_settled now m unpaused h in
      elim (Option-cases (claim_next now m)) [
        | inl e ↦
            let taken : take_ready now m ≡ (m, ok none) = rw (settled, e) in
            rw (taken, e, claim_batch)
        | inr ((c, m'), e) ↦
            let (_, delayed, _, _, paused) = claim_next-parts now m c m' e in
            let ih = claim_batch-default now n m' (paused ∙ unpaused) (rw delayed h) in
            let taken : take_ready now m ≡ (m', ok (some c)) = rw (settled, e) in
            rw (taken, e, claim_batch) (rw ih)
      ]

  push_tasks-paused :
      (now : ℕ) (ts : List (Task R)) (s : State R) → (push_tasks now ts s).paused ≡ s.paused
  unfolding push_tasks push_task
  push_tasks-paused now [] s = refl
  push_tasks-paused now (t ∷ ts) s = ground (arith, push_tasks-paused now ts (push_task now t s))

  promoted-paused : (now : ℕ) (m : Memory R) → (promoted now m).state.paused ≡ m.state.paused
  unfolding promoted promote_delayed
  promoted-paused now m = push_tasks-paused now m.state.delayed (record m.state { delayed = [] })

  promoted-NotDue : (now : ℕ) (m : Memory R) → NotDue now (promoted now m).state.delayed
  unfolding promoted
  promoted-NotDue now m = promote_delayed-NotDue now m.state

  take_ready-promoted :
      (now : ℕ) (m : Memory R)
      → m.state.paused ≡ false
      → take_ready now m ≡ take_ready now (promoted now m)
  unfolding take_ready
  take_ready-promoted now m unpaused =
      ground
        (arith, promoted_again now (promoted now m) (promoted-NotDue now m), promoted-paused now m)

  default_take_batch_promoted :
      (now n : ℕ) (m : Memory R)
      → m.state.paused ≡ false
      → default_take_batch_ready (take_ready now) (suc n) m
        ≡ default_take_batch_ready (take_ready now) (suc n) (promoted now m)
  unfolding default_take_batch_ready
  default_take_batch_promoted now n m unpaused = rw (take_ready-promoted now m unpaused)

  -- `take_batch_ready` is the trait's loop of `take_ready`: the same claims under the same leases,
  -- and the same state after it.
  pub take_batch_ready-default :
      (now n : ℕ) (m : Memory R)
      → take_batch_ready now n m ≡ default_take_batch_ready (take_ready now) n m
  unfolding take_batch_ready default_take_batch_ready
  take_batch_ready-default now zero m = refl
  take_batch_ready-default now (suc n) m = elim (Bool-cases m.state.paused) [
    | inl paused ↦ if_true m.state.paused _ _ paused ∙ sym (rw (take_ready_paused now m paused))
    | inr unpaused ↦
        if_false m.state.paused _ _ unpaused
        ∙ sym (
            default_take_batch_promoted now n m unpaused
            ∙ claim_batch-default now (suc n) (promoted now m) (promoted-paused now m ∙ unpaused)
                (promoted-NotDue now m))
  ]

  idle_refused :
      (action worker_id : String) (lease : TaskLease) (m : Memory R)
      → is_idle m.state ≡ true
      → claimed_entry action worker_id lease m.state.inflight ≡ err (inactive action lease)
  unfolding is_idle
  idle_refused action worker_id lease m idle =
      claimed_entry_idle action worker_id lease m.state.inflight idle

  -- A lease is accepted only if some entry holds one, so the worker is not idle.
  reset_busy :
      (action worker_id : String) (lease : TaskLease) (m : Memory R)
      (found : InflightEntry R × List (InflightEntry R))
      → claimed_entry action worker_id lease m.state.inflight ≡ ok found
      → reset m ≡ m
  unfolding reset_worker_if_idle
  reset_busy action worker_id lease m found h = elim (Bool-cases (is_idle m.state)) [
    | inl idle ↦ absurd (ground (arith, idle_refused action worker_id lease m idle))
    | inr busy ↦ ap (with_state m) (if_false (is_idle m.state) _ _ busy)
  ]

  complete_found :
      (lease : TaskLease) (m : Memory R) (entry : InflightEntry R) (rest : List (InflightEntry R))
      → claimed_entry "complete" m.worker.worker_id lease m.state.inflight ≡ ok (entry, rest)
      → complete lease m ≡ (reset (with_inflight m rest), ok tt)
  unfolding complete
  complete_found lease m entry rest found = rw (found, complete)

  completed_rest :
      (leases : List TaskLease) (m m' : Memory R)
      → complete_batch leases m ≡ (m', ok tt)
      → default_batch complete leases (reset m) ≡ (m', ok tt)
  unfolding complete_batch default_batch
  completed_rest [] m m' h = h
  completed_rest (lease ∷ leases) m m' h =
      elim (Result-cases (claimed_entry "complete" m.worker.worker_id lease m.state.inflight)) [
        | inl (e, refused) ↦ absurd (ground arith)
        | inr ((entry, rest), found) ↦
            rw
              (
                reset_busy "complete" m.worker.worker_id lease m (entry, rest) found,
                complete_found lease m entry rest found,
              )
              (completed_rest leases (with_inflight m rest) m' (rw (found, complete_batch) at h))
      ]

  -- A completed batch of leases leaves the scheduler as the calls for one lease after the other do,
  -- each of which succeeds.
  pub complete_batch-default :
      (lease : TaskLease) (leases : List TaskLease) (m m' : Memory R)
      → complete_batch (lease ∷ leases) m ≡ (m', ok tt)
      → default_batch complete (lease ∷ leases) m ≡ (m', ok tt)
  unfolding complete_batch default_batch
  complete_batch-default lease leases m m' h =
      elim (Result-cases (claimed_entry "complete" m.worker.worker_id lease m.state.inflight)) [
        | inl (e, refused) ↦ absurd (ground arith)
        | inr ((entry, rest), found) ↦
            rw (complete_found lease m entry rest found)
              (completed_rest leases (with_inflight m rest) m' (rw (found, complete_batch) at h))
      ]

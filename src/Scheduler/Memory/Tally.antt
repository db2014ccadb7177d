-- ===== src/Scheduler/Memory/Tally.antt =====
-- src/scheduler/memory.rs: how many tasks with a property each helper and call keeps track of. The
-- property is any test, so equal tallies mean the same tasks, as often, in some order.
use kun.Scheduler.Memory.Claims.{claim_next-parts}
use kun.Prelude.{
  ℕ, zero, suc, ap, ◌∙◌, Option-cases, ◌+◌, ◌≡◌, refl, Bool, not, List, [], ◌∷◌, ◌++◌, some, count,
  keep, count-append, count-insert_at, Bool-cases, inl, inr, if◌then◌else◌, arith,
}
use kun.Scheduler.Task.{Task, ClaimedTask, is_ready}
use kun.Scheduler.Memory.Buckets.{
  State, InflightEntry, insert_ready, push_task, push_tasks, promote_delayed, reset_worker_if_idle,
}
use kun.Scheduler.Memory.Calls.{Memory, promoted, entry_tasks, claim_next, claim_batch}

module _ {ℓ} {R : Type ℓ} (p : Task R → Bool) where
  -- How many of the tasks in the three buckets have the property.
  unfoldable pub tally : State R → ℕ
  tally s = count p s.ready + count p s.delayed + count p (entry_tasks s.inflight)

  abbrev pub one : Task R → ℕ
  one t = if p t then 1 else 0

  pub count-insert_ready :
      (t : Task R) (xs : List (Task R)) → count p (insert_ready t xs) ≡ one t + count p xs
  unfolding insert_ready
  count-insert_ready t xs = count-insert_at p xs _ t

  pub tally-push_task :
      (now : ℕ) (t : Task R) (s : State R) → tally (push_task now t s) ≡ one t + tally s
  unfolding tally push_task
  tally-push_task now t s = elim (Bool-cases (is_ready now t)) [
    | inl e ↦ rw e (omega (arith, count-insert_ready t s.ready))
    | inr e ↦ rw e (omega (arith, count-append p s.delayed (t ∷ [])))
  ]

  pub tally-push_tasks :
      (now : ℕ) (ts : List (Task R)) (s : State R)
      → tally (push_tasks now ts s) ≡ count p ts + tally s
  unfolding push_tasks
  tally-push_tasks now [] s = omega arith
  tally-push_tasks now (t ∷ ts) s =
      omega (arith, tally-push_tasks now ts (push_task now t s), tally-push_task now t s)

  pub tally-promote_delayed : (now : ℕ) (s : State R) → tally (promote_delayed now s) ≡ tally s
  unfolding promote_delayed tally
  tally-promote_delayed now s =
      omega (arith, tally-push_tasks now s.delayed (record s { delayed = [] }))

  pub tally-promoted : (now : ℕ) (m : Memory R) → tally (promoted now m).state ≡ tally m.state
  unfolding promoted
  tally-promoted now m = tally-promote_delayed now m.state

  pub tally-reset : (s : State R) → tally (reset_worker_if_idle s) ≡ tally s
  unfolding reset_worker_if_idle tally
  tally-reset s = ground arith

  count-entries-append :
      (xs ys : List (InflightEntry R))
      → count p (entry_tasks (xs ++ ys)) ≡ count p (entry_tasks xs) + count p (entry_tasks ys)
  count-entries-append [] ys = omega arith
  count-entries-append (x ∷ xs) ys = omega (arith, count-entries-append xs ys)

  pub tally-claim_next :
      (now : ℕ) (m : Memory R) (c : ClaimedTask R) (m' : Memory R)
      → claim_next now m ≡ some (c, m')
      → tally m'.state ≡ tally m.state
  unfolding tally
  tally-claim_next now m c m' h =
      let (ready, delayed, inflight, _, _) = claim_next-parts now m c m' h in
      omega (
        arith,
        ap (count p) ready,
        ap (count p) delayed,
        ap (λ es. count p (entry_tasks es)) inflight,
        count-entries-append m.state.inflight (record { task = c.task; lease = some c.lease } ∷ []),
      )

  pub tally-claim_batch :
      (now n : ℕ) (m : Memory R) → tally (claim_batch now n m).0.state ≡ tally m.state
  unfolding claim_batch
  tally-claim_batch now zero m = refl
  tally-claim_batch now (suc n) m = elim (Option-cases (claim_next now m)) [
    | inl e ↦ rw (e, claim_batch)
    | inr ((c, m'), e) ↦
        rw (e, claim_batch) (tally-claim_batch now n m' ∙ tally-claim_next now m c m' e)
  ]

  -- A partition of the entries keeps every task.
  pub count-keep :
      (own : InflightEntry R → Bool) (es : List (InflightEntry R))
      → count p (entry_tasks (keep own es)) + count p (entry_tasks (keep (λ e. not (own e)) es))
        ≡ count p (entry_tasks es)
  count-keep own [] = refl
  count-keep own (e ∷ es) = ground (arith, count-keep own es)

module _ {ℓ} {R : Type ℓ} where
  push_task-inflight :
      (now : ℕ) (t : Task R) (s : State R) → (push_task now t s).inflight ≡ s.inflight
  unfolding push_task
  push_task-inflight now t s = ground arith

  pub push_tasks-inflight :
      (now : ℕ) (ts : List (Task R)) (s : State R) → (push_tasks now ts s).inflight ≡ s.inflight
  unfolding push_tasks
  push_tasks-inflight now [] s = refl
  push_tasks-inflight now (t ∷ ts) s =
      push_tasks-inflight now ts (push_task now t s) ∙ push_task-inflight now t s

-- ===== src/Scheduler/Memory/Ready.antt =====
-- src/scheduler/memory.rs: the order of the ready queue, and which task a claim takes.
use mathlib.Core.Path.{subst}
use kun.Prelude.{
  ℕ, ◌≡◌, refl, ap, true, false, List, [], ◌∷◌, ◌++◌, some, All, All-imp, All-append, Bool-cases,
  inl, inr, if◌then◌else◌, arith,
}
use kun.Error.{ok}
use kun.Scheduler.Task.{Task, ClaimedTask, is_ready}
use kun.Scheduler.Memory.Buckets.{
  State, goes_before, insert_ready, push_task, push_tasks, promote_delayed,
}
use kun.Scheduler.Memory.Claims.{claim_next-parts, take_ready-claim_next}
use kun.Scheduler.Memory.Calls.{Memory, promoted, take_ready}

module _ {ℓ} {R : Type ℓ} where
  -- No task of the queue goes before one that stands in front of it.
  abbrev pub IsSorted : List (Task R) → Type 0
  IsSorted [] = Unit
  IsSorted (t ∷ ts) = All (λ u. goes_before u t ≡ false) ts × IsSorted ts

  goes_before_through :
      (t u x : Task R)
      → goes_before t x ≡ true
      → goes_before u x ≡ false
      → (goes_before u t ≡ false) × (goes_before t u ≡ true)
  unfolding goes_before
  goes_before_through t u x h k = ground arith

  pub goes_before_irrefl : (t : Task R) → goes_before t t ≡ false
  unfolding goes_before
  goes_before_irrefl t = ground arith

  goes_before_asym : (t u : Task R) → goes_before t u ≡ true → goes_before u t ≡ false
  unfolding goes_before
  goes_before_asym t u h = ground arith

  -- `insert_ready` by recursion on the queue.
  pub insert_ready-cons :
      (t x : Task R) (xs : List (Task R))
      → insert_ready t (x ∷ xs) ≡ (if goes_before t x then t ∷ x ∷ xs else x ∷ insert_ready t xs)
  unfolding insert_ready
  insert_ready-cons t x xs = ground arith

  All-insert_ready :
      (P : Task R → Type 0) (t : Task R) (xs : List (Task R))
      → P t
      → All P xs
      → All P (insert_ready t xs)
  unfolding insert_ready
  All-insert_ready P t [] h k = (h, tt)
  All-insert_ready P t (x ∷ xs) h k = elim (Bool-cases (goes_before t x)) [
    | inl e ↦ rw (insert_ready-cons t x xs, e) (h, k)
    | inr e ↦ rw (insert_ready-cons t x xs, e) (k.0, All-insert_ready P t xs h k.1)
  ]

  All-behind :
      (t x : Task R) (xs : List (Task R))
      → goes_before t x ≡ true
      → All (λ u. goes_before u x ≡ false) xs
      → All (λ u. goes_before u t ≡ false) xs
  All-behind t x xs h =
      All-imp (λ u. goes_before u x ≡ false) (λ u. goes_before u t ≡ false)
        (λ u k. (goes_before_through t u x h k).0) xs

  pub insert_ready-IsSorted :
      (t : Task R) (xs : List (Task R)) → IsSorted xs → IsSorted (insert_ready t xs)
  unfolding insert_ready
  insert_ready-IsSorted t [] s = (tt, tt)
  insert_ready-IsSorted t (x ∷ xs) s = elim (Bool-cases (goes_before t x)) [
    | inl e ↦
        rw (insert_ready-cons t x xs, e) ((goes_before_asym t x e, All-behind t x xs e s.0), s)
    | inr e ↦
        rw (insert_ready-cons t x xs, e)
          (
            All-insert_ready (λ u. goes_before u x ≡ false) t xs e s.0,
            insert_ready-IsSorted t xs s.1,
          )
  ]

  -- A new task enters a sorted queue behind every task that it does not go before (so behind those
  -- of its own priority and depth, the order of arrival) and in front of every other; the rest of
  -- the queue keeps its order.
  pub insert_ready_position :
      (t : Task R) (xs : List (Task R))
      → IsSorted xs
      → (front : List (Task R)) × (back : List (Task R)) × (xs ≡ front ++ back)
        × (insert_ready t xs ≡ front ++ t ∷ back)
        × All (λ u. goes_before t u ≡ false) front
        × All (λ u. goes_before t u ≡ true) back
  unfolding insert_ready
  insert_ready_position t [] s = ([], [], refl, refl, tt, tt)
  insert_ready_position t (x ∷ xs) s = elim (Bool-cases (goes_before t x)) [
    | inl e ↦ (
      [],
      x ∷ xs,
      refl,
      rw (insert_ready-cons t x xs, e),
      tt,
      (
        e,
        All-imp (λ u. goes_before u x ≡ false) (λ u. goes_before t u ≡ true)
            (λ u k. (goes_before_through t u x e k).1) xs s.0,
      ),
    )
    | inr e ↦
        let (front, back, p, q, h, k) = insert_ready_position t xs s.1 in
        (x ∷ front, back, ap (◌∷◌ x) p, rw (insert_ready-cons t x xs, e) (ap (◌∷◌ x) q), (e, h), k)
  ]

  pub push_task-IsSorted :
      (now : ℕ) (t : Task R) (s : State R) → IsSorted s.ready → IsSorted (push_task now t s).ready
  unfolding push_task
  push_task-IsSorted now t s h = elim (Bool-cases (is_ready now t)) [
    | inl e ↦ rw e (insert_ready-IsSorted t s.ready h)
    | inr e ↦ rw e h
  ]

  pub push_tasks-IsSorted :
      (now : ℕ) (ts : List (Task R)) (s : State R)
      → IsSorted s.ready
      → IsSorted (push_tasks now ts s).ready
  unfolding push_tasks
  push_tasks-IsSorted now [] s h = h
  push_tasks-IsSorted now (t ∷ ts) s h =
      push_tasks-IsSorted now ts (push_task now t s) (push_task-IsSorted now t s h)

  pub promote_delayed-IsSorted :
      (now : ℕ) (s : State R) → IsSorted s.ready → IsSorted (promote_delayed now s).ready
  unfolding promote_delayed
  promote_delayed-IsSorted now s h = push_tasks-IsSorted now s.delayed _ h

  -- None of the tasks is due.
  abbrev pub NotDue : ℕ → List (Task R) → Type 0
  NotDue now = All (λ u. is_ready now u ≡ false)

  push_task-NotDue :
      (now : ℕ) (t : Task R) (s : State R)
      → NotDue now s.delayed
      → NotDue now (push_task now t s).delayed
  unfolding push_task
  push_task-NotDue now t s h = elim (Bool-cases (is_ready now t)) [
    | inl e ↦ rw e h
    | inr e ↦ rw e (All-append (λ u. is_ready now u ≡ false) s.delayed (t ∷ []) h (e, tt))
  ]

  push_tasks-NotDue :
      (now : ℕ) (ts : List (Task R)) (s : State R)
      → NotDue now s.delayed
      → NotDue now (push_tasks now ts s).delayed
  unfolding push_tasks
  push_tasks-NotDue now [] s h = h
  push_tasks-NotDue now (t ∷ ts) s h =
      push_tasks-NotDue now ts (push_task now t s) (push_task-NotDue now t s h)

  pub promote_delayed-NotDue : (now : ℕ) (s : State R) → NotDue now (promote_delayed now s).delayed
  unfolding promote_delayed
  promote_delayed-NotDue now s = push_tasks-NotDue now s.delayed _ tt

  -- A claim on a sorted queue takes a task that no other one goes before, among those that were
  -- ready and those that have become due; the others stay in the queue in their order, and no task
  -- that is due stays in the delayed bucket.
  pub take_ready_best :
      (now : ℕ) (m m' : Memory R) (c : ClaimedTask R)
      → IsSorted m.state.ready
      → take_ready now m ≡ (m', ok (some c))
      → ((promoted now m).state.ready ≡ c.task ∷ m'.state.ready)
        × All (λ u. goes_before u c.task ≡ false) m'.state.ready
        × NotDue now m'.state.delayed
  unfolding promoted
  take_ready_best now m m' c s h =
      let (_, claimed) = take_ready-claim_next now m m' c h in
      let (front, same, _, _, _) = claim_next-parts now (promoted now m) c m' claimed in
      let sorted = subst IsSorted front (promote_delayed-IsSorted now m.state s) in
      (front, sorted.0, rw same (promote_delayed-NotDue now m.state))

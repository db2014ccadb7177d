-- ===== src/Scheduler/Memory/Buckets.antt =====
-- src/scheduler/memory.rs: the state behind the mutex, and the helpers that move tasks between its
-- buckets. Each helper reads the clock once, as `now`.
use kun.Prelude.{
  ℕ, Bool, true, false, Option, none, some, List, [], ◌∷◌, ◌++◌, Ordering, compare, compare_int,
  length, position, insert_at, all, if◌then◌else◌,
}
use kun.Scheduler.Task.{Task, TaskLease, is_ready}

pub record InflightEntry {ℓ} (R : Type ℓ) : Type ℓ where
  pub task : Task R
  pub lease : Option TaskLease

pub record State {ℓ} (R : Type ℓ) : Type ℓ where
  pub ready : List (Task R)
  pub delayed : List (Task R)
  pub inflight : List (InflightEntry R)
  pub paused : Bool
  pub worker_last_seen : Option ℕ

abbrev then_with : Ordering → Ordering → Ordering
then_with Ordering.lt o = Ordering.lt
then_with Ordering.eq o = o
then_with Ordering.gt o = Ordering.gt

abbrev is_less : Ordering → Bool
is_less Ordering.lt = true
is_less Ordering.eq = false
is_less Ordering.gt = false

abbrev unwrap_or : Option ℕ → ℕ → ℕ
unwrap_or none d = d
unwrap_or (some a) d = a

abbrev pub is_none {ℓ} : {A : Type ℓ} → Option A → Bool
is_none none = true
is_none (some a) = false

module _ {ℓ} {R : Type ℓ} where
  -- The higher priority first, and then the lower depth.
  unfoldable pub ready_ordering : Task R → Task R → Ordering
  ready_ordering left right =
      then_with (compare_int right.priority left.priority) (compare left.depth right.depth)

  unfoldable pub goes_before : Task R → Task R → Bool
  unfolding ready_ordering
  goes_before task existing = is_less (ready_ordering task existing)

  -- Where `task` belongs in the ready queue: before the first task that it goes before.
  unfoldable pub insert_ready : Task R → List (Task R) → List (Task R)
  insert_ready task ready =
      insert_at ready (unwrap_or (position (goes_before task) ready) (length ready)) task

  unfoldable pub push_ready_task : Task R → State R → State R
  push_ready_task task s = record s { ready = insert_ready task s.ready }

  unfoldable pub push_task : ℕ → Task R → State R → State R
  unfolding push_ready_task
  push_task now task s =
      if is_ready now task
      then push_ready_task task s
      else record s { delayed = s.delayed ++ task ∷ [] }

  -- `for task in tasks { state.push_task(task); }`
  unfoldable pub push_tasks : ℕ → List (Task R) → State R → State R
  push_tasks now [] s = s
  push_tasks now (task ∷ tasks) s = push_tasks now tasks (push_task now task s)

  -- The loop of the source pushes each delayed task as `push_task` does.
  unfoldable pub promote_delayed : ℕ → State R → State R
  promote_delayed now s = push_tasks now s.delayed (record s { delayed = [] })

  unfoldable pub is_idle : State R → Bool
  is_idle s = all (λ (entry : InflightEntry R). is_none entry.lease) s.inflight

  unfoldable pub reset_worker_if_idle : State R → State R
  unfolding is_idle
  reset_worker_if_idle s = if is_idle s then record s { worker_last_seen = none } else s

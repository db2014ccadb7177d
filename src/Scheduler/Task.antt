-- ===== src/Scheduler/Task.antt =====
-- src/scheduler/task.rs: a request with its scheduling data, and the lease of a claimed task. The
-- request is a parameter: the scheduler reads and writes only its priority.
use kun.Prelude.{ℕ, ◌+◌, ◌-◌, ◌^◌, min, String, Bool, true, List, Option, none, some, ℤ, leb}

-- `TaskId(String)`.
abbrev pub TaskId : Type 0
TaskId = String

pub record TaskLease : Type 0 where
  pub task_id : TaskId
  pub worker_id : String
  pub lease_id : String

-- `TaskLease::local`: a lease with the task's own identity for its token.
unfoldable pub local_lease : TaskId → TaskLease
local_lease id = record { task_id = id; worker_id = "local"; lease_id = id }

-- What the scheduler uses of a request.
pub record RequestOps {ℓ} (R : Type ℓ) : Type ℓ where
  pub priority : R → ℤ
  pub set_priority : ℤ → R → R

pub record Task {ℓ} (R : Type ℓ) : Type ℓ where
  pub id : TaskId
  pub request : R
  pub ready_at : Option ℕ
  pub priority : ℤ
  pub depth : ℕ

pub record ClaimedTask {ℓ} (R : Type ℓ) : Type ℓ where
  pub task : Task R
  pub lease : TaskLease

pub record TaskResolution {ℓ} (R : Type ℓ) : Type ℓ where
  pub lease : TaskLease
  pub tasks : List (Task R)

-- `u64::saturating_add`.
abbrev pub saturating_add : ℕ → ℕ → ℕ
saturating_add a b = min (a + b) (2 ^ 64 - 1)

module _ {ℓ} {R : Type ℓ} where
  unfoldable pub with_id : RequestOps R → R → TaskId → Task R
  with_id o request id = record {
    id = id;
    request = request;
    ready_at = none;
    priority = o.priority request;
    depth = 0;
  }

  unfoldable pub with_id_and_delay : RequestOps R → ℕ → R → TaskId → ℕ → Task R
  with_id_and_delay o now request id delay = record {
    id = id;
    request = request;
    ready_at = some (saturating_add now delay);
    priority = o.priority request;
    depth = 0;
  }

  unfoldable pub with_priority : RequestOps R → Task R → ℤ → Task R
  with_priority o t priority = record t {
    priority = priority;
    request = o.set_priority priority t.request;
  }

  unfoldable pub with_depth : Task R → ℕ → Task R
  with_depth t depth = record t { depth = depth }

  -- Ready now: no time to wait for, or one that has come.
  unfoldable pub is_ready : ℕ → Task R → Bool
  is_ready now t = elim t.ready_at [ none ↦ true | some value ↦ leb value now ]

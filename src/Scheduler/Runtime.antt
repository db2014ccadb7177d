-- ===== src/Scheduler/Runtime.antt =====
-- src/scheduler/runtime.rs: the runtime events that a scheduler queues for the engine.
use kun.Prelude.{ℕ, String, Option, none}
use kun.Error.{SpiderError}
use kun.Scheduler.Task.{TaskId}

pub data RuntimeEventKind : Type 0 where
  claimed completed requeued heartbeat lease_lost reclaimed released closed : RuntimeEventKind

pub record RuntimeEvent : Type 0 where
  pub scope : Option String
  pub kind : RuntimeEventKind
  pub worker_id : Option String
  pub task_id : Option TaskId
  pub lease_id : Option String
  pub url : Option String
  pub count : ℕ
  pub error : Option SpiderError

unfoldable pub released_event : Option String → Option String → ℕ → RuntimeEvent
released_event scope worker_id count = record {
  scope = scope;
  kind = released;
  worker_id = worker_id;
  task_id = none;
  lease_id = none;
  url = none;
  count = count;
  error = none;
}

unfoldable pub closed_event : Option String → Option String → RuntimeEvent
closed_event scope worker_id = record {
  scope = scope;
  kind = closed;
  worker_id = worker_id;
  task_id = none;
  lease_id = none;
  url = none;
  count = 1;
  error = none;
}

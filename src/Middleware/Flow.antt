-- ===== src/Middleware/Flow.antt =====
-- src/engine/flow.rs and the download context of src/engine/context.rs.
use kun.Prelude.{ℕ, String, Option}
use kun.Request.{Request}
use kun.Scheduler.Task.{TaskId}

-- `flow::Enqueue`, `flow::Parse` and `flow::Item` have the same constructors.
pub data Admission : Type 0 where
  continue : Admission
  drop : String → Admission

pub data Download : Type 0 where
  continue : Download
  drop : (reason : String) → Download
  delay : (reason : String) (millis : ℕ) → Download
  retry : (reason : String) (backoff : Option ℕ) → Download

-- `context::Download`.
pub record Context (F : Type 0) : Type 0 where
  pub request : Request F
  pub task_id : TaskId
  pub spider_name : Option String
  pub attempt : ℕ
  pub request_started_at : Option ℕ

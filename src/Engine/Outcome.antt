-- ===== src/Engine/Outcome.antt =====
-- src/engine/task.rs: the download context of a task, and the outcome that an answer of the middleware
-- asks for. An answer `Continue` is unreachable there: it has no outcome.
use kun.Prelude.{ℕ, ◌+◌, ◌%◌, ◌^◌, ltb, String, Option, none, some, [], ◌∷◌, if◌then◌else◌}
use kun.Prelude.Map
use kun.Value.{number, string}
use kun.Request.{Request, request_ops, skip}
use kun.Scheduler.Task.{Task, TaskId, with_id, with_id_and_delay}
use kun.Middleware.Externals.{Externals}
use kun.Middleware.Flow.{Context, Download, Admission}
use kun.Middleware.RetryOptions.{retry_number}
use kun.Engine.Task.{TaskOutcome, delay, retry, drop}
pub mod Retries
mod Tests

module _ (x : Externals) where
  -- The `as` of a float stays below 2^32; the sum wraps.
  unfoldable pub request_attempt : Request x.float.F → ℕ
  request_attempt r =
      (x.float.to_u32 (x.float.max (retry_number x r) (x.float.of_u64 0)) + 1) % 2 ^ 32

  -- The context that `TaskExecutor::run` starts with.
  unfoldable pub download_context : String → TaskId → Request x.float.F → Context x.float.F
  download_context spider_name task_id r = record {
    request = r;
    task_id = task_id;
    spider_name = some spider_name;
    attempt = request_attempt r;
    request_started_at = none;
  }

  -- The request of a retry: it skips the deduplication and tells of its retries.
  unfoldable pub retried_request : Request x.float.F → String → Option ℕ → Request x.float.F
  retried_request r reason backoff =
      let skipping : Request x.float.F = skip ("dedup" ∷ []) r in
      let counted =
        Map.insert "_retry_times" (number (x.float.add (retry_number x r) (x.float.of_u64 1)))
          skipping.meta in
      let told = Map.insert "_retry_reason" (string reason) counted in
      record skipping {
        meta = elim backoff [
          | none ↦ told
          | some millis ↦ Map.insert "_retry_backoff" (number (x.float.of_u64 millis)) told
        ];
      }

  -- A backoff of 0 is no delay.
  unfoldable pub retry_task : ℕ → Request x.float.F → TaskId → Option ℕ → Task (Request x.float.F)
  retry_task now r id none = with_id request_ops r id
  retry_task now r id (some millis) =
      if ltb 0 millis
      then with_id_and_delay request_ops now r id millis
      else with_id request_ops r id

  unfoldable pub map_download_to_task_outcome :
      ℕ → Download → Context x.float.F → Option (TaskOutcome x.float.F)
  map_download_to_task_outcome now Download.continue c = none
  map_download_to_task_outcome now (Download.drop reason) c = some drop
  map_download_to_task_outcome now (Download.delay reason millis) c =
      some
        (delay (with_id_and_delay request_ops now (skip ("dedup" ∷ []) c.request) c.task_id millis))
  map_download_to_task_outcome now (Download.retry reason backoff) c =
      some (retry (retry_task now (retried_request c.request reason backoff) c.task_id backoff))

  unfoldable pub map_parse_to_task_outcome : Admission → Option (TaskOutcome x.float.F)
  map_parse_to_task_outcome Admission.continue = none
  map_parse_to_task_outcome (Admission.drop reason) = some drop

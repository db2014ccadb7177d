-- ===== src/Engine/Execute/Tests.antt =====
-- Runs of the task executor of src/engine/task.rs, and the theorems at them.
use kun.Prelude.{
  ℕ, ◌+◌, ◌*◌, ◌++◌, ◌≡◌, refl, true, ltb, sort_by_key, String, none, some, [], ◌∷◌, pos,
  if◌then◌else◌,
}
use kun.Error.{is_scheduler_lease_resolution_error, Result, ok, err, engine}
use kun.Middleware.Tests.{externals, page}
use kun.Robots.Cache.{Decision}
use kun.Robots.Parse.{is_some}
use kun.Engine.Execute.{
  Services, TaskExecutor, Work, Ended, other, dispatch_items_to_stores, success,
}
use kun.Engine.Execute.Steps.{
  run_middleware_before_download, run_middleware_after_download, run_middleware_before_item,
  run_middleware_after_item, run_middleware_before_parse, run_middleware_after_parse,
}
use kun.Engine.Execute.Stored.{announced, items_of}
use kun.Engine.Execute.Run.{
  run, obey_robots, ask_robots, download, after_response, parse_response, after_dispatch,
}
use kun.Engine.Execute.Output.{
  process_spider_output, process_items, process_item, pipe_item, accept_item, store_items,
}
use kun.Engine.Outcome.{download_context}
use kun.Engine.Task.{TaskOutcome}
use kun.Engine.Execute.Renewal.{renews, renews_lost}
use kun.Scheduler.Task.{TaskLease}
use kun.Scheduler.Worker.{new_worker}
use kun.Scheduler.Memory.Calls
use kun.Scheduler.Memory.Calls.{Memory}
use kun.Scheduler.Memory.Control.{new_memory, from_checkpoint}
use kun.Scheduler.Memory.Leases.{inactive, claimed_entry, find_inflight_entry}
use kun.Engine.Domains.{is_domain_allowed}
use kun.Middleware.Chain
use kun.Engine.Execute.Returns.{run_returns}
use kun.Engine.Execute.Heartbeat.{
  all_progress, run_task_with_heartbeat, run_task_with_heartbeat_ends,
}

-- One page has two items, of which the pipeline keeps the even one, twice as large.
abbrev services : Services ℕ String ℕ ℕ
services = record {
  obeys_robots = true;
  robots_check = λ r calls. (calls + 1, ok Decision.allow);
  http_fetch = λ r calls. (calls + 1, ok "body");
  browser_fetch = λ r calls. (calls, err (engine "no browser"));
  dispatch =
      λ response calls. (calls + 1, ok (record { items = 1 ∷ 4 ∷ []; requests = page ∷ [] }));
  handle_error = λ name failure calls. (calls, err (engine "no handler"));
  process = λ item calls. ((item * 2, calls + 1), ok (ltb 2 item));
  validate = λ item calls. (calls, ok tt);
  has_stores = true;
  write_all = λ items calls. (calls + 1, ok tt);
}

abbrev executor : TaskExecutor ℕ String ℕ ℕ
executor = record {
  services = services;
  engine_middleware = [];
  step_chain = [];
  allowed_domains = [];
  spider_name = "spider";
}

abbrev fresh_work : Work ℕ String ℕ ℕ
fresh_work = record { shared = 0; log = [] }

run_returns_example :
    (is_some (run externals executor 5 9 "t" page fresh_work).1 ≡ true)
    × (announced (run externals executor 5 9 "t" page fresh_work).0.log
        ≡ announced fresh_work.log ++ items_of (run externals executor 5 9 "t" page fresh_work).1)
run_returns_example = run_returns externals executor 5 9 "t" page fresh_work

-- The items of `page`: the pipeline drops the first.
run-page : (run externals executor 5 9 "t" page fresh_work).1 ≡ some (success (8 ∷ []) (page ∷ []))
unfolding run obey_robots ask_robots download after_response parse_response after_dispatch
    run_middleware_before_download run_middleware_after_download run_middleware_before_parse
    run_middleware_after_parse run_middleware_before_item run_middleware_after_item
    Chain.before_download Chain.after_download Chain.before_parse Chain.after_parse
    Chain.before_item Chain.after_item Chain.run_all process_spider_output process_items
    process_item pipe_item accept_item store_items dispatch_items_to_stores is_domain_allowed
    Chain.ordered_entries sort_by_key download_context
run-page = refl

-- The clock of a lease that two heartbeats renew.
abbrev renew : ℕ → ℕ × Result (Unit {0})
renew n = (n + 1, if ltb n 25 then ok tt else err (engine "late"))

abbrev finished : ℕ → ℕ × Ended ℕ ℕ
finished n = (n, success [] [])

run_task_with_heartbeat_ends_example :
    (run_task_with_heartbeat none renew (λ n. n) ((λ n. n + 10) ∷ []) finished 0 ≡ finished 10)
    × (run_task_with_heartbeat (some (pos 500)) renew (λ n. n) ((λ n. n + 10) ∷ []) finished 0
        ≡ finished 11)
    × (run_task_with_heartbeat
          (some (pos 500))
          renew
          (λ n. n)
          ((λ n. n + 10) ∷ (λ n. n + 20) ∷ (λ n. n) ∷ [])
          finished
          0
        ≡ (32, other (TaskOutcome.error (engine "late"))))
unfolding all_progress is_scheduler_lease_resolution_error
run_task_with_heartbeat_ends_example =
    run_task_with_heartbeat_ends (pos 500) 499 renew (λ n. n) ((λ n. n + 10) ∷ []) (λ n. n + 20)
      ((λ n. n) ∷ []) finished 0 32 (engine "late") refl (refl, tt) refl

abbrev held_by_none : Memory String × ℕ
held_by_none = (new_memory "s" (new_worker "w1") 1, 7)

abbrev stops : Memory String × ℕ → (Memory String × ℕ) × Ended ℕ ℕ
stops s = (s, success [] [])

abbrev gone_lease : TaskLease
gone_lease = record { task_id = "a"; worker_id = "w1"; lease_id = "l" }

renews_lost_example :
    run_task_with_heartbeat
      (some (pos 500))
      (renews (λ n. n) gone_lease)
      (λ s. s)
      ((λ s. s) ∷ (λ s. s) ∷ [])
      stops
      held_by_none
    ≡ (held_by_none, other (TaskOutcome.lease_lost (inactive "heartbeat" gone_lease)))
unfolding Calls.heartbeat new_memory from_checkpoint claimed_entry find_inflight_entry
renews_lost_example =
    renews_lost (λ n. n) gone_lease (pos 500) 499 (λ s. s) [] (λ s. s) ((λ s. s) ∷ []) stops
      held_by_none held_by_none.0 held_by_none.0 7 (inactive "heartbeat" gone_lease) refl tt refl
      refl

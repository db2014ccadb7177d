-- ===== src/Engine/Tests.antt =====
-- Runs of the engine's code (src/engine.rs, src/engine/task.rs), and the theorems at concrete runs.
use kun.Prelude.{
  ℕ, Bool, ◌≡◌, refl, true, false, ◌||◌, some, pos, String, none, [], ◌∷◌, strip_prefix,
  after_first, before_first, ends_with,
}
use kun.Request.{request_ops, Request, http}
use kun.Scheduler.Task.{Task, TaskLease, with_id}
use kun.Scheduler.Memory.Leases.{claimed_entry, find_inflight_entry, inactive}
use kun.Engine.Domains.{extract_domain, is_domain_allowed}
use kun.Engine.Task.{run_middleware_before_enqueue, TaskRun, retry, Setup, Engine, apply_task_run}
use kun.Engine.Task.Queue.{
  Becomes, enqueue_request_with_middleware, enqueue_request_with_middleware-Becomes,
}
use kun.Engine.Task.Lost.{apply_task_run_lost}

-- The domain of a URL is read as text: with a name before an "@" another host passes the test.
domain_tests :
    (is_domain_allowed "https://www.example.com/a" ("example.com" ∷ []) ≡ true)
    × (is_domain_allowed "https://badexample.com/a" ("example.com" ∷ []) ≡ false)
    × (is_domain_allowed "https://example.com:x@other.org/" ("example.com" ∷ []) ≡ true)
unfolding is_domain_allowed extract_domain strip_prefix after_first before_first ends_with
domain_tests = (refl, refl, refl)

abbrev page : Request ℕ
page = record {
  url = "https://example.com/1";
  method = "GET";
  mode = http;
  body = none;
  priority = pos 0;
  meta = [];
  errback = none;
  skip_domain_filter = false;
  middleware = [];
}

abbrev page_task : Task (Request ℕ)
page_task = record { id = "a"; request = page; ready_at = none; priority = pos 0; depth = 0 }

abbrev setup : Setup ℕ String String ℕ
setup = record {
  engine_middleware = [];
  parse_chain = [];
  step_chains = [];
  allowed_domains = [];
  spider_name = "spider";
}

abbrev idle : Engine ℕ ℕ
idle = record {
  scheduler = record {
    scope = "s";
    worker = record {
      worker_id = "w1";
      lease_timeout_override = none;
      heartbeat_interval_override = none;
    };
    state = record {
      ready = page_task ∷ [];
      delayed = [];
      inflight = [];
      paused = false;
      worker_last_seen = none;
    };
    runtime_events = [];
    next_lease = 1;
  };
  shared = 0;
  log = [];
  round = 0;
}

abbrev lost : TaskLease
lost = record { task_id = "a"; worker_id = "w1"; lease_id = "l" }

abbrev retries : TaskRun ℕ
retries = record { lease = lost; url = page.url; outcome = retry page_task }

apply_task_run_lost_example : (apply_task_run setup 5 retries idle).0.scheduler ≡ idle.scheduler
unfolding claimed_entry find_inflight_entry
apply_task_run_lost_example =
    apply_task_run_lost setup 5 retries idle (inactive "complete" lost) (inactive "requeue" lost)
      refl refl

abbrev any_task : Task (Request ℕ) → Bool
any_task t = true

enqueue_request_with_middleware-Becomes_example :
    let ((context, shared), answer) = run_middleware_before_enqueue setup.engine_middleware [] (
      record {
        task_id = "b";
        spider_name = some setup.spider_name;
        request = (with_id request_ops page "b").request;
      },
      idle.shared,
    ) in
    let after = enqueue_request_with_middleware setup [] 5 "b" page idle in
    Becomes setup [] 5
      (record (with_id request_ops page "b") { request = context.request })
      answer
      (context.request.skip_domain_filter
        || is_domain_allowed context.request.url setup.allowed_domains)
      idle.scheduler
      (after.0.scheduler, after.1)
enqueue_request_with_middleware-Becomes_example =
    enqueue_request_with_middleware-Becomes setup [] 5 "b" page idle

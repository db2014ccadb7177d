-- ===== src/Engine/Execute/Run.antt =====
-- src/engine/task.rs: `TaskExecutor::run`. The clock is an argument: `started` when the download starts,
-- and `now` when an answer of the middleware makes a task. `none` is a panic.
use kun.Prelude.{ℕ, max, ltb, ◌^◌, not, Option, none, some, [], ◌∷◌, if◌then◌else◌}
use kun.Error.{SpiderError, Result, ok, err}
use kun.Scheduler.Task.{TaskId}
use kun.Request.{Request, http, browser}
use kun.Robots.Cache.{Decision}
use kun.Middleware.Externals.{Externals}
use kun.Middleware.Flow.{Download, Context}
use kun.Middleware.Chain.{Parse, admits, continues}
use kun.Engine.Task.{TaskOutcome}
use kun.Engine.Outcome.{download_context, map_download_to_task_outcome, map_parse_to_task_outcome}
use kun.Engine.Execute.{
  CallbackOutput, record_request, record_response, record_robots_disallow, record_robots_delay,
  response_received, TaskExecutor, Work, Ended, other, tell, with_shared, error_outcome,
}
use kun.Engine.Execute.Steps.{
  run_middleware_before_download, run_middleware_after_download, run_middleware_download_error,
  run_middleware_before_parse, run_middleware_parse_error, run_middleware_after_parse,
}
use kun.Engine.Execute.Output.{process_spider_output, run_errback}

-- An outcome of the middleware's answer, if it has one.
abbrev pub ended : {F Item : Type 0} → Option (TaskOutcome F) → Option (Ended F Item)
ended none = none
ended (some outcome) = some (other outcome)

-- A run that did not panic.
abbrev pub returned : {A B : Type 0} → A × B → A × Option B
returned (a, b) = (a, some b)

module _ (x : Externals) {Response Item W : Type 0}
    (self : TaskExecutor x.float.F Response Item W) where
  abbrev pub Step : Type 0
  Step =
      Work x.float.F Response Item W
      → Work x.float.F Response Item W × Option (Ended x.float.F Item)

  -- What the spider made of the response.
  unfoldable pub after_dispatch :
      Parse x.float.F Response → Result (CallbackOutput x.float.F Item) → Step
  after_dispatch parse (ok output) w =
      let ((parse', shared), answer) =
        run_middleware_after_parse self.engine_middleware self.step_chain (parse, w.shared) in
      elim answer [
        | err e ↦
            returned (error_outcome parse'.request (some parse'.response) e (with_shared shared w))
        | ok u ↦ returned (
            process_spider_output self output parse'.task_id parse'.request (some parse'.response)
              (with_shared shared w))
      ]
  after_dispatch parse (err error) w =
      let ((parse', shared), answer) =
        run_middleware_parse_error self.engine_middleware self.step_chain error (parse, w.shared) in
      elim answer [
        | err e ↦
            returned (error_outcome parse'.request (some parse'.response) e (with_shared shared w))
        | ok flow ↦
            if admits flow
            then returned (
                run_errback self parse'.task_id parse'.request (some parse'.response) error
                  (with_shared shared w))
            else (with_shared shared w, ended (map_parse_to_task_outcome x flow))
      ]

  unfoldable pub parse_response : Context x.float.F → Response → Step
  parse_response c response w =
      let parse : Parse x.float.F Response = record {
        task_id = c.task_id;
        spider_name = some self.spider_name;
        request = c.request;
        response = response;
      } in
      let ((parse', shared), answer) =
        run_middleware_before_parse self.engine_middleware self.step_chain (parse, w.shared) in
      elim answer [
        | err e ↦
            returned (error_outcome parse'.request (some parse'.response) e (with_shared shared w))
        | ok flow ↦
            if not (admits flow)
            then (with_shared shared w, ended (map_parse_to_task_outcome x flow))
            else let (shared', output) = self.services.dispatch parse'.response shared in
              after_dispatch parse' output (with_shared shared' w)
      ]

  unfoldable pub after_response : (now : ℕ) → Context x.float.F → Response → Step
  after_response now c response w =
      let (((c', response'), shared), answer) =
        run_middleware_after_download self.engine_middleware self.step_chain
          ((c, response), w.shared) in
      elim answer [
        | err e ↦ returned (error_outcome c'.request (some response') e (with_shared shared w))
        | ok flow ↦
            if continues flow
            then parse_response c' response'
                (tell (response_received response' ∷ []) (with_shared shared w))
            else (with_shared shared w, ended (map_download_to_task_outcome x now flow c'))
      ]

  unfoldable pub after_failure : (now : ℕ) → Context x.float.F → SpiderError → Step
  after_failure now c error w =
      let ((c', shared), answer) =
        run_middleware_download_error self.engine_middleware self.step_chain error (c, w.shared) in
      elim answer [
        | err e ↦ returned (error_outcome c'.request none e (with_shared shared w))
        | ok flow ↦
            if continues flow
            then returned (run_errback self c'.task_id c'.request none error (with_shared shared w))
            else (with_shared shared w, ended (map_download_to_task_outcome x now flow c'))
      ]

  abbrev pub fetch : Request x.float.F → W → W × Result Response
  fetch r shared = elim r.mode [
    | http ↦ self.services.http_fetch r shared
    | browser ↦ self.services.browser_fetch r shared
  ]

  -- The download itself, for a context whose start is set if it was not.
  unfoldable pub download : (started now : ℕ) → Context x.float.F → Step
  download started now c w =
      let c' : Context x.float.F = record c {
        request_started_at = elim c.request_started_at [ none ↦ some started | some t ↦ some t ];
      } in
      let requested = tell (record_request ∷ []) w in
      let (shared, fetched) = fetch c'.request requested.shared in
      elim fetched [
        | err e ↦ after_failure now c' e (with_shared shared requested)
        | ok response ↦
            after_response now c' response
              (tell (record_response ∷ []) (with_shared shared requested))
      ]

  -- What robots.txt says of the request.
  unfoldable pub ask_robots : (started now : ℕ) → Context x.float.F → Step
  ask_robots started now c w =
      let (shared, checked) = self.services.robots_check c.request w.shared in
      elim checked [
        | err e ↦ returned (error_outcome c.request none e (with_shared shared w))
        | ok decision ↦ elim decision [
          | Decision.allow ↦ download started now c (with_shared shared w)
          | Decision.disallow ↦ (
            tell (record_robots_disallow ∷ []) (with_shared shared w),
            some (other TaskOutcome.drop),
          )
          | Decision.delay milliseconds ↦ (
            tell (record_robots_delay ∷ []) (with_shared shared w),
            ended (
                map_download_to_task_outcome x now
                  (Download.delay "robots crawl delay"
                    (max (if ltb milliseconds (2 ^ 64) then milliseconds else 0) 1))
                  c),
          )
        ]
      ]

  unfoldable pub obey_robots : (started now : ℕ) → Context x.float.F → Step
  obey_robots started now c w =
      if self.services.obeys_robots then ask_robots started now c w else download started now c w

  unfoldable pub run : (started now : ℕ) → TaskId → Request x.float.F → Step
  run started now task_id request w =
      let ((c, shared), answer) =
        run_middleware_before_download self.engine_middleware self.step_chain
          (download_context x self.spider_name task_id request, w.shared) in
      elim answer [
        | err e ↦ returned (error_outcome c.request none e (with_shared shared w))
        | ok flow ↦
            if continues flow
            then obey_robots started now c (with_shared shared w)
            else (with_shared shared w, ended (map_download_to_task_outcome x now flow c))
      ]

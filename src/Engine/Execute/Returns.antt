-- ===== src/Engine/Execute/Returns.antt =====
-- src/engine/task.rs: a run never reaches the arms that the source calls unreachable, and the items that
-- it announces are the items of its success.
use mathlib.Core.Path.{subst}
use kun.Prelude.{
  ℕ, [], ◌∷◌, ◌++◌, ◌≡◌, refl, Bool, true, false, Option, none, some, arith, Bool-cases, inl, inr,
  if◌then◌else◌,
}
use kun.Error.{SpiderError, Result, ok, err, Result-cases}
use kun.Scheduler.Task.{TaskId}
use kun.Request.{Request}
use kun.Robots.Cache.{Decision}
use kun.Robots.Parse.{is_some}
use kun.Middleware.Externals.{Externals}
use kun.Middleware.Flow.{Admission, Download, Context}
use kun.Middleware.Chain.{Parse, admits, continues}
use kun.Engine.Outcome.{download_context, map_download_to_task_outcome, map_parse_to_task_outcome}
use kun.Engine.Task.{TaskOutcome}
use kun.Engine.Execute.{
  CallbackOutput, TaskExecutor, Work, Ended, Note, spider_error, response_received, with_shared,
  tell, record_request, record_response, record_robots_disallow, record_robots_delay, error_outcome,
}
use kun.Engine.Execute.Stored.{
  items_of, announced_by, announced, Announces, announce_none, announce_note, announce_after,
  process_spider_output-Announces, run_errback-Announces,
}
use kun.Engine.Execute.Steps.{
  run_middleware_before_download, run_middleware_after_download, run_middleware_download_error,
  run_middleware_before_parse, run_middleware_parse_error, run_middleware_after_parse,
}
use kun.Engine.Execute.Run.{
  ended, returned, after_dispatch, parse_response, after_response, after_failure, fetch, download,
  ask_robots, obey_robots, run,
}

module _ (x : Externals) {Response Item W : Type 0}
    (self : TaskExecutor x.float.F Response Item W) where
  ended_download :
      (now : ℕ) (flow : Download) (c : Context x.float.F)
      → continues flow ≡ false
      → is_some (ended {Item = Item} (map_download_to_task_outcome x now flow c)) ≡ true
  unfolding map_download_to_task_outcome
  ended_download now Download.continue c h = absurd (ground arith)
  ended_download now (Download.drop reason) c h = refl
  ended_download now (Download.delay reason millis) c h = refl
  ended_download now (Download.retry reason backoff) c h = refl

  ended_parse :
      (flow : Admission)
      → admits flow ≡ false
      → is_some (ended {Item = Item} (map_parse_to_task_outcome x flow)) ≡ true
  unfolding map_parse_to_task_outcome
  ended_parse Admission.continue h = absurd (ground arith)
  ended_parse (Admission.drop reason) h = refl

  -- The run came to an outcome, and the signals told of its items.
  abbrev Told :
      Work x.float.F Response Item W
      → Work x.float.F Response Item W × Option (Ended x.float.F Item)
      → Type 0
  Told w r = (is_some r.1 ≡ true) × Announces w (items_of r.1) r.0

  -- A run goes on behind a note, or behind a call that tells nothing.
  Told-after :
      (note : Note x.float.F Response Item) (w : Work x.float.F Response Item W) (shared : W)
      (r : Work x.float.F Response Item W × Option (Ended x.float.F Item))
      → announced_by note ≡ []
      → Told (tell (note ∷ []) (with_shared shared w)) r
      → Told w r
  Told-after note w shared r silent h = (
    h.0,
    announce_after w (tell (note ∷ []) (with_shared shared w)) (items_of r.1) r.0
        (subst (λ items. Announces w items (tell (note ∷ []) w)) silent (announce_note note w)) h.1,
  )

  Told-error :
      (request : Request x.float.F) (response : Option Response) (e : SpiderError) (shared : W)
      (w : Work x.float.F Response Item W)
      → Told w (returned (error_outcome request response e (with_shared shared w)))
  unfolding error_outcome
  Told-error request response e shared w =
      (refl, announce_note (spider_error request response e) (with_shared shared w))

  Told-ended :
      (outcome : Option (TaskOutcome x.float.F)) (shared : W) (w : Work x.float.F Response Item W)
      → is_some (ended {Item = Item} outcome) ≡ true
      → Told w (with_shared shared w, ended outcome)
  Told-ended none shared w h = absurd (ground arith)
  Told-ended (some outcome) shared w h = (refl, announce_none w)

  after_dispatch-Told :
      (parse : Parse x.float.F Response) (output : Result (CallbackOutput x.float.F Item))
      (w : Work x.float.F Response Item W)
      → Told w (after_dispatch x self parse output w)
  unfolding after_dispatch
  after_dispatch-Told parse (ok output) w =
      let after =
        run_middleware_after_parse self.engine_middleware self.step_chain (parse, w.shared) in
      elim (Result-cases after.1) [
        | inl (e, failed) ↦
            rw (failed, after_dispatch)
              (Told-error after.0.0.request (some after.0.0.response) e after.0.1 w)
        | inr (u, done) ↦
            rw (done, after_dispatch)
              (
                refl,
                process_spider_output-Announces self output after.0.0.task_id after.0.0.request
                    (some after.0.0.response) (with_shared after.0.1 w),
              )
      ]
  after_dispatch-Told parse (err error) w =
      let after =
        run_middleware_parse_error self.engine_middleware self.step_chain error (parse, w.shared) in
      elim (Result-cases after.1) [
        | inl (e, failed) ↦
            rw (failed, after_dispatch)
              (Told-error after.0.0.request (some after.0.0.response) e after.0.1 w)
        | inr (flow, answered) ↦ elim (Bool-cases (admits flow)) [
          | inl more ↦
              rw (answered, after_dispatch, more)
                (
                  refl,
                  run_errback-Announces self after.0.0.task_id after.0.0.request
                      (some after.0.0.response) error (with_shared after.0.1 w),
                )
          | inr stop ↦
              rw (answered, after_dispatch, stop)
                (Told-ended (map_parse_to_task_outcome x flow) after.0.1 w (ended_parse flow stop))
        ]
      ]

  parse_response-Told :
      (c : Context x.float.F) (response : Response) (w : Work x.float.F Response Item W)
      → Told w (parse_response x self c response w)
  unfolding parse_response
  parse_response-Told c response w =
      let parse : Parse x.float.F Response = record {
        task_id = c.task_id;
        spider_name = some self.spider_name;
        request = c.request;
        response = response;
      } in
      let before =
        run_middleware_before_parse self.engine_middleware self.step_chain (parse, w.shared) in
      elim (Result-cases before.1) [
        | inl (e, failed) ↦
            rw (failed, parse_response)
              (Told-error before.0.0.request (some before.0.0.response) e before.0.1 w)
        | inr (flow, answered) ↦ elim (Bool-cases (admits flow)) [
          | inl more ↦
              let output = self.services.dispatch before.0.0.response before.0.1 in
              rw (answered, parse_response, more)
                (after_dispatch-Told before.0.0 output.1 (with_shared output.0 w))
          | inr stop ↦
              rw (answered, parse_response, stop)
                (Told-ended (map_parse_to_task_outcome x flow) before.0.1 w (ended_parse flow stop))
        ]
      ]

  after_response-Told :
      (now : ℕ) (c : Context x.float.F) (response : Response) (w : Work x.float.F Response Item W)
      → Told w (after_response x self now c response w)
  unfolding after_response
  after_response-Told now c response w =
      let after =
        run_middleware_after_download self.engine_middleware self.step_chain
          ((c, response), w.shared) in
      elim (Result-cases after.1) [
        | inl (e, failed) ↦
            rw (failed, after_response)
              (Told-error after.0.0.0.request (some after.0.0.1) e after.0.1 w)
        | inr (flow, answered) ↦ elim (Bool-cases (continues flow)) [
          | inl more ↦
              rw (answered, after_response, more)
                (Told-after (response_received after.0.0.1) w after.0.1
                  (parse_response x self after.0.0.0 after.0.0.1
                    (tell (response_received after.0.0.1 ∷ []) (with_shared after.0.1 w)))
                  refl
                  (parse_response-Told after.0.0.0 after.0.0.1
                    (tell (response_received after.0.0.1 ∷ []) (with_shared after.0.1 w))))
          | inr stop ↦
              rw (answered, after_response, stop)
                (Told-ended (map_download_to_task_outcome x now flow after.0.0.0) after.0.1 w
                  (ended_download now flow after.0.0.0 stop))
        ]
      ]

  after_failure-Told :
      (now : ℕ) (c : Context x.float.F) (error : SpiderError) (w : Work x.float.F Response Item W)
      → Told w (after_failure x self now c error w)
  unfolding after_failure
  after_failure-Told now c error w =
      let after =
        run_middleware_download_error self.engine_middleware self.step_chain error (c, w.shared) in
      elim (Result-cases after.1) [
        | inl (e, failed) ↦
            rw (failed, after_failure) (Told-error after.0.0.request none e after.0.1 w)
        | inr (flow, answered) ↦ elim (Bool-cases (continues flow)) [
          | inl more ↦
              rw (answered, after_failure, more)
                (
                  refl,
                  run_errback-Announces self after.0.0.task_id after.0.0.request none error
                      (with_shared after.0.1 w),
                )
          | inr stop ↦
              rw (answered, after_failure, stop)
                (Told-ended (map_download_to_task_outcome x now flow after.0.0) after.0.1 w
                  (ended_download now flow after.0.0 stop))
        ]
      ]

  download-Told :
      (started now : ℕ) (c : Context x.float.F) (w : Work x.float.F Response Item W)
      → Told w (download x self started now c w)
  unfolding download
  download-Told started now c w =
      let c' : Context x.float.F = record c {
        request_started_at = elim c.request_started_at [ none ↦ some started | some t ↦ some t ];
      } in
      let got = fetch x self c.request w.shared in
      let requested = tell (record_request ∷ []) w in
      let answered_work = tell (record_response ∷ []) (with_shared got.0 requested) in
      elim (Result-cases got.1) [
        | inl (e, failed) ↦
            rw (failed, download)
              (Told-after record_request w w.shared
                (after_failure x self now c' e (with_shared got.0 requested)) refl
                (after_failure-Told now c' e (with_shared got.0 requested)))
        | inr (response, answered) ↦
            rw (answered, download)
              (Told-after record_request w w.shared
                (after_response x self now c' response answered_work) refl
                (Told-after record_response requested got.0
                  (after_response x self now c' response answered_work) refl
                  (after_response-Told now c' response answered_work)))
      ]

  ask_robots-Told :
      (started now : ℕ) (c : Context x.float.F) (w : Work x.float.F Response Item W)
      → Told w (ask_robots x self started now c w)
  unfolding ask_robots map_download_to_task_outcome
  ask_robots-Told started now c w =
      let checked = self.services.robots_check c.request w.shared in
      elim (Result-cases checked.1) [
        | inl (e, failed) ↦ rw (failed, ask_robots) (Told-error c.request none e checked.0 w)
        | inr (Decision.allow, answered) ↦
            rw (answered, ask_robots) (download-Told started now c (with_shared checked.0 w))
        | inr (Decision.disallow, answered) ↦
            rw (answered, ask_robots)
              (refl, announce_note record_robots_disallow (with_shared checked.0 w))
        | inr (Decision.delay millis, answered) ↦
            rw (answered, ask_robots)
              (refl, announce_note record_robots_delay (with_shared checked.0 w))
      ]

  either-Told :
      (w : Work x.float.F Response Item W) (b : Bool)
      (p q : Work x.float.F Response Item W × Option (Ended x.float.F Item))
      → Told w p
      → Told w q
      → Told w (if b then p else q)
  either-Told w true p q h k = h
  either-Told w false p q h k = k

  obey_robots-Told :
      (started now : ℕ) (c : Context x.float.F) (w : Work x.float.F Response Item W)
      → Told w (obey_robots x self started now c w)
  unfolding obey_robots
  obey_robots-Told started now c w =
      either-Told w self.services.obeys_robots _ _ (ask_robots-Told started now c w)
        (download-Told started now c w)

  -- Every run of a task comes to an outcome, whatever the middleware, the robots policy, the downloaders,
  -- the spider and the stores answer: it never comes to the arms for an answer Continue that has no
  -- outcome. And the items that the signals of the run tell of are exactly those of its success, in
  -- their order; a run that ends otherwise tells of none.
  pub run_returns :
      (started now : ℕ) (task_id : TaskId) (request : Request x.float.F)
      (w : Work x.float.F Response Item W)
      → (is_some (run x self started now task_id request w).1 ≡ true)
        × (announced (run x self started now task_id request w).0.log
            ≡ announced w.log ++ items_of (run x self started now task_id request w).1)
  unfolding run
  run_returns started now task_id request w =
      let context = download_context x self.spider_name task_id request in
      let before =
        run_middleware_before_download self.engine_middleware self.step_chain (context, w.shared) in
      elim (Result-cases before.1) [
        | inl (e, failed) ↦ rw (failed, run) (Told-error before.0.0.request none e before.0.1 w)
        | inr (flow, answered) ↦ elim (Bool-cases (continues flow)) [
          | inl more ↦
              rw (answered, run, more)
                (obey_robots-Told started now before.0.0 (with_shared before.0.1 w))
          | inr stop ↦
              rw (answered, run, stop)
                (Told-ended (map_download_to_task_outcome x now flow before.0.0) before.0.1 w
                  (ended_download now flow before.0.0 stop))
        ]
      ]

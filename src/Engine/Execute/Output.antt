-- ===== src/Engine/Execute/Output.antt =====
-- src/engine/task.rs: what is done with the items and the requests of a callback.
use kun.Prelude.{Option, none, some, List, [], ◌∷◌, keep, if◌then◌else◌}
use kun.Error.{SpiderError, Result, ok, err}
use kun.Scheduler.Task.{TaskId}
use kun.Request.{Request}
use kun.Middleware.Flow.{Admission}
use kun.Middleware.Chain.{ItemContext}
use kun.Engine.Domains.{is_domain_allowed}
use kun.Engine.Execute.{
  CallbackOutput, Failure, record_pipeline_drop, record_store_error, TaskExecutor, Work, Ended,
  success, tell, with_shared, error_outcome, dispatch_items_to_stores, scraped,
}
use kun.Engine.Execute.Steps.{run_middleware_before_item, run_middleware_after_item}

module _ {F Response Item W : Type 0} (self : TaskExecutor F Response Item W) where
  -- What the pipeline let through: the validator and the hooks behind it have the last word.
  unfoldable pub accept_item :
      ItemContext F Response Item
      → Work F Response Item W
      → Work F Response Item W × Result (Option Item)
  accept_item context w =
      let (shared, verdict) = self.services.validate context.item w.shared in
      elim verdict [
        | err e ↦ (with_shared shared w, ok none)
        | ok u ↦
            let ((context', shared'), answer) =
              run_middleware_after_item self.engine_middleware self.step_chain (context, shared) in
            (with_shared shared' w, elim answer [ err e ↦ err e | ok v ↦ ok (some context'.item) ])
      ]

  unfoldable pub pipe_item :
      ItemContext F Response Item
      → Work F Response Item W
      → Work F Response Item W × Result (Option Item)
  pipe_item context w =
      let ((item, shared), answer) = self.services.process context.item w.shared in
      let context' : ItemContext F Response Item = record context { item = item } in
      elim answer [
        | err e ↦ (with_shared shared w, err e)
        | ok kept ↦
            if kept
            then accept_item context' (with_shared shared w)
            else (tell (record_pipeline_drop ∷ []) (with_shared shared w), ok none)
      ]

  -- One round of the loop over the items: the item as it is kept, if it is.
  unfoldable pub process_item :
      ItemContext F Response Item
      → Work F Response Item W
      → Work F Response Item W × Result (Option Item)
  process_item context w =
      let ((context', shared), answer) =
        run_middleware_before_item self.engine_middleware self.step_chain (context, w.shared) in
      elim answer [
        | err e ↦ (with_shared shared w, err e)
        | ok flow ↦ elim flow [
          | Admission.drop reason ↦ (with_shared shared w, ok none)
          | Admission.continue ↦ pipe_item context' (with_shared shared w)
        ]
      ]

  -- The loop: an error of an item ends it.
  unfoldable pub process_items :
      (TaskId × Request F) × Option Response
      → List Item
      → Work F Response Item W
      → Work F Response Item W × Result (List Item)
  process_items from [] w = (w, ok [])
  process_items from (item ∷ items) w =
      let context : ItemContext F Response Item = record {
        task_id = from.0.0;
        spider_name = some self.spider_name;
        request = from.0.1;
        response = from.1;
        item = item;
      } in
      let (w', answer) = process_item context w in
      let rest : Work F Response Item W → Work F Response Item W × Result (List Item) =
        λ v. process_items from items v in
      elim answer [
        | err e ↦ (w', err e)
        | ok kept ↦ elim kept [
          | none ↦ rest w'
          | some k ↦
              let (w'', more) = rest w' in (w'', elim more [ err e ↦ err e | ok ks ↦ ok (k ∷ ks) ])
        ]
      ]

  -- The kept items go to the stores, if there are any.
  unfoldable pub store_items :
      List Item → Work F Response Item W → Work F Response Item W × Result (Unit {0})
  store_items [] w = (w, ok tt)
  store_items (item ∷ items) w =
      let (w', stored) = dispatch_items_to_stores self (item ∷ items) w in
      elim stored [
        | err e ↦ (tell (record_store_error ∷ []) w', err e)
        | ok u ↦ (tell (scraped (item ∷ items)) w', ok tt)
      ]

  unfoldable pub process_spider_output :
      CallbackOutput F Item
      → TaskId
      → Request F
      → Option Response
      → Work F Response Item W
      → Work F Response Item W × Ended F Item
  process_spider_output output task_id request response w =
      let (w', processed) = process_items ((task_id, request), response) output.items w in
      elim processed [
        | err e ↦ error_outcome request response e w'
        | ok items ↦
            let (w'', stored) = store_items items w' in
            elim stored [
              | err e ↦ error_outcome request response e w''
              | ok u ↦ (
                w'',
                success items
                    (keep (λ r. is_domain_allowed r.url self.allowed_domains) output.requests),
              )
            ]
      ]

  unfoldable pub run_errback :
      TaskId
      → Request F
      → Option Response
      → SpiderError
      → Work F Response Item W
      → Work F Response Item W × Ended F Item
  run_errback task_id request response error w = elim request.errback [
    | none ↦ error_outcome request response error w
    | some name ↦
        let failure : Failure F Response = record {
          request = request;
          response = response;
          error = error;
        } in
        let (shared, handled) = self.services.handle_error name failure w.shared in
        elim handled [
          | err e ↦ error_outcome request response e (with_shared shared w)
          | ok output ↦ process_spider_output output task_id request response (with_shared shared w)
        ]
  ]

-- ===== src/Engine/Execute/Stored.antt =====
-- src/engine/task.rs: the items that a run announces are the items of its success.
use mathlib.Core.List.{append_assoc}
use mathlib.Core.Path.{subst}
use kun.Prelude.{
  ◌≡◌, refl, Bool, true, false, not, Option, none, some, List, [], ◌∷◌, ◌++◌, Bool-cases,
  Option-cases, inl, inr, if◌then◌else◌, ap, ◌∙◌, sym, append-nil,
}
use kun.Error.{SpiderError, Result, ok, err, Result-cases}
use kun.Scheduler.Task.{TaskId}
use kun.Request.{Request}
use kun.Middleware.Flow.{Admission}
use kun.Middleware.Chain.{ItemContext}
use kun.Engine.Execute.{
  CallbackOutput, Failure, Note, item_scraped, record_pipeline_drop, record_store_error,
  spider_error, TaskExecutor, Work, Ended, success, other, with_shared, tell, scraped,
  error_outcome, dispatch_items_to_stores,
}
use kun.Engine.Execute.Steps.{run_middleware_before_item}
use kun.Engine.Execute.Output.{
  accept_item, pipe_item, process_item, process_items, store_items, process_spider_output,
  run_errback,
}

abbrev pub items_of : {F Item : Type 0} → Option (Ended F Item) → List Item
items_of none = []
items_of (some (success items follows)) = items
items_of (some (other outcome)) = []

module _ {F Response Item : Type 0} where
  abbrev pub announced_by : Note F Response Item → List Item
  announced_by (item_scraped item) = item ∷ []
  announced_by note = []

  -- The items that the signals tell of.
  unfoldable pub announced : List (Note F Response Item) → List Item
  announced [] = []
  announced (note ∷ notes) = announced_by note ++ announced notes

  announced-append :
      (notes more : List (Note F Response Item))
      → announced (notes ++ more) ≡ announced notes ++ announced more
  unfolding announced
  announced-append [] more = refl
  announced-append (note ∷ notes) more =
      ap (◌++◌ (announced_by note)) (announced-append notes more)
      ∙ sym (append_assoc (announced_by note) (announced notes) (announced more))

announced-scraped :
    (F Response : Type 0) {Item : Type 0} (items : List Item)
    → announced {F = F} {Response = Response} (scraped items) ≡ items
unfolding announced
announced-scraped F Response [] = refl
announced-scraped F Response (item ∷ items) = ap (◌∷◌ item) (announced-scraped F Response items)

module _ {F Response Item W : Type 0} where
  -- The signals between two states tell of these items.
  abbrev pub Announces : Work F Response Item W → List Item → Work F Response Item W → Type 0
  Announces w items w' = announced w'.log ≡ announced w.log ++ items

  pub announce_none : (w : Work F Response Item W) → Announces w [] w
  announce_none w = sym (append-nil (announced w.log))

  pub announce_note :
      (note : Note F Response Item) (w : Work F Response Item W)
      → Announces w (announced_by note) (tell (note ∷ []) w)
  unfolding announced
  announce_note note w =
      announced-append w.log (note ∷ [])
      ∙ ap (λ items. announced w.log ++ items) (append-nil (announced_by note))

  pub announce_after :
      (w w' : Work F Response Item W) (items : List Item) (w'' : Work F Response Item W)
      → Announces w [] w'
      → Announces w' items w''
      → Announces w items w''
  announce_after w w' items w'' h k =
      k ∙ ap (λ before. before ++ items) (h ∙ append-nil (announced w.log))

module _ {F Response Item W : Type 0} (self : TaskExecutor F Response Item W) where
  accept_item-Announces :
      (context : ItemContext F Response Item) (w : Work F Response Item W)
      → Announces w [] (accept_item self context w).0
  unfolding accept_item
  accept_item-Announces context w =
      elim (Result-cases (self.services.validate context.item w.shared).1) [
        | inl (e, failed) ↦ rw (failed, accept_item) (announce_none w)
        | inr (u, valid) ↦ rw (valid, accept_item) (announce_none w)
      ]

  pipe_item-Announces :
      (context : ItemContext F Response Item) (w : Work F Response Item W)
      → Announces w [] (pipe_item self context w).0
  unfolding pipe_item
  pipe_item-Announces context w =
      let piped = self.services.process context.item w.shared in
      elim (Result-cases piped.1) [
        | inl (e, failed) ↦ rw (failed, pipe_item) (announce_none w)
        | inr (kept, answered) ↦ elim (Bool-cases kept) [
          | inl yes_kept ↦
              rw (answered, pipe_item, yes_kept) (accept_item-Announces _ (with_shared piped.0.1 w))
          | inr dropped ↦ rw (answered, pipe_item, dropped) (announce_note record_pipeline_drop w)
        ]
      ]

  process_item-Announces :
      (context : ItemContext F Response Item) (w : Work F Response Item W)
      → Announces w [] (process_item self context w).0
  unfolding process_item
  process_item-Announces context w =
      let before =
        run_middleware_before_item self.engine_middleware self.step_chain (context, w.shared) in
      elim (Result-cases before.1) [
        | inl (e, failed) ↦ rw (failed, process_item) (announce_none w)
        | inr (Admission.drop reason, answered) ↦ rw (answered, process_item) (announce_none w)
        | inr (Admission.continue, answered) ↦
            rw (answered, process_item) (pipe_item-Announces before.0.0 (with_shared before.0.1 w))
      ]

  process_items-Announces :
      (from : (TaskId × Request F) × Option Response) (items : List Item)
      (w : Work F Response Item W)
      → Announces w [] (process_items self from items w).0
  unfolding process_items
  process_items-Announces from [] w = announce_none w
  process_items-Announces from (item ∷ items) w =
      let context : ItemContext F Response Item = record {
        task_id = from.0.0;
        spider_name = some self.spider_name;
        request = from.0.1;
        response = from.1;
        item = item;
      } in
      let one = process_item self context w in
      let first = process_item-Announces context w in
      let rest =
        announce_after w one.0 [] (process_items self from items one.0).0 first
          (process_items-Announces from items one.0) in
      elim (Result-cases one.1) [
        | inl (e, failed) ↦ rw (failed, process_items) first
        | inr (none, answered) ↦ rw (answered, process_items) rest
        | inr (some k, answered) ↦ rw (answered, process_items) rest
      ]

  -- The items that a store call tells of: all when it succeeds, and none when it fails.
  abbrev stored_items : List Item → Result (Unit {0}) → List Item
  stored_items items (ok u) = items
  stored_items items (err e) = []

  either-Announces :
      {A : Type 0} (w : Work F Response Item W) (items : List Item) (b : Bool)
      (p q : Work F Response Item W × A)
      → Announces w items p.0
      → Announces w items q.0
      → Announces w items (if b then p else q).0
  either-Announces w items true p q h k = h
  either-Announces w items false p q h k = k

  dispatch_items_to_stores-Announces :
      (items : List Item) (w : Work F Response Item W)
      → Announces w [] (dispatch_items_to_stores self items w).0
  unfolding dispatch_items_to_stores
  dispatch_items_to_stores-Announces items w =
      either-Announces w [] (not self.services.has_stores) _ _ (announce_none w) (announce_none w)

  store_items-Announces :
      (items : List Item) (w : Work F Response Item W)
      → Announces w (stored_items items (store_items self items w).1) (store_items self items w).0
  unfolding store_items
  store_items-Announces [] w = announce_none w
  store_items-Announces (item ∷ items) w =
      let stored = dispatch_items_to_stores self (item ∷ items) w in
      let first = dispatch_items_to_stores-Announces (item ∷ items) w in
      elim (Result-cases stored.1) [
        | inl (e, failed) ↦
            rw (failed, store_items)
              (announce_after w stored.0 [] (tell (record_store_error ∷ []) stored.0) first
                (announce_note record_store_error stored.0))
        | inr (u, done) ↦
            rw (done, store_items)
              (announce_after w stored.0 (item ∷ items) (tell (scraped (item ∷ items)) stored.0)
                first
                (announced-append stored.0.log (scraped (item ∷ items))
                  ∙ ap (λ more. announced stored.0.log ++ more)
                      (announced-scraped F Response (item ∷ items))))
      ]

  pub process_spider_output-Announces :
      (output : CallbackOutput F Item) (task_id : TaskId) (request : Request F)
      (response : Option Response) (w : Work F Response Item W)
      → Announces w
          (items_of (some (process_spider_output self output task_id request response w).1))
          (process_spider_output self output task_id request response w).0
  unfolding process_spider_output error_outcome
  process_spider_output-Announces output task_id request response w =
      let processed = process_items self ((task_id, request), response) output.items w in
      let first = process_items-Announces ((task_id, request), response) output.items w in
      elim (Result-cases processed.1) [
        | inl (e, failed) ↦
            rw (failed, process_spider_output)
              (announce_after w processed.0 []
                (tell (spider_error request response e ∷ []) processed.0) first
                (announce_note (spider_error request response e) processed.0))
        | inr (items, kept) ↦
            let stored = store_items self items processed.0 in
            let second =
              announce_after w processed.0 _ stored.0 first
                (store_items-Announces items processed.0) in
            elim (Result-cases stored.1) [
              | inl (e, failed) ↦
                  let none_told =
                    subst (λ r. Announces w (stored_items items r) stored.0) failed second in
                  rw (kept, process_spider_output, failed)
                    (announce_after w stored.0 []
                      (tell (spider_error request response e ∷ []) stored.0) none_told
                      (announce_note (spider_error request response e) stored.0))
              | inr (u, done) ↦
                  let all_told =
                    subst (λ r. Announces w (stored_items items r) stored.0) done second in
                  rw (kept, process_spider_output, done) all_told
            ]
      ]

  pub run_errback-Announces :
      (task_id : TaskId) (request : Request F) (response : Option Response) (error : SpiderError)
      (w : Work F Response Item W)
      → Announces w
          (items_of (some (run_errback self task_id request response error w).1))
          (run_errback self task_id request response error w).0
  unfolding run_errback error_outcome
  run_errback-Announces task_id request response error w = elim (Option-cases request.errback) [
    | inl no_errback ↦
        rw (no_errback, run_errback) (announce_note (spider_error request response error) w)
    | inr (name, named) ↦
        let failure : Failure F Response = record {
          request = request;
          response = response;
          error = error;
        } in
        let handled = self.services.handle_error name failure w.shared in
        elim (Result-cases handled.1) [
          | inl (e, failed) ↦
              rw (named, run_errback, failed)
                (announce_note (spider_error request response e) (with_shared handled.0 w))
          | inr (output, done) ↦
              rw (named, run_errback, done)
                (process_spider_output-Announces output task_id request response
                  (with_shared handled.0 w))
        ]
  ]

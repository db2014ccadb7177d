-- ===== src/Engine/Task.antt =====
-- src/engine/task.rs: what the engine does with the outcome of a task. Traces are not modelled.
use kun.Prelude.{
  ℕ, ◌+◌, ◌&&◌, Bool, true, false, not, ◌||◌, String, str_eq, Option, none, some, List, [], ◌∷◌,
  ◌++◌, map, if◌then◌else◌,
}
use kun.Prelude.Map
use kun.Prelude.Map.{Map}
use kun.Error.{SpiderError, Result, ok, err, is_scheduler_lease_resolution_error}
use kun.Value.{as_str}
use kun.Scheduler.Task.{Task, TaskId, TaskLease, with_id}
use kun.Scheduler.Memory.Calls
use kun.Scheduler.Memory.Calls.{Memory}
use kun.Request.{Request, request_ops}
use kun.Middleware.Flow.{Admission}
use kun.Middleware.Chain
use kun.Middleware.Chain.{Enqueue, Chain, admits, next_flow}
use kun.Engine.Domains.{is_domain_allowed}
pub mod Commit
pub mod Prepare
pub mod Lost
pub mod Asked
pub mod Queue

-- `signals::SchedulerEventKind`.
pub data SchedulerEventKind : Type 0 where
  claimed completed requeued beat lease_lost : SchedulerEventKind

-- What the engine tells the statistics and the signal bus, in its order.
pub data Event (F : Type 0) : Type 0 where
  record_retry record_error record_dedup_reject : Event F
  record_scheduler : SchedulerEventKind → Event F
  scheduler_event : SchedulerEventKind → TaskLease → String → Option SpiderError → Event F
  request_scheduled : Request F → Event F

-- `follows` has, with each request, the identity that `Task::new` draws for it.
pub record TaskOutput (F : Type 0) : Type 0 where
  pub has_items : Bool
  pub follows : List (Request F × TaskId)

pub data TaskOutcome (F : Type 0) : Type 0 where
  success : TaskOutput F → TaskOutcome F
  delay : Task (Request F) → TaskOutcome F
  retry : Task (Request F) → TaskOutcome F
  drop : TaskOutcome F
  error : SpiderError → TaskOutcome F
  lease_lost : SpiderError → TaskOutcome F

pub record TaskRun (F : Type 0) : Type 0 where
  pub lease : TaskLease
  pub url : String
  pub outcome : TaskOutcome F

-- The chains of the engine and of its steps; the step "parse" is always there.
pub record Setup (F Response Item W : Type 0) : Type 0 where
  pub engine_middleware : Chain F Response Item W
  pub parse_chain : Chain F Response Item W
  pub step_chains : Map (Chain F Response Item W)
  pub allowed_domains : List String
  pub spider_name : String

-- What a task run changes: the scheduler, the state of the middleware, the log and the round.
pub record Engine (F W : Type 0) : Type 0 where
  pub scheduler : Memory (Request F)
  pub shared : W
  pub log : List (Event F)
  pub round : ℕ

module _ {F W : Type 0} where
  abbrev pub tell : List (Event F) → Engine F W → Engine F W
  tell events e = record e { log = e.log ++ events }

  unfoldable pub record_scheduler_event :
      SchedulerEventKind → TaskLease → String → Option SpiderError → Engine F W → Engine F W
  record_scheduler_event event lease url cause e =
      tell (record_scheduler event ∷ scheduler_event event lease url cause ∷ []) e

  -- The engine after the transition of the scheduler, and whether it was committed.
  unfoldable pub resolve_scheduler_transition :
      Memory (Request F) × Result (Unit {0})
      → TaskLease
      → SchedulerEventKind
      → String
      → Engine F W
      → Engine F W × Result Bool
  unfolding record_scheduler_event
  resolve_scheduler_transition (scheduler, ok u) lease event url e =
      (record_scheduler_event event lease url none (record e { scheduler = scheduler }), ok true)
  resolve_scheduler_transition (scheduler, err cause) lease event url e =
      let e' : Engine F W = record e { scheduler = scheduler } in
      if is_scheduler_lease_resolution_error cause
      then (
        record_scheduler_event SchedulerEventKind.lease_lost lease url (some cause)
            (tell (record_error ∷ []) e'),
        ok false,
      )
      else (e', err cause)

  unfoldable pub resolve_enqueue_admission_flow : Admission → Engine F W → Engine F W × Bool
  resolve_enqueue_admission_flow Admission.continue e = (e, true)
  resolve_enqueue_admission_flow (Admission.drop reason) e =
      (if str_eq reason "dedup" then tell (record_dedup_reject ∷ []) e else e, false)

  -- One round of the loop over the follow-up requests, after the task was prepared.
  unfoldable pub prepared_follow :
      Request F
      → (Engine F W → Engine F W × Result (List (Request F × Task (Request F))))
      → Engine F W × Result (Option (Task (Request F)))
      → Engine F W × Result (List (Request F × Task (Request F)))
  prepared_follow follow rest (e, err cause) = (e, err cause)
  prepared_follow follow rest (e, ok none) = rest e
  prepared_follow follow rest (e, ok (some task)) =
      let (e', more) = rest e in
      (e', elim more [ err cause ↦ err cause | ok tasks ↦ ok ((follow, task) ∷ tasks) ])

  abbrev pub ignore_bool : Engine F W × Result Bool → Engine F W × Result (Unit {0})
  ignore_bool (e, err cause) = (e, err cause)
  ignore_bool (e, ok b) = (e, ok tt)

module _ {F Response Item W : Type 0} where
  unfoldable pub run_middleware_before_enqueue :
      Chain F Response Item W
      → Chain F Response Item W
      → Enqueue F × W
      → (Enqueue F × W) × Result Admission
  run_middleware_before_enqueue engine step s =
      next_flow admits (Chain.before_enqueue step) (Chain.before_enqueue engine s)

  unfoldable pub run_middleware_after_enqueue :
      Chain F Response Item W
      → Chain F Response Item W
      → Request F
      → TaskId
      → String
      → Engine F W
      → Engine F W × Result (Unit {0})
  run_middleware_after_enqueue engine step request task_id spider_name e =
      let context : Enqueue F = record {
        task_id = task_id;
        spider_name = some spider_name;
        request = request;
      } in
      let ((context', shared), result) =
        next_flow (λ u. true) (Chain.after_enqueue step)
          (Chain.after_enqueue engine (context, e.shared)) in
      (record e { shared = shared }, result)

  unfoldable pub step_chain : Setup F Response Item W → Request F → Chain F Response Item W
  step_chain x r =
      let named : Option String = elim (Map.lookup "next_step" r.meta) [
        | none ↦ none
        | some v ↦ as_str v
      ] in
      let step_id : String = elim named [ none ↦ "parse" | some s ↦ s ] in
      Map.lookup_or x.parse_chain step_id x.step_chains

  -- The task as the middleware left it, if it was admitted to an allowed domain.
  unfoldable pub admitted_task :
      Setup F Response Item W
      → Task (Request F)
      → Admission
      → Request F
      → Engine F W
      → Engine F W × Option (Task (Request F))
  admitted_task x task next request e =
      let (e', admitted) = resolve_enqueue_admission_flow next e in
      if admitted
      then if not request.skip_domain_filter
          && not (is_domain_allowed request.url x.allowed_domains)
        then (e', none)
        else (e', some (record task { request = request }))
      else (e', none)

  unfoldable pub prepare_task_for_enqueue :
      Setup F Response Item W
      → Chain F Response Item W
      → Task (Request F)
      → Engine F W
      → Engine F W × Result (Option (Task (Request F)))
  prepare_task_for_enqueue x step task e =
      let context : Enqueue F = record {
        task_id = task.id;
        spider_name = some x.spider_name;
        request = task.request;
      } in
      let ((context', shared), answer) =
        run_middleware_before_enqueue x.engine_middleware step (context, e.shared) in
      let e' : Engine F W = record e { shared = shared } in
      elim answer [
        | err cause ↦ (e', err cause)
        | ok next ↦
            let (e'', prepared) = admitted_task x task next context'.request e' in
            (e'', ok prepared)
      ]

  -- The loop over the follow-up requests: the admitted tasks, each with the request as it came.
  unfoldable pub prepare_follows :
      Setup F Response Item W
      → List (Request F × TaskId)
      → Engine F W
      → Engine F W × Result (List (Request F × Task (Request F)))
  prepare_follows x [] e = (e, ok [])
  prepare_follows x ((follow, id) ∷ follows) e =
      prepared_follow follow (λ e'. prepare_follows x follows e')
        (prepare_task_for_enqueue x (step_chain x follow) (with_id request_ops follow id) e)

  -- `run_middleware_after_enqueue`, and the signal if it succeeds.
  unfoldable pub announce :
      Setup F Response Item W → Request F → TaskId → Engine F W → Engine F W × Result (Unit {0})
  announce x r id e =
      let (e', result) =
        run_middleware_after_enqueue x.engine_middleware (step_chain x r) r id x.spider_name e in
      elim result [
        | err cause ↦ (e', err cause)
        | ok u ↦ (tell (request_scheduled r ∷ []) e', ok tt)
      ]

  unfoldable pub announce_all :
      Setup F Response Item W
      → List (Request F × TaskId)
      → Engine F W
      → Engine F W × Result (Unit {0})
  announce_all x [] e = (e, ok tt)
  announce_all x ((r, id) ∷ rs) e =
      let (e', result) = announce x r id e in
      let rest : Engine F W → Engine F W × Result (Unit {0}) = λ e''. announce_all x rs e'' in
      elim result [ err cause ↦ (e', err cause) | ok u ↦ rest e' ]

  -- The lease is completed with the tasks; if that is committed, the requests are announced.
  unfoldable pub commit_tasks :
      Setup F Response Item W
      → ℕ
      → TaskLease
      → String
      → List (Task (Request F))
      → List (Request F × TaskId)
      → Engine F W
      → Engine F W × Result (Unit {0})
  commit_tasks x now lease url tasks requests e =
      let (e', committed) =
        resolve_scheduler_transition (Calls.complete_and_enqueue now lease tasks e.scheduler) lease
          completed url e in
      elim committed [
        | err cause ↦ (e', err cause)
        | ok b ↦ if b then announce_all x requests e' else (e', ok tt)
      ]

  -- The body that the branches of a delayed and of a retried task share.
  unfoldable pub reschedule :
      Setup F Response Item W
      → ℕ
      → TaskLease
      → String
      → Task (Request F)
      → Engine F W
      → Engine F W × Result (Unit {0})
  reschedule x now lease url task e =
      let (e', prepared) = prepare_task_for_enqueue x (step_chain x task.request) task e in
      elim prepared [
        | err cause ↦ (e', err cause)
        | ok queued ↦
            commit_tasks x now lease url (elim queued [ none ↦ [] | some t ↦ t ∷ [] ])
              ((task.request, task.id) ∷ []) e'
      ]

  unfoldable pub apply_task_run :
      Setup F Response Item W → ℕ → TaskRun F → Engine F W → Engine F W × Result (Unit {0})
  apply_task_run x now run e = elim run.outcome [
    | success output ↦
        let (e', prepared) = prepare_follows x output.follows (record e { round = e.round + 1 }) in
        elim prepared [
          | err cause ↦ (e', err cause)
          | ok tasks ↦
              commit_tasks x now run.lease run.url (map (λ t. t.1) tasks)
                (map (λ t. (t.0, t.1.id)) tasks) e'
        ]
    | retry task ↦ reschedule x now run.lease run.url task (tell (record_retry ∷ []) e)
    | delay task ↦ reschedule x now run.lease run.url task e
    | drop ↦ ignore_bool (
        resolve_scheduler_transition (Calls.complete run.lease e.scheduler) run.lease completed
          run.url e)
    | error cause ↦
        let e' = tell (record_error ∷ []) e in
        ignore_bool (
          resolve_scheduler_transition (Calls.requeue now run.lease e'.scheduler) run.lease requeued
            run.url e')
    | lease_lost cause ↦ (
      record_scheduler_event SchedulerEventKind.lease_lost run.lease run.url (some cause)
          (tell (record_error ∷ []) e),
      ok tt,
    )
  ]

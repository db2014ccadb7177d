-- ===== src/Engine/Task/Prepare.antt =====
-- src/engine/task.rs: preparing a task for a queue leaves the scheduler as it is.
use kun.Prelude.{◌≡◌, refl, ◌∙◌, Option, none, some, List, [], ◌∷◌, arith, inl, inr}
use kun.Error.{Result, ok, err, Result-cases}
use kun.Scheduler.Task.{Task, TaskId, with_id}
use kun.Request.{Request, request_ops}
use kun.Middleware.Flow.{Admission}
use kun.Middleware.Chain.{Chain, Enqueue}
use kun.Engine.Task.{
  Setup, Engine, admitted_task, prepare_task_for_enqueue, resolve_enqueue_admission_flow,
  prepare_follows, prepared_follow, step_chain, run_middleware_before_enqueue,
}

module _ {F W : Type 0} where
  prepared_follow-scheduler :
      (follow : Request F)
      (rest : Engine F W → Engine F W × Result (List (Request F × Task (Request F))))
      → ((e : Engine F W) → (rest e).0.scheduler ≡ e.scheduler)
      → (r : Engine F W × Result (Option (Task (Request F))))
      → (prepared_follow follow rest r).0.scheduler ≡ r.0.scheduler
  unfolding prepared_follow
  prepared_follow-scheduler follow rest h (e, err cause) = refl
  prepared_follow-scheduler follow rest h (e, ok none) = h e
  prepared_follow-scheduler follow rest h (e, ok (some task)) = h e

module _ {F Response Item W : Type 0} where
  admitted_task-scheduler :
      (x : Setup F Response Item W) (task : Task (Request F)) (next : Admission) (r : Request F)
      (e : Engine F W)
      → (admitted_task x task next r e).0.scheduler ≡ e.scheduler
  unfolding admitted_task resolve_enqueue_admission_flow
  admitted_task-scheduler x task Admission.continue r e = ground arith
  admitted_task-scheduler x task (Admission.drop reason) r e = ground arith

  pub prepare_task_for_enqueue-scheduler :
      (x : Setup F Response Item W) (step : Chain F Response Item W) (task : Task (Request F))
      (e : Engine F W)
      → (prepare_task_for_enqueue x step task e).0.scheduler ≡ e.scheduler
  unfolding prepare_task_for_enqueue
  prepare_task_for_enqueue-scheduler x step task e =
      let context : Enqueue F = record {
        task_id = task.id;
        spider_name = some x.spider_name;
        request = task.request;
      } in
      let (s, answer) =
        run_middleware_before_enqueue x.engine_middleware step (context, e.shared) in
      elim (Result-cases answer) [
        | inl (cause, failed) ↦ rw (failed, prepare_task_for_enqueue) refl
        | inr (next, good) ↦
            rw (good, prepare_task_for_enqueue)
              (admitted_task-scheduler x task next s.0.request (record e { shared = s.1 }))
      ]

  pub prepare_follows-scheduler :
      (x : Setup F Response Item W) (follows : List (Request F × TaskId)) (e : Engine F W)
      → (prepare_follows x follows e).0.scheduler ≡ e.scheduler
  unfolding prepare_follows
  prepare_follows-scheduler x [] e = refl
  prepare_follows-scheduler x ((follow, id) ∷ follows) e =
      prepared_follow-scheduler follow (λ e'. prepare_follows x follows e')
        (λ e'. prepare_follows-scheduler x follows e')
        (prepare_task_for_enqueue x (step_chain x follow) (with_id request_ops follow id) e)
      ∙ prepare_task_for_enqueue-scheduler x (step_chain x follow) (with_id request_ops follow id) e

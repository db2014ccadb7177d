-- ===== src/Engine/Task/Queue.antt =====
-- src/engine/task.rs: `enqueue_task_with_middleware`, with the name of the spider and the statistics, as
-- the engine calls it, and `enqueue_request_with_middleware`.
use kun.Prelude.{
  ℕ, refl, arith, not, ◌&&◌, if◌then◌else◌, ap, ◌≡◌, ◌≢◌, ◌||◌, Bool-cases, str_eq, Bool, true,
  false, Option, none, some, inl, inr,
}
use kun.Error.{Result, ok, err, Result-cases}
use kun.Scheduler.Task.{Task, TaskId, with_id}
use kun.Scheduler.Memory.Calls
use kun.Request.{Request, request_ops}
use kun.Middleware.Chain.{Chain}
use kun.Engine.Task.{
  admitted_task, resolve_enqueue_admission_flow, run_middleware_before_enqueue, Setup, Engine,
  prepare_task_for_enqueue, run_middleware_after_enqueue,
}
use kun.Engine.Domains.{is_domain_allowed}
use kun.Middleware.Flow.{Admission}
use kun.Scheduler.Memory.Calls.{Memory}

module _ {F Response Item W : Type 0} (x : Setup F Response Item W)
    (step : Chain F Response Item W) where
  -- The task that was prepared, if there is one.
  unfoldable pub enqueue_prepared :
      ℕ → Engine F W × Result (Option (Task (Request F))) → Engine F W × Result Bool
  enqueue_prepared now (e, err cause) = (e, err cause)
  enqueue_prepared now (e, ok none) = (e, ok false)
  enqueue_prepared now (e, ok (some task)) =
      let (scheduler, queued) = Calls.enqueue now task e.scheduler in
      let e' : Engine F W = record e { scheduler = scheduler } in
      elim queued [
        | err cause ↦ (e', err cause)
        | ok u ↦
            let (e'', told) =
              run_middleware_after_enqueue x.engine_middleware step task.request task.id
                x.spider_name e' in
            (e'', elim told [ err cause ↦ err cause | ok v ↦ ok true ])
      ]

  unfoldable pub enqueue_task_with_middleware :
      ℕ → Task (Request F) → Engine F W → Engine F W × Result Bool
  enqueue_task_with_middleware now task e =
      enqueue_prepared now (prepare_task_for_enqueue x step task e)

  unfoldable pub enqueue_request_with_middleware :
      ℕ → TaskId → Request F → Engine F W → Engine F W × Result Bool
  enqueue_request_with_middleware now id request e =
      enqueue_task_with_middleware now (with_id request_ops request id) e

  -- What becomes of a request that the hooks before the queue answered and may have changed, and that
  -- the domain filter lets pass or not: the scheduler `m` as it is left, and the answer of the engine.
  abbrev pub Becomes :
      ℕ
      → Task (Request F)
      → Result Admission
      → (passes : Bool) → Memory (Request F)
      → Memory (Request F) × Result Bool
      → Type 0
  Becomes now task (err error) passes m (m', answer) = (m' ≡ m) × (answer ≡ err error)
  Becomes now task (ok (Admission.drop reason)) passes m (m', answer) =
      (m' ≡ m) × (answer ≡ ok false)
  Becomes now task (ok Admission.continue) false m (m', answer) = (m' ≡ m) × (answer ≡ ok false)
  Becomes now task (ok Admission.continue) true m (m', answer) =
      (m' ≡ (Calls.enqueue now task m).0) × (answer ≢ ok false)

  enqueue_prepared-some :
      (now : ℕ) (task : Task (Request F)) (e : Engine F W) (m : Memory (Request F))
      → e.scheduler ≡ m
      → Becomes now task (ok Admission.continue) true m (
        (enqueue_prepared now (e, ok (some task))).0.scheduler,
        (enqueue_prepared now (e, ok (some task))).1,
      )
  unfolding enqueue_prepared run_middleware_after_enqueue Calls.enqueue
  enqueue_prepared-some now task e m same =
      let queued : Engine F W = record e { scheduler = (Calls.enqueue now task e.scheduler).0 } in
      let after =
        run_middleware_after_enqueue x.engine_middleware step task.request task.id x.spider_name
          queued in
      let here = ap (λ n. (Calls.enqueue now task n).0) same in
      elim (Result-cases after.1) [
        | inl (cause, failed) ↦
            rw (failed, enqueue_prepared) (here, λ h. absurd (ground (arith, h)))
        | inr (u, told) ↦ rw (told, enqueue_prepared) (here, λ h. absurd (ground (arith, h)))
      ]

  filtered-Becomes :
      (now : ℕ) (task : Task (Request F)) (e : Engine F W) (skips allowed : Bool)
      → let (e', prepared) =
          if◌then◌else◌ {A = Engine F W × Option (Task (Request F))}
            (not skips && not allowed)
            (e, none)
            (e, some task) in
        let after = enqueue_prepared now (e', ok prepared) in
        Becomes now task
          (ok Admission.continue)
          (skips || allowed)
          e.scheduler
          (after.0.scheduler, after.1)
  unfolding enqueue_prepared
  filtered-Becomes now task e true allowed = enqueue_prepared-some now task e e.scheduler refl
  filtered-Becomes now task e false true = enqueue_prepared-some now task e e.scheduler refl
  filtered-Becomes now task e false false = (refl, refl)

  admitted-Becomes :
      (now : ℕ) (task : Task (Request F)) (next : Admission) (request : Request F) (e : Engine F W)
      → let (e', prepared) = admitted_task x task next request e in
        let after = enqueue_prepared now (e', ok prepared) in
        Becomes now
          (record task { request = request })
          (ok next)
          (request.skip_domain_filter || is_domain_allowed request.url x.allowed_domains)
          e.scheduler
          (after.0.scheduler, after.1)
  unfolding admitted_task resolve_enqueue_admission_flow enqueue_prepared
  admitted-Becomes now task (Admission.drop reason) request e =
      elim (Bool-cases (str_eq reason "dedup")) [
        | inl dedup ↦ rw (dedup) (refl, refl)
        | inr other ↦ rw (other) (refl, refl)
      ]
  admitted-Becomes now task Admission.continue request e =
      filtered-Becomes now (record task { request = request }) e request.skip_domain_filter
        (is_domain_allowed request.url x.allowed_domains)

  -- The engine queues a request exactly when the hooks before the queue let it go on and the request
  -- skips the domain filter or its URL, as the hooks left it, is in an allowed domain. Then the
  -- scheduler gets the one task of the request as they left it, with the identity drawn for it, and the
  -- answer is not `false`. If a hook drops the request or the filter refuses it, the scheduler is as it
  -- was and the answer is `false`; if a hook fails, the scheduler is as it was and the error is returned.
  pub enqueue_request_with_middleware-Becomes :
      (now : ℕ) (id : TaskId) (request : Request F) (e : Engine F W)
      → let task = with_id request_ops request id in
        let ((context, shared), answer) = run_middleware_before_enqueue x.engine_middleware step (
          record { task_id = id; spider_name = some x.spider_name; request = task.request },
          e.shared,
        ) in
        let left = context.request in
        let after = enqueue_request_with_middleware now id request e in
        Becomes now
          (record task { request = left })
          answer
          (left.skip_domain_filter || is_domain_allowed left.url x.allowed_domains)
          e.scheduler
          (after.0.scheduler, after.1)
  unfolding enqueue_request_with_middleware enqueue_task_with_middleware prepare_task_for_enqueue
      enqueue_prepared with_id
  enqueue_request_with_middleware-Becomes now id request e =
      let task = with_id request_ops request id in
      let before = run_middleware_before_enqueue x.engine_middleware step (
        record { task_id = id; spider_name = some x.spider_name; request = task.request },
        e.shared,
      ) in
      let e' : Engine F W = record e { shared = before.0.1 } in
      elim (Result-cases before.1) [
        | inl (cause, failed) ↦ rw (failed, prepare_task_for_enqueue) (refl, refl)
        | inr (next, good) ↦
            rw (good, prepare_task_for_enqueue)
              (admitted-Becomes now task next before.0.0.request e')
      ]

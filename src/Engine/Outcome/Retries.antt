-- ===== src/Engine/Outcome/Retries.antt =====
-- src/engine/task.rs with src/middleware/retry_by_error.rs and retry_by_status.rs: a request whose
-- download keeps failing is given up.
use kun.Prelude.{
  ℕ, suc, zero, ◌≤◌, ◌<◌, ◌+◌, ◌^◌, ltb, ◌≡◌, refl, true, false, String, Option, none, some, List,
  if◌then◌else◌, arith, ap, ◌∙◌, if_true, if_false, str_eq, [], ◌∷◌, length, any, ◌==◌,
}
use kun.Prelude.Map
use kun.Value.{number, string, as_f64}
use kun.Error.{Result, ok, err}
use kun.Request.{Request, skip, skips, middleware_options, middleware_skips, middleware_override}
use kun.Scheduler.Task.{TaskId, with_id, with_id_and_delay}
use kun.Middleware.Externals.{Externals}
use kun.Middleware.Flow.{Context, Download, continue, retry}
use kun.Middleware.RetryOptions.{retry_number, retry_times}
use kun.Middleware.RetryByError
use kun.Middleware.RetryByError.{RetryByError}
use kun.Middleware.RetryByStatus
use kun.Middleware.RetryByStatus.{RetryByStatus}
use kun.Engine.Task.{TaskOutcome}
use kun.Engine.Outcome.{map_download_to_task_outcome, download_context, retried_request, retry_task}

-- The floats count exactly up to 2^53.
abbrev pub CountsExactly : Externals → Type 0
CountsExactly x =
    ((n : ℕ)
      → n < 2 ^ 53
      → x.float.add (x.float.of_u64 n) (x.float.of_u64 1) ≡ x.float.of_u64 (suc n))
    × ((n : ℕ) → n ≤ 2 ^ 53 → x.float.to_u64 (x.float.of_u64 n) ≡ n)

module _ {F : Type 0} where
  -- What a round comes to: the rounds of the task that is queued again and one, or none.
  unfoldable pub requeued : Option (TaskOutcome F) → (Request F → Option ℕ) → Option ℕ
  requeued none rest = some 0
  requeued (some (TaskOutcome.retry t)) rest = elim (rest t.request) [
    | none ↦ none
    | some n ↦ some (suc n)
  ]
  requeued (some (TaskOutcome.delay t)) rest = elim (rest t.request) [
    | none ↦ none
    | some n ↦ some (suc n)
  ]
  requeued (some other) rest = some 0

module _ (x : Externals) (spider_name : String) (id : TaskId) where
  -- How often the task is queued again, when it is downloaded at each of the times and the hook
  -- answers to each download; `none` while it goes on behind the last of the times.
  unfoldable pub requeues :
      (hook : Context x.float.F → Result Download) (times : List ℕ) (r : Request x.float.F)
      → Option ℕ
  requeues hook [] r = none
  requeues hook (now ∷ times) r =
      let c = download_context x spider_name id r in
      let rest : Request x.float.F → Option ℕ = λ r'. requeues hook times r' in
      elim (hook c) [
        | err e ↦ some 0
        | ok answer ↦ requeued (map_download_to_task_outcome x now answer c) rest
      ]

module _ (x : Externals) where
  lookup-retried_request :
      (r : Request x.float.F) (reason : String) (backoff : Option ℕ)
      → Map.lookup "_retry_times" (retried_request x r reason backoff).meta
        ≡ some (number (x.float.add (retry_number x r) (x.float.of_u64 1)))
  unfolding retried_request skip
  lookup-retried_request r reason none =
      Map.lookup-insert "_retry_reason" "_retry_times" (string reason) _
      ∙ Map.lookup-insert_self "_retry_times" _ r.meta
  lookup-retried_request r reason (some millis) =
      Map.lookup-insert "_retry_backoff" "_retry_times" (number (x.float.of_u64 millis)) _
      ∙ (Map.lookup-insert "_retry_reason" "_retry_times" (string reason) _
          ∙ Map.lookup-insert_self "_retry_times" _ r.meta)

  pub retry_number-retried_request :
      (r : Request x.float.F) (reason : String) (backoff : Option ℕ)
      → retry_number x (retried_request x r reason backoff)
        ≡ x.float.add (retry_number x r) (x.float.of_u64 1)
  unfolding retry_number as_f64
  retry_number-retried_request r reason backoff =
      rw (lookup-retried_request r reason backoff, retry_number) refl

  pub middleware_override-retried_request :
      (name : String) (r : Request x.float.F) (reason : String) (backoff : Option ℕ)
      → str_eq "dedup" name ≡ false
      → middleware_override (retried_request x r reason backoff) name ≡ middleware_override r name
  unfolding retried_request skip middleware_override
  middleware_override-retried_request name r reason backoff h =
      Map.lookup-insert "dedup" name skips r.middleware ∙ if_false _ _ _ h

  request-retry_task :
      (now : ℕ) (r : Request x.float.F) (id : TaskId) (backoff : Option ℕ)
      → (retry_task x now r id backoff).request ≡ r
  unfolding retry_task with_id with_id_and_delay
  request-retry_task now r id none = refl
  request-retry_task now r id (some millis) = ground arith

  retry_times_exact :
      (r : Request x.float.F) (done : ℕ)
      → CountsExactly x
      → retry_number x r ≡ x.float.of_u64 done
      → done ≤ 2 ^ 53
      → retry_times x r ≡ done
  unfolding retry_times
  retry_times_exact r done exact at small = ap x.float.to_u64 at ∙ exact.1 done small

  module _ (spider_name : String) (id : TaskId) (hook : Context x.float.F → Result Download) where
    requeues_continue :
        (now : ℕ) (times : List ℕ) (r : Request x.float.F)
        → hook (download_context x spider_name id r) ≡ ok continue
        → requeues x spider_name id hook (now ∷ times) r ≡ some 0
    unfolding requeues requeued map_download_to_task_outcome
    requeues_continue now times r h = rw (h, requeues) refl

    requeues_retry :
        (now : ℕ) (times : List ℕ) (r : Request x.float.F) (reason : String) (backoff : Option ℕ)
        (n : ℕ)
        → hook (download_context x spider_name id r) ≡ ok (retry reason backoff)
        → requeues x spider_name id hook times (retried_request x r reason backoff) ≡ some n
        → requeues x spider_name id hook (now ∷ times) r ≡ some (suc n)
    unfolding requeues requeued map_download_to_task_outcome download_context
    requeues_retry now times r reason backoff n h k =
        rw (h, requeues, request-retry_task now (retried_request x r reason backoff) id backoff, k)
          refl

    -- A hook that asks for a retry while less than `limit` retries were made.
    requeues_limit :
        (Same : Request x.float.F → Type 0) (limit : ℕ) (reason : String)
        (backoff : Request x.float.F → Option ℕ) (exact : CountsExactly x)
        (keeps : (r : Request x.float.F) → Same r → Same (retried_request x r reason (backoff r)))
        (answers : (c : Context x.float.F)
          → Same c.request
          → hook c ≡ (
              if ltb (retry_times x c.request) limit
              then ok (retry reason (backoff c.request))
              else ok continue))
        (times : List ℕ) (r : Request x.float.F) (done left : ℕ)
        → Same r
        → retry_number x r ≡ x.float.of_u64 done
        → done + left ≡ limit
        → limit ≤ 2 ^ 53
        → left < length times
        → requeues x spider_name id hook times r ≡ some left
    unfolding download_context
    requeues_limit Same limit reason backoff exact keeps answers [] r done left same at sum small
          enough =
        absurd (omega arith)
    requeues_limit Same limit reason backoff exact keeps answers (now ∷ times) r done zero same at
          sum small enough =
        let times_done = retry_times_exact r done exact at (omega arith) in
        let full : ltb (retry_times x r) limit ≡ false = rw (times_done) (ground arith) in
        requeues_continue now times r
          (answers (download_context x spider_name id r) same ∙ if_false _ _ _ full)
    requeues_limit Same limit reason backoff exact keeps answers (now ∷ times) r done (suc left)
          same at sum small enough =
        let times_done = retry_times_exact r done exact at (omega arith) in
        let some_left : ltb (retry_times x r) limit ≡ true = rw (times_done) (ground arith) in
        let counted : retry_number x (retried_request x r reason (backoff r))
            ≡ x.float.of_u64 (suc done) =
          retry_number-retried_request r reason (backoff r)
          ∙ (ap (λ n. x.float.add n (x.float.of_u64 1)) at ∙ exact.0 done (omega arith)) in
        requeues_retry now times r reason (backoff r) left
          (answers (download_context x spider_name id r) same ∙ if_true _ _ _ some_left)
          (requeues_limit Same limit reason backoff exact keeps answers times _ (suc done) left
            (keeps r same) counted (omega arith) small (omega arith))

  middleware_skips_same :
      (name : String) (r r' : Request x.float.F)
      → middleware_override r' name ≡ middleware_override r name
      → middleware_skips r' name ≡ middleware_skips r name
  unfolding middleware_skips
  middleware_skips_same name r r' same = rw (same, middleware_skips) refl

  middleware_options_same :
      (name : String) (r r' : Request x.float.F)
      → middleware_override r' name ≡ middleware_override r name
      → middleware_options r' name ≡ middleware_options r name
  unfolding middleware_options
  middleware_options_same name r r' same = rw (same, middleware_options) refl

  retry_number_fresh :
      (r : Request x.float.F)
      → Map.lookup "_retry_times" r.meta ≡ none
      → retry_number x r ≡ x.float.of_u64 0
  unfolding retry_number
  retry_number_fresh r fresh = rw (fresh, retry_number) refl

  effective_count-error :
      (self : RetryByError) (r r' : Request x.float.F)
      → middleware_override r' "retry_by_error" ≡ middleware_override r "retry_by_error"
      → RetryByError.effective_count x self r' ≡ RetryByError.effective_count x self r
  unfolding RetryByError.effective_count
  effective_count-error self r r' same =
      rw (middleware_options_same "retry_by_error" r r' same, RetryByError.effective_count) refl

  effective_count-status :
      (self : RetryByStatus) (r r' : Request x.float.F)
      → middleware_override r' "retry_by_status" ≡ middleware_override r "retry_by_status"
      → RetryByStatus.effective_count x self r' ≡ RetryByStatus.effective_count x self r
  unfolding RetryByStatus.effective_count
  effective_count-status self r r' same =
      rw (middleware_options_same "retry_by_status" r r' same, RetryByStatus.effective_count) refl

  effective_statuses_same :
      (self : RetryByStatus) (r r' : Request x.float.F)
      → middleware_override r' "retry_by_status" ≡ middleware_override r "retry_by_status"
      → RetryByStatus.effective_statuses x self r' ≡ RetryByStatus.effective_statuses x self r
  unfolding RetryByStatus.effective_statuses
  effective_statuses_same self r r' same =
      rw (middleware_options_same "retry_by_status" r r' same, RetryByStatus.effective_statuses)
        refl

  download_error_answer :
      (self : RetryByError) (r : Request x.float.F) (c : Context x.float.F)
      → middleware_skips r "retry_by_error" ≡ false
      → middleware_override c.request "retry_by_error" ≡ middleware_override r "retry_by_error"
      → RetryByError.download_error x self c ≡ (
          if ltb (retry_times x c.request) (RetryByError.effective_count x self r)
          then ok (retry "retry_by_error" (RetryByError.backoff x self c.request))
          else ok continue)
  unfolding RetryByError.download_error RetryByError.should_retry
  download_error_answer self r c runs same =
      rw
        (
          RetryByError.download_error,
          middleware_skips_same "retry_by_error" r c.request same,
          runs,
          RetryByError.should_retry,
          effective_count-error self r c.request same,
        )
        refl

  after_download_answer :
      (self : RetryByStatus) (status : ℕ) (r : Request x.float.F) (c : Context x.float.F)
      → middleware_skips r "retry_by_status" ≡ false
      → any (λ s. s == status) (RetryByStatus.effective_statuses x self r) ≡ true
      → middleware_override c.request "retry_by_status" ≡ middleware_override r "retry_by_status"
      → RetryByStatus.after_download x self c status ≡ (
          if ltb (retry_times x c.request) (RetryByStatus.effective_count x self r)
          then ok (retry "retry_by_status" (RetryByStatus.backoff x self c.request))
          else ok continue)
  unfolding RetryByStatus.after_download RetryByStatus.should_retry
  after_download_answer self status r c runs listed same =
      rw
        (
          RetryByStatus.after_download,
          middleware_skips_same "retry_by_status" r c.request same,
          runs,
          RetryByStatus.should_retry,
          effective_statuses_same self r c.request same,
          effective_count-status self r c.request same,
          listed,
        )
        refl

  -- A request that no retry was made of, and whose every download fails, is queued again as often as
  -- its limit says, and then no more: so when the middleware is not skipped, the limit is at most 2^53,
  -- the floats count exactly up to there and it is downloaded more often than the limit.
  pub requeues-download_error :
      (exact : CountsExactly x) (self : RetryByError) (spider_name : String) (id : TaskId)
      (times : List ℕ) (r : Request x.float.F)
      → middleware_skips r "retry_by_error" ≡ false
      → Map.lookup "_retry_times" r.meta ≡ none
      → RetryByError.effective_count x self r ≤ 2 ^ 53
      → RetryByError.effective_count x self r < length times
      → requeues x spider_name id (RetryByError.download_error x self) times r
        ≡ some (RetryByError.effective_count x self r)
  requeues-download_error exact self spider_name id times r runs fresh small enough =
      requeues_limit spider_name id (RetryByError.download_error x self)
        (λ r'. middleware_override r' "retry_by_error" ≡ middleware_override r "retry_by_error")
        (RetryByError.effective_count x self r) "retry_by_error" (RetryByError.backoff x self) exact
        (λ r' same.
          middleware_override-retried_request "retry_by_error" r' "retry_by_error"
            (RetryByError.backoff x self r') refl
          ∙ same)
        (λ c same. download_error_answer self r c runs same) times r 0 _ refl
        (retry_number_fresh r fresh) (omega arith) small enough

  -- A request that no retry was made of, and whose every response has one status that is to be
  -- retried, is queued again as often as its limit says, and then no more: so when the middleware is
  -- not skipped, the limit is at most 2^53, the floats count exactly up to there and it is downloaded
  -- more often than the limit.
  pub requeues-after_download :
      (exact : CountsExactly x) (self : RetryByStatus) (status : ℕ) (spider_name : String)
      (id : TaskId) (times : List ℕ) (r : Request x.float.F)
      → middleware_skips r "retry_by_status" ≡ false
      → any (λ s. s == status) (RetryByStatus.effective_statuses x self r) ≡ true
      → Map.lookup "_retry_times" r.meta ≡ none
      → RetryByStatus.effective_count x self r ≤ 2 ^ 53
      → RetryByStatus.effective_count x self r < length times
      → requeues x spider_name id (λ c. RetryByStatus.after_download x self c status) times r
        ≡ some (RetryByStatus.effective_count x self r)
  requeues-after_download exact self status spider_name id times r runs listed fresh small enough =
      requeues_limit spider_name id (λ c. RetryByStatus.after_download x self c status)
        (λ r'. middleware_override r' "retry_by_status" ≡ middleware_override r "retry_by_status")
        (RetryByStatus.effective_count x self r) "retry_by_status" (RetryByStatus.backoff x self)
        exact
        (λ r' same.
          middleware_override-retried_request "retry_by_status" r' "retry_by_status"
            (RetryByStatus.backoff x self r') refl
          ∙ same)
        (λ c same. after_download_answer self status r c runs listed same) times r 0 _ refl
        (retry_number_fresh r fresh) (omega arith) small enough

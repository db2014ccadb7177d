-- ===== src/Middleware/AutoThrottle/Hooks.antt =====
-- src/middleware/auto_throttle.rs: what a request overrides, the next delays, and the three hooks.
use kun.Prelude.{
  ℕ, ◌+◌, ◌-◌, ◌/◌, ◌%◌, ◌^◌, ◌==◌, ◌||◌, leb, max, Bool, true, not, Option, none, some,
  if◌then◌else◌,
}
use kun.Error.{Result, ok, err}
use kun.Request.{MiddlewareOptions, middleware_options, middleware_skips}
use kun.Middleware.Flow.{Download, continue, Context}
use kun.Middleware.Externals.{Externals}
use kun.Middleware.Bucket.{resolve}
use kun.Middleware.Shared.{Registry, state_of, set_state, effective_bucket}
use kun.Middleware.AutoThrottle.{
  AutoThrottleState, AutoThrottle, with_delay, clamp, start_slot, finish_slot, interval_option,
  ratio_option,
}

-- `?` and the answer to go on.
abbrev went_on :
    Registry AutoThrottleState × Result (Unit {0}) → Registry AutoThrottleState × Result Download
went_on (reg, err e) = (reg, err e)
went_on (reg, ok u) = (reg, ok continue)

module _ (x : Externals) where
  abbrev pub override_options : Context x.float.F → Option (MiddlewareOptions x.float.F)
  override_options c = middleware_options c.request "auto_throttle"

  unfoldable pub effective_enabled : AutoThrottle x.float.F → Context x.float.F → Bool
  effective_enabled self c = elim (override_options c) [ none ↦ self.enabled | some options ↦ true ]

  unfoldable pub effective_target_concurrency :
      AutoThrottle x.float.F → Context x.float.F → x.float.F
  effective_target_concurrency self c =
      ratio_option x (override_options c) "target_concurrency" self.target_concurrency
        self.target_concurrency

  unfoldable pub effective_start_interval : AutoThrottle x.float.F → Context x.float.F → ℕ
  effective_start_interval self c =
      interval_option x (override_options c) "start_interval" self.start_interval

  unfoldable pub effective_min_interval : AutoThrottle x.float.F → Context x.float.F → ℕ
  effective_min_interval self c =
      interval_option x (override_options c) "min_interval" self.min_interval

  unfoldable pub effective_max_interval : AutoThrottle x.float.F → Context x.float.F → ℕ
  effective_max_interval self c =
      interval_option x (override_options c) "max_interval" self.max_interval

  unfoldable pub effective_error_backoff_ratio :
      AutoThrottle x.float.F → Context x.float.F → x.float.F
  effective_error_backoff_ratio self c =
      ratio_option x (override_options c) "error_backoff_ratio" self.error_backoff_ratio
        self.error_backoff_ratio

  unfoldable pub success_delay :
      (current latency : ℕ) (target_concurrency : x.float.F) (min_interval max_interval : ℕ) → ℕ
  success_delay current latency target_concurrency min_interval max_interval =
      let target = x.float.to_u64 (
        x.float.max (x.float.round (x.float.div (x.float.of_u64 latency) target_concurrency))
          (x.float.of_u64 0)) in
      let clamped = clamp target min_interval max_interval in
      if current == 0
      then clamped
      else clamp ((current + clamped) % 2 ^ 64 / 2) min_interval max_interval

  unfoldable pub error_delay :
      (current min_interval max_interval : ℕ) (error_backoff_ratio : x.float.F) → ℕ
  error_delay current min_interval max_interval error_backoff_ratio =
      let baseline = max (max current min_interval) 1 in
      let grown = x.float.round (x.float.mul (x.float.of_u64 baseline) error_backoff_ratio) in
      clamp (x.float.to_u64 (x.float.max grown (x.float.of_u64 1))) min_interval max_interval

  -- `delay_builder` has the current delay, the latency, the backoff ratio and the two bounds.
  unfoldable pub finish_request :
      AutoThrottle x.float.F
      → (now : ℕ) → Context x.float.F
      → (delay_builder : ℕ → ℕ → x.float.F → ℕ → ℕ → ℕ) → Registry AutoThrottleState
      → Registry AutoThrottleState × Result (Unit {0})
  finish_request self now c delay_builder reg =
      if not (effective_enabled self c) then (reg, ok tt) else elim c.request_started_at [
        | none ↦ (reg, ok tt)
        | some started_at ↦ elim (effective_bucket x "auto_throttle" self.bucket c) [
          | err e ↦ (reg, err e)
          | ok bucket ↦
              let start = effective_start_interval self c in
              let low = effective_min_interval self c in
              let high = max (effective_max_interval self c) low in
              let ratio = effective_error_backoff_ratio self c in
              let key = resolve x bucket c.spider_name c.request in
              let state = state_of (with_delay start) self.states key reg in
              let next_delay : ℕ → ℕ =
                λ current. delay_builder current (now - started_at) ratio low high in
              (
                set_state self.states key (finish_slot next_delay start low high now state) reg,
                ok tt,
              )
        ]
      ]

  unfoldable pub before_download :
      AutoThrottle x.float.F
      → (now : ℕ) → Context x.float.F
      → Registry AutoThrottleState
      → Context x.float.F × Registry AutoThrottleState × Result Download
  before_download self now c reg =
      if middleware_skips c.request "auto_throttle"
      then (c, reg, ok continue)
      else if not (effective_enabled self c)
      then (c, reg, ok continue)
      else elim (effective_bucket x "auto_throttle" self.bucket c) [
        | err e ↦ (c, reg, err e)
        | ok bucket ↦
            let start = effective_start_interval self c in
            let key = resolve x bucket c.spider_name c.request in
            let (state, flow) =
              start_slot start now (state_of (with_delay start) self.states key reg) in
            let c' : Context x.float.F = elim flow [
              | Download.continue ↦ record c { request_started_at = some now }
              | Download.drop reason ↦ c
              | Download.delay reason millis ↦ c
              | Download.retry reason backoff ↦ c
            ] in
            (c', set_state self.states key state reg, ok flow)
      ]

  -- A status of 429 or of a server's error makes the delay grow, any other follows the latency.
  unfoldable pub after_download :
      AutoThrottle x.float.F
      → (now status : ℕ) → Context x.float.F
      → Registry AutoThrottleState
      → Registry AutoThrottleState × Result Download
  after_download self now status c reg = went_on (
      finish_request self now c
        (λ current latency ratio low high.
          if status == 429 || leb 500 status
          then error_delay current low high ratio
          else success_delay current latency (effective_target_concurrency self c) low high)
        reg)

  unfoldable pub download_error :
      AutoThrottle x.float.F
      → (now : ℕ) → Context x.float.F
      → Registry AutoThrottleState
      → Registry AutoThrottleState × Result Download
  download_error self now c reg = went_on (
      finish_request self now c
        (λ current latency ratio low high. error_delay current low high ratio) reg)

-- ===== src/Middleware/AutoThrottle.antt =====
-- src/middleware/auto_throttle.rs: a delay between the downloads of a bucket that follows the latency
-- of its responses and grows with its errors.
use kun.Prelude.{
  ℕ, ◌+◌, ◌-◌, ◌/◌, ◌%◌, ◌^◌, ◌==◌, ◌||◌, ◌&&◌, ltb, leb, max, min, Bool, true, false, not, String,
  Option, none, some, List, [], ◌∷◌, if◌then◌else◌,
}
use kun.Error.{SpiderError, Result, ok, err}
use kun.Scheduler.Task.{saturating_add}
use kun.Request.{MiddlewareOptions, middleware_options, middleware_skips}
use kun.Middleware.Flow.{Download, continue, delay, Context}
use kun.Middleware.Externals.{Externals}
use kun.Middleware.Bucket.{BucketConfig, bucket_from_options, resolve}
use kun.Middleware.Shared.{Registry, store, state_of, set_state, option_f64, effective_bucket}
pub mod Hooks
pub mod Backoff
mod Tests

pub record AutoThrottleState : Type 0 where
  pub delay : ℕ
  pub next_allowed_at : ℕ

-- `states` is the signature of the shared store.
pub record AutoThrottle (F : Type 0) : Type 0 where
  pub enabled : Bool
  pub target_concurrency : F
  pub start_interval : ℕ
  pub min_interval : ℕ
  pub max_interval : ℕ
  pub error_backoff_ratio : F
  pub bucket : BucketConfig
  pub states : String

unfoldable pub with_delay : ℕ → AutoThrottleState
with_delay d = record { delay = d; next_allowed_at = 0 }

-- `u64::clamp`, whose bounds the code keeps in order.
abbrev pub clamp : (value low high : ℕ) → ℕ
clamp value low high = if ltb value low then low else min value high

unfoldable pub current_delay : AutoThrottleState → (start_interval : ℕ) → ℕ
current_delay state start_interval = if state.delay == 0 then start_interval else state.delay

unfoldable pub set_delay :
    AutoThrottleState → (new_delay min_interval max_interval now : ℕ) → AutoThrottleState
set_delay state new_delay min_interval max_interval now =
    let d = clamp new_delay min_interval max_interval in
    record { delay = d; next_allowed_at = max state.next_allowed_at (saturating_add now d) }

-- The state of a bucket when a download asks to start, and the answer.
unfoldable pub start_slot :
    (start_interval now : ℕ) → AutoThrottleState → AutoThrottleState × Download
start_slot start_interval now state =
    if ltb now state.next_allowed_at
    then (state, delay "auto_throttle" (max (state.next_allowed_at - now) 1))
    else (
      record state { next_allowed_at = saturating_add now (current_delay state start_interval) },
      continue,
    )

-- The state of a bucket when a download has ended, with the next delay as a function of the last.
unfoldable pub finish_slot :
    (next_delay : ℕ → ℕ) (start_interval min_interval max_interval now : ℕ)
    → AutoThrottleState
    → AutoThrottleState
finish_slot next_delay start_interval min_interval max_interval now state =
    set_delay state (next_delay (current_delay state start_interval)) min_interval max_interval now

module _ (x : Externals) where
  unfoldable pub sanitize_non_negative : x.float.F → ℕ
  sanitize_non_negative value =
      x.float.to_u64 (x.float.round (x.float.max value (x.float.of_u64 0)))

  unfoldable pub sanitize_positive_f64 : (value fallback : x.float.F) → x.float.F
  sanitize_positive_f64 value fallback =
      if x.float.is_finite value && x.float.lt (x.float.of_u64 0) value then value else fallback

  -- An option read by `sanitize_non_negative`, and one read by `sanitize_positive_f64`.
  unfoldable pub interval_option : Option (MiddlewareOptions x.float.F) → String → ℕ → ℕ
  interval_option none name default = default
  interval_option (some options) name default = elim (option_f64 x options name) [
    | none ↦ default
    | some value ↦ sanitize_non_negative value
  ]

  unfoldable pub ratio_option :
      Option (MiddlewareOptions x.float.F) → String → (fallback default : x.float.F) → x.float.F
  ratio_option none name fallback default = default
  ratio_option (some options) name fallback default = elim (option_f64 x options name) [
    | none ↦ default
    | some value ↦ sanitize_positive_f64 value fallback
  ]

  unfoldable pub new_auto_throttle :
      MiddlewareOptions x.float.F
      → Registry AutoThrottleState
      → Registry AutoThrottleState × Result (AutoThrottle x.float.F)
  new_auto_throttle options reg = elim (bucket_from_options options "auto_throttle") [
    | err e ↦ (reg, err e)
    | ok bucket ↦ elim (x.options_json options) [
      | err e ↦ (reg, err e)
      | ok signature ↦
          let one = x.float.of_u64 1 in
          let two = x.float.of_u64 2 in
          let low = interval_option (some options) "min_interval" 0 in
          let high = max (interval_option (some options) "max_interval" 60000) low in
          (
            store signature reg,
            ok (record {
              enabled = elim options [ [] ↦ false | o ∷ os ↦ true ];
              target_concurrency = ratio_option (some options) "target_concurrency" one one;
              start_interval = clamp (interval_option (some options) "start_interval" 0) low high;
              min_interval = low;
              max_interval = high;
              error_backoff_ratio = ratio_option (some options) "error_backoff_ratio" two two;
              bucket = bucket;
              states = signature;
            }),
          )
    ]
  ]

-- ===== src/Middleware/Interval.antt =====
-- src/middleware/interval.rs: the least time between two downloads of a bucket.
use kun.Prelude.{ℕ, ◌-◌, ◌==◌, ltb, String, some, none, if◌then◌else◌, List, [], ◌∷◌}
use kun.Error.{Result, ok, err}
use kun.Scheduler.Task.{saturating_add}
use kun.Request.{MiddlewareOptions, middleware_skips}
use kun.Middleware.Flow.{Download, continue, delay, Context}
use kun.Middleware.Externals.{Externals}
use kun.Middleware.Bucket.{BucketConfig, bucket_from_options, resolve}
use kun.Middleware.Shared.{
  Registry, store, state_of, set_state, effective_u64, configured_u64, effective_bucket,
}
pub mod Spacing

-- `states` is the signature of the shared store; a state is `next_allowed_at`.
pub record Interval : Type 0 where
  pub interval : ℕ
  pub bucket : BucketConfig
  pub states : String

-- The state of one bucket, after a call at `now`, and the answer.
unfoldable pub next_slot : ℕ → ℕ → ℕ → ℕ × Download
next_slot interval now next_allowed_at =
    if ltb now next_allowed_at
    then (next_allowed_at, delay "interval" (next_allowed_at - now))
    else (saturating_add now interval, continue)

module _ (x : Externals) where
  unfoldable pub new_interval :
      MiddlewareOptions x.float.F → Registry ℕ → Registry ℕ × Result Interval
  new_interval options reg = elim (bucket_from_options options "interval") [
    | err e ↦ (reg, err e)
    | ok bucket ↦ elim (x.options_json options) [
      | err e ↦ (reg, err e)
      | ok signature ↦ (
        store signature reg,
        ok (record {
          interval = configured_u64 x options "interval";
          bucket = bucket;
          states = signature;
        }),
      )
    ]
  ]

  unfoldable pub effective_interval : Interval → Context x.float.F → ℕ
  effective_interval self c = effective_u64 x "interval" "interval" self.interval c

  unfoldable pub before_download :
      Interval → ℕ → Context x.float.F → Registry ℕ → Registry ℕ × Result Download
  before_download self now c reg =
      if middleware_skips c.request "interval"
      then (reg, ok continue)
      else if effective_interval self c == 0
      then (reg, ok continue)
      else elim (effective_bucket x "interval" self.bucket c) [
        | err e ↦ (reg, err e)
        | ok bucket ↦
            let key = resolve x bucket c.spider_name c.request in
            let (next, flow) =
              next_slot (effective_interval self c) now (state_of 0 self.states key reg) in
            (set_state self.states key next reg, ok flow)
      ]

-- ===== src/Middleware/RateLimit.antt =====
-- src/middleware/rate_limit.rs: at most so many downloads of a bucket in a sliding minute.
use kun.Prelude.{
  ℕ, ◌+◌, ◌-◌, ◌==◌, max, ltb, leb, String, List, [], ◌∷◌, ◌++◌, length, Option, none, some,
  if◌then◌else◌,
}
use kun.Error.{Result, ok, err}
use kun.Scheduler.Task.{saturating_add}
use kun.Request.{MiddlewareOptions, middleware_skips}
use kun.Middleware.Flow.{Download, continue, delay, Context}
use kun.Middleware.Externals.{Externals}
use kun.Middleware.Bucket.{BucketConfig, bucket_from_options, resolve}
use kun.Middleware.Shared.{
  Registry, store, state_of, set_state, effective_u64, configured_u64, effective_bucket,
}
pub mod Window

-- `states` is the signature of the shared store.
pub record RateLimit : Type 0 where
  pub rate_per_minute : ℕ
  pub bucket : BucketConfig
  pub states : String

-- The loop at the front of the queue: hits before the window are dropped.
unfoldable pub expire : ℕ → List ℕ → List ℕ
expire window_start [] = []
expire window_start (h ∷ hs) = if ltb h window_start then expire window_start hs else h ∷ hs

abbrev front_or : ℕ → List ℕ → ℕ
front_or d [] = d
front_or d (h ∷ hs) = h

-- The state of one bucket, after a call at `now`, and the answer.
unfoldable pub admit : ℕ → ℕ → List ℕ → List ℕ × Download
unfolding expire
admit rate now hits =
    let live = expire (now - 60000) hits in
    if leb rate (length live)
    then (live, delay "rate_limit" (max (saturating_add (front_or now live) 60000 - now) 1))
    else (live ++ now ∷ [], continue)

module _ (x : Externals) where
  unfoldable pub new_rate_limit :
      MiddlewareOptions x.float.F → Registry (List ℕ) → Registry (List ℕ) × Result RateLimit
  new_rate_limit options reg = elim (bucket_from_options options "rate_limit") [
    | err e ↦ (reg, err e)
    | ok bucket ↦ elim (x.options_json options) [
      | err e ↦ (reg, err e)
      | ok signature ↦ (
        store signature reg,
        ok (record {
          rate_per_minute = configured_u64 x options "rate_per_minute";
          bucket = bucket;
          states = signature;
        }),
      )
    ]
  ]

  unfoldable pub effective_rate : RateLimit → Context x.float.F → ℕ
  effective_rate self c = effective_u64 x "rate_limit" "rate_per_minute" self.rate_per_minute c

  unfoldable pub before_download :
      RateLimit → ℕ → Context x.float.F → Registry (List ℕ) → Registry (List ℕ) × Result Download
  before_download self now c reg =
      if middleware_skips c.request "rate_limit"
      then (reg, ok continue)
      else if effective_rate self c == 0
      then (reg, ok continue)
      else elim (effective_bucket x "rate_limit" self.bucket c) [
        | err e ↦ (reg, err e)
        | ok bucket ↦
            let key = resolve x bucket c.spider_name c.request in
            let (hits, flow) =
              admit (effective_rate self c) now (state_of [] self.states key reg) in
            (set_state self.states key hits reg, ok flow)
      ]

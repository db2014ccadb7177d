-- ===== src/Middleware/Shared.antt =====
-- The states that the middleware share: a registry of stores under the signature of their options,
-- each a map from bucket keys (the `SharedRegistry` of src/middleware/rate_limit.rs, concurrency.rs,
-- interval.rs and auto_throttle.rs), and the reading of numeric options. No lock is ever poisoned.
use kun.Prelude.{ℕ, ◌≡◌, String, Option, none, some, [], ◌≢◌, ap, ◌∙◌}
use kun.Prelude.Map
use kun.Prelude.Map.{Map}
use kun.Error.{Result, ok}
use kun.Value.{as_f64}
use kun.Request.{MiddlewareOptions, middleware_options}
use kun.Middleware.Flow.{Context}
use kun.Middleware.Externals.{Externals}
use kun.Middleware.Bucket.{BucketConfig, bucket_from_options}

abbrev pub Registry {ℓ} : Type ℓ → Type ℓ
Registry A = Map (Map A)

module _ {ℓ} {A : Type ℓ} where
  -- `stores.entry(signature).or_insert_with(..)`: the store is made if it is not there.
  unfoldable pub store : String → Registry A → Registry A
  store signature reg = Map.insert signature (Map.lookup_or [] signature reg) reg

  -- The state of a bucket in a store, and the registry with another one.
  unfoldable pub state_of : A → String → String → Registry A → A
  state_of default signature key reg = Map.lookup_or default key (Map.lookup_or [] signature reg)

  unfoldable pub set_state : String → String → A → Registry A → Registry A
  set_state signature key a reg =
      Map.insert signature (Map.insert key a (Map.lookup_or [] signature reg)) reg

  pub state_of-set_state_self :
      (d : A) (signature key : String) (a : A) (reg : Registry A)
      → state_of d signature key (set_state signature key a reg) ≡ a
  unfolding state_of set_state
  state_of-set_state_self d signature key a reg =
      ap (Map.lookup_or d key) (Map.lookup_or-insert_self [] signature _ reg)
      ∙ Map.lookup_or-insert_self d key a (Map.lookup_or [] signature reg)

  pub state_of-set_state_ne :
      (d : A) (signature key other : String) (a : A) (reg : Registry A)
      → key ≢ other
      → state_of d signature other (set_state signature key a reg) ≡ state_of d signature other reg
  unfolding state_of set_state
  state_of-set_state_ne d signature key other a reg h =
      ap (Map.lookup_or d other) (Map.lookup_or-insert_self [] signature _ reg)
      ∙ Map.lookup_or-insert_ne d key other a (Map.lookup_or [] signature reg) h

module _ (x : Externals) where
  -- `options.get(name).and_then(Value::as_f64)`.
  unfoldable pub option_f64 : MiddlewareOptions x.float.F → String → Option x.float.F
  option_f64 options name = elim (Map.lookup name options) [ none ↦ none | some v ↦ as_f64 v ]

  -- The request's own option, or the middleware's number, as an integer.
  unfoldable pub effective_u64 : String → String → ℕ → Context x.float.F → ℕ
  effective_u64 middleware name own c =
      let found : Option x.float.F = elim (middleware_options c.request middleware) [
        | none ↦ none
        | some options ↦ option_f64 options name
      ] in
      x.float.to_u64 (elim found [ none ↦ x.float.of_u64 own | some v ↦ v ])

  -- The number of an option of the middleware itself, 0 by default.
  unfoldable pub configured_u64 : MiddlewareOptions x.float.F → String → ℕ
  configured_u64 options name = elim (option_f64 options name) [
    | none ↦ x.float.to_u64 (x.float.of_u64 0)
    | some v ↦ x.float.to_u64 v
  ]

  unfoldable pub effective_bucket : String → BucketConfig → Context x.float.F → Result BucketConfig
  effective_bucket middleware own c = elim (middleware_options c.request middleware) [
    | none ↦ ok own
    | some options ↦ bucket_from_options options middleware
  ]

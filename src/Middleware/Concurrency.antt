-- ===== src/Middleware/Concurrency.antt =====
-- src/middleware/concurrency.rs: at most so many downloads of a bucket at a time. A request that holds
-- a slot is marked in its metadata.
use kun.Prelude.{
  ℕ, ◌+◌, ◌-◌, ◌==◌, leb, Bool, true, false, String, List, [], ◌∷◌, none, some, if◌then◌else◌,
}
use kun.Prelude.Map
use kun.Prelude.Map.{Map}
use kun.Error.{Result, ok, err}
use kun.Value.{Value, boolean, as_bool}
use kun.Request.{Request, MiddlewareOptions, middleware_skips}
use kun.Middleware.Flow.{Download, continue, delay, Context}
use kun.Middleware.Externals.{Externals}
use kun.Middleware.Bucket.{BucketConfig, bucket_from_options, resolve}
use kun.Middleware.Shared.{
  Registry, store, state_of, set_state, effective_u64, configured_u64, effective_bucket,
}
pub mod Slots
pub mod Bounds
pub mod Trip

-- `states` is the signature of the shared store; a state is the number of downloads inflight.
pub record Concurrency : Type 0 where
  pub limit : ℕ
  pub bucket : BucketConfig
  pub states : String

abbrev pub slot_key : String
slot_key = "_concurrency_slot"

module _ {F : Type 0} where
  abbrev pub with_meta : Context F → Map (Value F) → Context F
  with_meta c meta = record c { request = record c.request { meta = meta } }

  -- The metadata says that the request holds a slot.
  unfoldable pub acquired : Context F → Bool
  acquired c = elim (Map.lookup slot_key c.request.meta) [
    | none ↦ false
    | some v ↦ elim (as_bool v) [ none ↦ false | some b ↦ b ]
  ]

  unfoldable pub unmarked : Context F → Context F
  unmarked c = with_meta c (Map.remove slot_key c.request.meta)

  unfoldable pub marked : Context F → Context F
  marked c = with_meta c (Map.insert slot_key (boolean true) c.request.meta)

-- `saturating_sub` on the state of a bucket that is there.
unfoldable pub decrement : String → String → Registry ℕ → Registry ℕ
decrement states key reg = elim (Map.lookup key (Map.lookup_or [] states reg)) [
  | none ↦ reg
  | some inflight ↦ set_state states key (inflight - 1) reg
]

module _ (x : Externals) where
  unfoldable pub new_concurrency :
      MiddlewareOptions x.float.F → Registry ℕ → Registry ℕ × Result Concurrency
  new_concurrency options reg = elim (bucket_from_options options "concurrency") [
    | err e ↦ (reg, err e)
    | ok bucket ↦ elim (x.options_json options) [
      | err e ↦ (reg, err e)
      | ok signature ↦ (
        store signature reg,
        ok (record {
          limit = configured_u64 x options "concurrency";
          bucket = bucket;
          states = signature;
        }),
      )
    ]
  ]

  unfoldable pub effective_limit : Concurrency → Context x.float.F → ℕ
  effective_limit self c = effective_u64 x "concurrency" "concurrency" self.limit c

  -- The context and the states after the call, and its result.
  unfoldable pub release_slot :
      Concurrency
      → Context x.float.F
      → Registry ℕ
      → Context x.float.F × Registry ℕ × Result (Unit {0})
  release_slot self c reg =
      if acquired c
      then elim (effective_bucket x "concurrency" self.bucket (unmarked c)) [
        | err e ↦ (unmarked c, reg, err e)
        | ok bucket ↦
            let key = resolve x bucket c.spider_name (unmarked c).request in
            (unmarked c, decrement self.states key reg, ok tt)
      ]
      else (unmarked c, reg, ok tt)

  -- The part of `before_download` under the lock of the states.
  unfoldable pub take_slot :
      ℕ
      → String
      → String
      → Context x.float.F
      → Registry ℕ
      → Context x.float.F × Registry ℕ × Result Download
  take_slot limit states key c reg =
      let inflight = state_of 0 states key reg in
      if leb limit inflight
      then (c, set_state states key inflight reg, ok (delay "concurrency" 1))
      else (marked c, set_state states key (inflight + 1) reg, ok continue)

  unfoldable pub before_download :
      Concurrency
      → Context x.float.F
      → Registry ℕ
      → Context x.float.F × Registry ℕ × Result Download
  before_download self c reg =
      if middleware_skips c.request "concurrency"
      then (c, reg, ok continue)
      else if effective_limit self c == 0
      then (c, reg, ok continue)
      else elim (effective_bucket x "concurrency" self.bucket c) [
        | err e ↦ (c, reg, err e)
        | ok bucket ↦
            take_slot (effective_limit self c) self.states
              (resolve x bucket c.spider_name c.request) c reg
      ]

  -- `after_download` and `download_error` have this body.
  unfoldable pub after_download :
      Concurrency
      → Context x.float.F
      → Registry ℕ
      → Context x.float.F × Registry ℕ × Result Download
  after_download self c reg =
      let (c', reg', released) = release_slot self c reg in
      elim released [ err e ↦ (c', reg', err e) | ok u ↦ (c', reg', ok continue) ]

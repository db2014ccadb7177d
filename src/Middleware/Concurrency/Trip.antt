-- ===== src/Middleware/Concurrency/Trip.antt =====
-- src/middleware/concurrency.rs: a download gives back what it took.
use kun.Prelude.{
  ◌⊎◌, ℕ, ◌+◌, ◌==◌, ◌≡◌, refl, ap, leb, true, false, Bool-cases, inl, inr, String, none, arith,
  eq_iff,
}
use kun.Prelude.Map
use kun.Prelude.Map.{Map}
use kun.Error.{Result-cases, ok}
use kun.Value.{boolean, as_bool}
use kun.Request.{middleware_skips}
use kun.Middleware.Flow.{continue, Context}
use kun.Middleware.Externals.{Externals}
use kun.Middleware.Bucket.{BucketConfig, resolve}
use kun.Middleware.Shared.{Registry, state_of, set_state, effective_bucket}
use kun.Middleware.Concurrency.{
  Concurrency, slot_key, with_meta, acquired, marked, unmarked, decrement, effective_limit,
  release_slot, take_slot, before_download, after_download,
}
use kun.Middleware.Concurrency.Slots.{
  state_of-set_state, decrement_state, remove_absent, remove-insert,
}

module _ (x : Externals) where
  -- What a call of `before_download` did, when it let the download continue.
  abbrev Took :
      Concurrency → Context x.float.F → Registry ℕ → Context x.float.F → Registry ℕ → Type 0
  Took self c reg c1 reg1 =
      ((c1 ≡ c) × (reg1 ≡ reg))
      ⊎ ((bucket : BucketConfig) × (effective_bucket x "concurrency" self.bucket c ≡ ok bucket)
          × (c1 ≡ marked c)
          × (reg1
              ≡ set_state self.states (resolve x bucket c.spider_name c.request)
                  (state_of 0 self.states (resolve x bucket c.spider_name c.request) reg + 1) reg))

  before_download-Took :
      (self : Concurrency) (c c1 : Context x.float.F) (reg reg1 : Registry ℕ)
      → before_download x self c reg ≡ (c1, reg1, ok continue)
      → Took self c reg c1 reg1
  unfolding before_download take_slot
  before_download-Took self c c1 reg reg1 h =
      elim (Result-cases (effective_bucket x "concurrency" self.bucket c)) [
        | inl (e, failed) ↦ inl (ground arith, ground arith)
        | inr (bucket, good) ↦
            let key = resolve x bucket c.spider_name c.request in
            elim (Bool-cases (middleware_skips c.request "concurrency")) [
              | inl skipped ↦ inl (ground arith, ground arith)
              | inr on ↦ elim (Bool-cases (effective_limit x self c == 0)) [
                | inl zero ↦ inl (ground arith, ground arith)
                | inr limited ↦
                    elim (Bool-cases
                      (leb (effective_limit x self c) (state_of 0 self.states key reg))) [
                        | inl full ↦ absurd (ground arith)
                        | inr room ↦ inr (bucket, good, ground arith, ground arith)
                      ]
              ]
            ]
      ]

  unmarked-marked :
      (c : Context x.float.F) → Map.lookup slot_key c.request.meta ≡ none → unmarked (marked c) ≡ c
  unfolding unmarked marked
  unmarked-marked c fresh =
      ap (with_meta c) (remove-insert slot_key (boolean true) c.request.meta fresh)

  acquired-marked : (c : Context x.float.F) → acquired (marked c) ≡ true
  unfolding acquired marked as_bool
  acquired-marked c =
      rw (Map.lookup-insert_self slot_key (boolean true) c.request.meta, acquired) refl

  spider_name-marked : (c : Context x.float.F) → (marked c).spider_name ≡ c.spider_name
  unfolding marked
  spider_name-marked c = refl

  finished :
      (self : Concurrency) (c c' : Context x.float.F) (reg reg' : Registry ℕ)
      → release_slot x self c reg ≡ (c', reg', ok tt)
      → after_download x self c reg ≡ (c', reg', ok continue)
  unfolding after_download
  finished self c c' reg reg' h = ground arith

  acquired-fresh :
      (c : Context x.float.F) → Map.lookup slot_key c.request.meta ≡ none → acquired c ≡ false
  unfolding acquired
  acquired-fresh c fresh = rw (fresh, acquired) refl

  unmarked-fresh :
      (c : Context x.float.F) → Map.lookup slot_key c.request.meta ≡ none → unmarked c ≡ c
  unfolding unmarked
  unmarked-fresh c fresh = ap (with_meta c) (remove_absent slot_key c.request.meta fresh)

  ends_free :
      (self : Concurrency) (c : Context x.float.F) (reg : Registry ℕ)
      → Map.lookup slot_key c.request.meta ≡ none
      → release_slot x self c reg ≡ (c, reg, ok tt)
  unfolding release_slot
  ends_free self c reg fresh =
      rw (acquired-fresh c fresh, release_slot) (ap (λ d. (d, reg, ok tt)) (unmarked-fresh c fresh))

  released :
      (self : Concurrency) (c c1 : Context x.float.F) (reg : Registry ℕ) (bucket : BucketConfig)
      → acquired c1 ≡ true
      → unmarked c1 ≡ c
      → c1.spider_name ≡ c.spider_name
      → effective_bucket x "concurrency" self.bucket c ≡ ok bucket
      → release_slot x self c1 reg
        ≡ (c, decrement self.states (resolve x bucket c.spider_name c.request) reg, ok tt)
  unfolding release_slot
  released self c c1 reg bucket held same name good = ground arith

  ends_marked :
      (self : Concurrency) (c : Context x.float.F) (reg : Registry ℕ) (bucket : BucketConfig)
      → Map.lookup slot_key c.request.meta ≡ none
      → effective_bucket x "concurrency" self.bucket c ≡ ok bucket
      → release_slot x self (marked c) reg
        ≡ (c, decrement self.states (resolve x bucket c.spider_name c.request) reg, ok tt)
  ends_marked self c reg bucket fresh good =
      released self c (marked c) reg bucket (acquired-marked c) (unmarked-marked c fresh)
        (spider_name-marked c) good

  -- A download gives back what it took: when `before_download` lets a request without the mark
  -- continue, `after_download` in the context that it left succeeds, restores the context, and
  -- every bucket of every store has its number of downloads from before.
  pub after_download-before_download :
      (self : Concurrency) (c c1 : Context x.float.F) (reg reg1 : Registry ℕ)
      → Map.lookup slot_key c.request.meta ≡ none
      → before_download x self c reg ≡ (c1, reg1, ok continue)
      → (reg2 : Registry ℕ) × (after_download x self c1 reg1 ≡ (c, reg2, ok continue))
        × ((signature key : String) → state_of 0 signature key reg2 ≡ state_of 0 signature key reg)
  after_download-before_download self c c1 reg reg1 fresh h =
      elim (before_download-Took self c c1 reg reg1 h) [
        | inl (same, states) ↦ (
          reg,
          rw (same, states) (finished self c c reg reg (ends_free self c reg fresh)),
          λ s k. refl,
        )
        | inr (bucket, good, mark, states) ↦
            let key = resolve x bucket c.spider_name c.request in
            (
              decrement self.states key reg1,
              rw mark (
                  finished self (marked c) c reg1 (decrement self.states key reg1)
                    (ends_marked self c reg1 bucket fresh good)),
              λ s k. ground (
                arith,
                decrement_state self.states key s k reg1,
                state_of-set_state self.states s key k (state_of 0 self.states key reg + 1) reg,
                eq_iff self.states s,
                eq_iff key k,
              ),
            )
      ]

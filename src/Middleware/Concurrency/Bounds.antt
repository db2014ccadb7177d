-- ===== src/Middleware/Concurrency/Bounds.antt =====
-- src/middleware/concurrency.rs: the limit holds in every history of hooks.
use kun.Prelude.{
  ℕ, ◌+◌, ◌≤◌, ◌==◌, ◌≡◌, refl, Bool-cases, inl, inr, String, List, [], ◌∷◌, All, arith,
}
use kun.Error.{Result-cases}
use kun.Request.{middleware_skips}
use kun.Middleware.Flow.{Context}
use kun.Middleware.Externals.{Externals}
use kun.Middleware.Bucket.{resolve}
use kun.Middleware.Shared.{Registry, state_of, effective_bucket}
use kun.Middleware.Concurrency.{
  Concurrency, acquired, unmarked, decrement, effective_limit, release_slot, take_slot,
  before_download, after_download,
}
use kun.Middleware.Concurrency.Slots.{state_of-set_state, decrement_state}

pub data Hook (F : Type 0) : Type 0 where
  starts : Concurrency → Context F → Hook F
  ends : Concurrency → Context F → Hook F

-- Every bucket of every store has at most so many downloads inflight.
abbrev pub Within : ℕ → Registry ℕ → Type 0
Within limit reg = (signature key : String) → state_of 0 signature key reg ≤ limit

module _ (x : Externals) where
  take_slot-Within :
      (limit : ℕ) (most : ℕ) (states key : String) (c : Context x.float.F) (reg : Registry ℕ)
      → limit ≤ most
      → Within most reg
      → Within most (take_slot x limit states key c reg).1
  unfolding take_slot
  take_slot-Within limit most states key c reg h within signature' key' = ground (
    arith,
    within signature' key',
    within states key,
    state_of-set_state states signature' key key' (state_of 0 states key reg) reg,
    state_of-set_state states signature' key key' (state_of 0 states key reg + 1) reg,
  )

  before_download-Within :
      (self : Concurrency) (most : ℕ) (c : Context x.float.F) (reg : Registry ℕ)
      → effective_limit x self c ≤ most
      → Within most reg
      → Within most (before_download x self c reg).1
  unfolding before_download
  before_download-Within self most c reg h within =
      elim (Bool-cases (middleware_skips c.request "concurrency")) [
        | inl skipped ↦ rw (skipped, before_download) within
        | inr on ↦ elim (Bool-cases (effective_limit x self c == 0)) [
          | inl zero ↦ rw (on, zero, before_download) within
          | inr limited ↦ elim (Result-cases (effective_bucket x "concurrency" self.bucket c)) [
            | inl (e, failed) ↦ rw (on, limited, failed, before_download) within
            | inr (bucket, good) ↦
                rw (on, limited, good, before_download)
                  (take_slot-Within (effective_limit x self c) most self.states
                    (resolve x bucket c.spider_name c.request) c reg h within)
          ]
        ]
      ]

  decrement-Within :
      (most : ℕ) (states key : String) (reg : Registry ℕ)
      → Within most reg
      → Within most (decrement states key reg)
  decrement-Within most states key reg within signature' key' =
      ground (arith, within signature' key', decrement_state states key signature' key' reg)

  release_slot-Within :
      (self : Concurrency) (most : ℕ) (c : Context x.float.F) (reg : Registry ℕ)
      → Within most reg
      → Within most (release_slot x self c reg).1
  unfolding release_slot
  release_slot-Within self most c reg within = elim (Bool-cases (acquired c)) [
    | inl held ↦ elim (Result-cases (effective_bucket x "concurrency" self.bucket (unmarked c))) [
      | inl (e, failed) ↦ rw (held, failed, release_slot) within
      | inr (bucket, good) ↦
          rw (held, good, release_slot)
            (decrement-Within most self.states (resolve x bucket c.spider_name (unmarked c).request)
              reg within)
    ]
    | inr free ↦ rw (free, release_slot) within
  ]

  after_download-states :
      (self : Concurrency) (c : Context x.float.F) (reg : Registry ℕ)
      → (after_download x self c reg).1 ≡ (release_slot x self c reg).1
  unfolding after_download
  after_download-states self c reg = elim (Result-cases (release_slot x self c reg).2) [
    | inl (e, failed) ↦ rw (failed, after_download) refl
    | inr (u, good) ↦ rw (good, after_download) refl
  ]

  -- The states after a hook.
  pub hook_states : Hook x.float.F → Registry ℕ → Registry ℕ
  hook_states (starts self c) reg = (before_download x self c reg).1
  hook_states (ends self c) reg = (after_download x self c reg).1

  pub hooks_states : List (Hook x.float.F) → Registry ℕ → Registry ℕ
  unfolding hook_states
  hooks_states [] reg = reg
  hooks_states (h ∷ hs) reg = hooks_states hs (hook_states h reg)

  -- The limit that a hook applies.
  abbrev pub limit_of : Hook x.float.F → ℕ
  limit_of (starts self c) = effective_limit x self c
  limit_of (ends self c) = 0

  -- In every history of hooks, of any instances on any requests, no bucket of any store comes to
  -- have more downloads inflight than the largest limit that a hook of the history applies, when
  -- none had more at its start.
  pub hooks_states-Within :
      (most : ℕ) (hooks : List (Hook x.float.F)) (reg : Registry ℕ)
      → All (λ h. limit_of h ≤ most) hooks
      → Within most reg
      → Within most (hooks_states hooks reg)
  unfolding hooks_states hook_states
  hooks_states-Within most [] reg h within = within
  hooks_states-Within most (starts self c ∷ hooks) reg (small, h) within =
      hooks_states-Within most hooks (before_download x self c reg).1 h
        (before_download-Within self most c reg small within)
  hooks_states-Within most (ends self c ∷ hooks) reg (small, h) within =
      hooks_states-Within most hooks (after_download x self c reg).1 h
        (rw (after_download-states self c reg) (release_slot-Within self most c reg within))

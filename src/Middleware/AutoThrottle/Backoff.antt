-- ===== src/Middleware/AutoThrottle/Backoff.antt =====
-- src/middleware/auto_throttle.rs: what a download that ended promises of the next one is kept.
use kun.Prelude.{
  ℕ, ◌+◌, ◌-◌, ◌^◌, ◌≤◌, ◌<◌, ◌≡◌, ltb, max, List, [], ◌∷◌, All, arith, Bool-cases, inl, inr,
}
use kun.Middleware.Flow.{delay}
use kun.Middleware.AutoThrottle.{
  AutoThrottleState, start_slot, finish_slot, set_delay, current_delay,
}

-- The calls of a bucket: the start of a download, and its end, at a time.
pub data Call : Type 0 where
  starts : (start_interval now : ℕ) → Call
  ends : (next_delay : ℕ → ℕ) (start_interval min_interval max_interval now : ℕ) → Call

abbrev pub time_of : Call → ℕ
time_of (starts start_interval now) = now
time_of (ends next_delay start_interval min_interval max_interval now) = now

unfoldable pub after_calls : List Call → AutoThrottleState → AutoThrottleState
after_calls [] state = state
after_calls (starts start_interval now ∷ calls) state =
    after_calls calls (start_slot start_interval now state).0
after_calls (ends next_delay start_interval min_interval max_interval now ∷ calls) state =
    after_calls calls (finish_slot next_delay start_interval min_interval max_interval now state)

-- No call takes a promise back.
after_calls_later :
    (calls : List Call) (promised : ℕ) (state : AutoThrottleState)
    → promised ≤ state.next_allowed_at
    → promised < 2 ^ 64
    → All (λ c. time_of c < 2 ^ 64) calls
    → promised ≤ (after_calls calls state).next_allowed_at
unfolding after_calls start_slot finish_slot set_delay
after_calls_later [] promised state h small times = h
after_calls_later (starts start_interval now ∷ calls) promised state h small (time, times) =
    after_calls_later calls promised (start_slot start_interval now state).0 (ground arith) small
      times
after_calls_later (ends next_delay start_interval low high now ∷ calls) promised state h small
      (time, times) =
    after_calls_later calls promised (finish_slot next_delay start_interval low high now state)
      (ground arith) small times

start_slot_early :
    (start_interval now : ℕ) (state : AutoThrottleState)
    → now < state.next_allowed_at
    → (start_slot start_interval now state).1
      ≡ delay "auto_throttle" (max (state.next_allowed_at - now) 1)
unfolding start_slot
start_slot_early start_interval now state early = ground arith

finish_slot_promise :
    (next_delay : ℕ → ℕ) (start_interval min_interval max_interval finished : ℕ)
    (state : AutoThrottleState)
    → min_interval ≤ max_interval
    → finished + min_interval < 2 ^ 64
    → finished + min_interval
      ≤ (finish_slot next_delay start_interval min_interval max_interval finished
          state).next_allowed_at
unfolding finish_slot set_delay
finish_slot_promise next_delay start_interval low high finished state ordered small =
    let asked = next_delay (current_delay state start_interval) in
    elim (Bool-cases (ltb asked low)) [
      | inl under ↦ rw (under) (omega arith)
      | inr over ↦ rw (over) (let enough : low ≤ asked = ground arith in omega arith)
    ]

-- When a download of a bucket has ended, no download of that bucket starts before the least interval is
-- over, whatever other downloads of the bucket started and ended in between, and whatever their own
-- intervals: the answer is a delay that reaches to the end of that interval. The clock and its sum with
-- the interval are below 2^64.
pub holds_back :
    (next_delay : ℕ → ℕ) (start_interval min_interval max_interval finished : ℕ)
    (state : AutoThrottleState) (calls : List Call) (start_interval' now : ℕ)
    → min_interval ≤ max_interval
    → finished + min_interval < 2 ^ 64
    → All (λ c. time_of c < 2 ^ 64) calls
    → now < finished + min_interval
    → (millis : ℕ) × ((start_slot start_interval' now (
          after_calls calls
            (finish_slot next_delay start_interval min_interval max_interval finished state))).1
        ≡ delay "auto_throttle" millis)
      × (finished + min_interval ≤ now + millis)
holds_back next_delay start_interval low high finished state calls start_interval' now ordered small
      times early =
    let ended = finish_slot next_delay start_interval low high finished state in
    let allowed = (after_calls calls ended).next_allowed_at in
    let kept : finished + low ≤ allowed =
      after_calls_later calls (finished + low) ended
        (finish_slot_promise next_delay start_interval low high finished state ordered small) small
        times in
    (
      max (allowed - now) 1,
      start_slot_early start_interval' now (after_calls calls ended) (omega arith),
      omega arith,
    )

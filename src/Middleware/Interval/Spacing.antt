-- ===== src/Middleware/Interval/Spacing.antt =====
-- src/middleware/interval.rs: the downloads of one bucket keep their distance, and a delay is right.
use kun.Prelude.{
  ℕ, min, ◌↔◌, ◌+◌, ◌-◌, ◌^◌, ◌≤◌, ◌<◌, ◌≡◌, ltb, List, [], ◌∷◌, All, arith, if◌then◌else◌, String,
  Bool-cases, inl, inr,
}
use kun.Middleware.Flow.{continue, delay}
use kun.Middleware.RateLimit.Window.{is_admitted}
use kun.Middleware.Interval.{next_slot}

-- The downloads that are admitted when the bucket is called at each of the times.
unfoldable pub spaced : ℕ → List ℕ → ℕ → List ℕ
unfolding next_slot
spaced interval [] next = []
spaced interval (now ∷ times) next =
    let (next', flow) = next_slot interval now next in
    let rest = spaced interval times next' in if is_admitted flow then now ∷ rest else rest

-- Each time is at least the interval after the one before it, and the first not before `t`.
abbrev pub Apart : ℕ → ℕ → List ℕ → Type 0
Apart interval t [] = Unit
Apart interval t (u ∷ us) = (t ≤ u) × Apart interval (u + interval) us

-- While the clock and the interval stay below 2^64 together, the admitted downloads of a bucket are
-- at least the interval apart, and none is before the time that the bucket allows.
pub spaced-Apart :
    (interval : ℕ) (times : List ℕ) (next : ℕ)
    → All (λ t. t + interval < 2 ^ 64) times
    → Apart interval next (spaced interval times next)
unfolding spaced next_slot
spaced-Apart interval [] next h = tt
spaced-Apart interval (now ∷ times) next (small, h) = elim (Bool-cases (ltb now next)) [
  | inl early ↦ rw (early, spaced) (spaced-Apart interval times next h)
  | inr late ↦
      let exact : min (now + interval) (2 ^ 64 - 1) ≡ now + interval = omega arith in
      let rest = spaced-Apart interval times (now + interval) h in
      rw (late, spaced, exact) (ground arith, rest)
]

-- The delay of a refused call is exact: a call that comes this much later is admitted, when no other
-- download of the bucket was admitted in between, and none that comes earlier is.
pub delay_exact :
    (interval interval' now next millis next' : ℕ) (reason : String) (wait : ℕ)
    → next_slot interval now next ≡ (next', delay reason millis)
    → (next' ≡ next) × ((next_slot interval' (now + wait) next').1 ≡ continue ↔ (millis ≤ wait))
unfolding next_slot
delay_exact interval interval' now next millis next' reason wait h =
    (ground arith, (λ e. ground arith, λ e. ground arith))

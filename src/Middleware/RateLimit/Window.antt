-- ===== src/Middleware/RateLimit/Window.antt =====
-- src/middleware/rate_limit.rs: the bound on every window of a minute, for the downloads of one
-- bucket at one rate.
use kun.Prelude.{
  ℕ, suc, ◌+◌, ◌-◌, ◌≤◌, ◌<◌, ◌≡◌, refl, Bool, true, false, ◌&&◌, List, [], ◌∷◌, ◌++◌, length,
  count, count-append, count-le-length, leb, Bool-cases, inl, inr, if◌then◌else◌, arith,
}
use kun.Middleware.Flow.{Download, continue, drop, delay, retry}
use kun.Middleware.RateLimit.{expire, admit}

abbrev pub is_admitted : Download → Bool
is_admitted continue = true
is_admitted (drop r) = false
is_admitted (delay r m) = false
is_admitted (retry r b) = false

-- The downloads that are admitted when the bucket is called at each of the times.
unfoldable pub admitted : ℕ → List ℕ → List ℕ → List ℕ
unfolding admit
admitted rate [] hits = []
admitted rate (now ∷ times) hits =
    let (hits', flow) = admit rate now hits in
    let rest = admitted rate times hits' in if is_admitted flow then now ∷ rest else rest

-- The times do not fall, from `t` on.
abbrev pub Ascending : ℕ → List ℕ → Type 0
Ascending t [] = Unit
Ascending t (u ∷ us) = (t ≤ u) × Ascending u us

abbrev pub in_minute : ℕ → ℕ → Bool
in_minute s a = leb s a && leb a (s + 60000)

count-expire :
    (w v : ℕ) (hits : List ℕ) → w ≤ v → count (leb v) (expire w hits) ≡ count (leb v) hits
unfolding expire
count-expire w v [] h = refl
count-expire w v (a ∷ hits) h = ground (arith, count-expire w v hits h)

-- A call that is answered by a delay leaves the window as it is.
stays :
    (s now last c : ℕ) (hits : List ℕ)
    → last ≤ now
    → (last ≤ s + 60000 → c ≤ count (leb s) hits)
    → now ≤ s + 60000
    → c ≤ count (leb s) (expire (now - 60000) hits)
stays s now last c hits later h near = ground (arith, h, count-expire (now - 60000) s hits)

-- An admitted call inside of the window finds room in it.
enters :
    (s now last c rate : ℕ) (hits : List ℕ)
    → last ≤ now
    → (last ≤ s + 60000 → c ≤ count (leb s) hits)
    → now ≤ s + 60000
    → length (expire (now - 60000) hits) < rate
    → suc c ≤ rate
enters s now last c rate hits later h near room =
    let inside = stays s now last c hits later h near in
    let short = count-le-length (leb s) (expire (now - 60000) hits) in omega arith

-- `c` of the downloads so far are in the window from `s` on.
admitted_within :
    (s rate : ℕ) (times hits : List ℕ) (last c : ℕ)
    → Ascending last times
    → c ≤ rate
    → (last ≤ s + 60000 → c ≤ count (leb s) hits)
    → c + count (in_minute s) (admitted rate times hits) ≤ rate
unfolding admitted admit
admitted_within s rate [] hits last c asc small h = omega arith
admitted_within s rate (now ∷ times) hits last c (later, asc) small h =
    let live = expire (now - 60000) hits in
    let pushed = count-append (leb s) live (now ∷ []) in
    let inside : now ≤ s + 60000 → c ≤ count (leb s) live = stays s now last c hits later h in
    elim (Bool-cases (leb rate (length live))) [
      | inl full ↦ rw (full, admitted) (admitted_within s rate times live now c asc small inside)
      | inr room ↦ elim (Bool-cases (in_minute s now)) [
        | inl here ↦
            let next =
              admitted_within s rate times (live ++ now ∷ []) now (suc c) asc
                (enters s now last c rate hits later h (ground arith) (ground arith))
                λ near. ground (arith, pushed, inside) in
            ground (arith, next)
        | inr out ↦
            let next =
              admitted_within s rate times (live ++ now ∷ []) now c asc small
                λ near. ground (arith, pushed, inside) in
            ground (arith, next)
      ]
    ]

-- When the clock does not run back, a bucket that is called at the times admits no more than the
-- rate in any span of 60000 milliseconds, the first and the last of them included, whatever the
-- bucket remembers at the start.
pub admitted-bound :
    (s rate first : ℕ) (times hits : List ℕ)
    → Ascending first times
    → count (in_minute s) (admitted rate times hits) ≤ rate
admitted-bound s rate first times hits asc =
    omega (arith, admitted_within s rate times hits first 0 asc (omega arith) λ h. omega arith)

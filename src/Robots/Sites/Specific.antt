-- ===== src/Robots/Sites/Specific.antt =====
-- src/robots.rs: which rule of a site is the more specific one.
use Prim.Native.String
use kun.Prelude.{
  ℕ, Bool, ltb, ◌==◌, ◌<◌, ◌≡◌, refl, true, false, ◌&&◌, ◌||◌, Option, none, some, arith,
  if◌then◌else◌,
}
use kun.Robots.Rules.{Patterns}
use kun.Robots.Sites.{SiteMatcher, before_priority, priority}

-- Which rule is more specific: one of an origin than one of a host or of a pattern, one of a host than
-- one of a pattern, and of two of a kind the one with the longer text; of a pattern count the characters
-- that are not a star.
unfoldable pub more_specific : {Regex : Type 0} → SiteMatcher Regex → SiteMatcher Regex → Bool
more_specific (SiteMatcher.origin s) (SiteMatcher.origin t) = ltb (String.len t) (String.len s)
more_specific (SiteMatcher.origin s) other = true
more_specific (SiteMatcher.host s) (SiteMatcher.origin t) = false
more_specific (SiteMatcher.host s) (SiteMatcher.host t) = ltb (String.len t) (String.len s)
more_specific (SiteMatcher.host s) (SiteMatcher.pattern regex n) = true
more_specific (SiteMatcher.pattern regex m) (SiteMatcher.pattern regex' n) = ltb n m
more_specific (SiteMatcher.pattern regex m) other = false

module _ (p : Patterns) where
  -- The class and the length of the priority of a matcher.
  abbrev pub rank : SiteMatcher p.Regex → ℕ × ℕ
  rank matcher = let (class, length, index) = priority p matcher 0 in (class, length)

  pub priority_rank :
      (matcher : SiteMatcher p.Regex) (index : ℕ)
      → priority p matcher index ≡ ((rank matcher).0, (rank matcher).1, index)
  unfolding priority
  priority_rank (SiteMatcher.origin text) index = refl
  priority_rank (SiteMatcher.host text) index = refl
  priority_rank (SiteMatcher.pattern regex literal_len) index = refl

  -- The priorities of the source are in this order.
  more_specific-rank :
      (m m' : SiteMatcher p.Regex)
      → more_specific m m'
        ≡ (ltb (rank m').0 (rank m).0 || ((rank m).0 == (rank m').0 && ltb (rank m').1 (rank m).1))
  unfolding more_specific priority
  more_specific-rank (SiteMatcher.origin s) (SiteMatcher.origin t) = refl
  more_specific-rank (SiteMatcher.origin s) (SiteMatcher.host t) = refl
  more_specific-rank (SiteMatcher.origin s) (SiteMatcher.pattern regex n) = refl
  more_specific-rank (SiteMatcher.host s) (SiteMatcher.origin t) = refl
  more_specific-rank (SiteMatcher.host s) (SiteMatcher.host t) = refl
  more_specific-rank (SiteMatcher.host s) (SiteMatcher.pattern regex n) = refl
  more_specific-rank (SiteMatcher.pattern regex m) (SiteMatcher.origin t) = refl
  more_specific-rank (SiteMatcher.pattern regex m) (SiteMatcher.host t) = refl
  more_specific-rank (SiteMatcher.pattern regex m) (SiteMatcher.pattern regex' n) = refl

module _ (p : Patterns) {A : Type 0} where
  -- A setting in front of the strongest one of the rules behind it.
  unfoldable pub in_front :
      (matcher : SiteMatcher p.Regex) (value : A) (rest : Option (SiteMatcher p.Regex × A))
      → Option (SiteMatcher p.Regex × A)
  in_front matcher value none = some (matcher, value)
  in_front matcher value (some (matcher', value')) =
      if more_specific matcher matcher' then some (matcher, value) else some (matcher', value')

  -- What is left of a setting when stronger rules come behind it.
  unfoldable pub settled : (class length : ℕ) → A → Option (SiteMatcher p.Regex × A) → A
  settled class length value none = value
  settled class length value (some (matcher', value')) =
      if ltb (rank p matcher').0 class
        || (class == (rank p matcher').0 && ltb (rank p matcher').1 length)
      then value
      else value'

  abbrev pub value_of : Option (SiteMatcher p.Regex × A) → Option A
  value_of none = none
  value_of (some (matcher, value)) = some value

  pub value_of-in_front :
      (matcher : SiteMatcher p.Regex) (value : A) (rest : Option (SiteMatcher p.Regex × A))
      → value_of (in_front matcher value rest)
        ≡ some (settled (rank p matcher).0 (rank p matcher).1 value rest)
  unfolding in_front settled
  value_of-in_front matcher value none = refl
  value_of-in_front matcher value (some (matcher', value')) =
      rw (more_specific-rank p matcher matcher', in_front) (ground arith)

  pub settled_replaced :
      (class length held index : ℕ) (matcher : SiteMatcher p.Regex) (value value' : A)
      (rest : Option (SiteMatcher p.Regex × A))
      → held < index
      → before_priority (class, length, held) ((rank p matcher).0, (rank p matcher).1, index) ≡ true
      → settled (rank p matcher).0 (rank p matcher).1 value' rest
        ≡ settled class length value (in_front matcher value' rest)
  unfolding in_front settled
  settled_replaced class length held index matcher value value' none earlier h = ground arith
  settled_replaced class length held index matcher value value' (some (matcher'', value'')) earlier
        h =
      rw (more_specific-rank p matcher matcher'', in_front) (ground arith)

  pub settled_kept :
      (class length held index : ℕ) (matcher : SiteMatcher p.Regex) (value value' : A)
      (rest : Option (SiteMatcher p.Regex × A))
      → held < index
      → before_priority (class, length, held) ((rank p matcher).0, (rank p matcher).1, index)
        ≡ false
      → settled class length value rest ≡ settled class length value (in_front matcher value' rest)
  unfolding in_front settled
  settled_kept class length held index matcher value value' none earlier h = ground arith
  settled_kept class length held index matcher value value' (some (matcher'', value'')) earlier h =
      rw (more_specific-rank p matcher matcher'', in_front) (ground arith)

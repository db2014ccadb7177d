-- ===== src/Robots/Sites/Strongest.antt =====
-- src/robots.rs: a setting of a URL comes from the most specific of the rules that match it.
use kun.Prelude.{
  ℕ, suc, ◌<◌, ◌≡◌, refl, Option, none, some, List, [], ◌∷◌, arith, Bool-cases, Option-cases, inl,
  inr, if◌then◌else◌, if_true, if_false, sym, ap, ◌∙◌,
}
use kun.Middleware.Externals.{Url}
use kun.Robots.Rules.{Patterns, max_millis}
use kun.Robots.Sites.{
  SitePolicy, SiteMatcher, SiteRule, Priority, before_priority, Resolving, stronger, matches,
  priority, resolve_rule, resolve_from, nothing, setting, site_policy,
}
use kun.Robots.Sites.Specific.{
  rank, priority_rank, in_front, settled, value_of, value_of-in_front, settled_replaced,
  settled_kept,
}

module _ (p : Patterns) where
  -- The longest delay of the rules that match.
  unfoldable pub longest_delay : Url → List (SiteRule p.Regex) → Option ℕ
  longest_delay url [] = none
  longest_delay url (rule ∷ rules) =
      let rest = longest_delay url rules in
      if matches p rule.matcher url then max_millis rule.policy.delay rest else rest

module _ (p : Patterns) {A : Type 0} (field : SitePolicy → Option A) (url : Url) where
  -- The most specific rule that matches and has the setting, and of equal ones the last.
  unfoldable pub strongest : List (SiteRule p.Regex) → Option (SiteMatcher p.Regex × A)
  strongest [] = none
  strongest (rule ∷ rules) =
      let rest = strongest rules in
      if matches p rule.matcher url
      then elim (field rule.policy) [
        | none ↦ rest
        | some value ↦ in_front p rule.matcher value rest
      ]
      else rest

  -- The loop on one setting.
  settle : List (SiteRule p.Regex) → (index : ℕ) → Option (Priority × A) → Option (Priority × A)
  settle [] index found = found
  settle (rule ∷ rules) index found = settle rules (suc index) (
      if matches p rule.matcher url
      then stronger (field rule.policy) (priority p rule.matcher index) found
      else found)

  settle_held :
      (rules : List (SiteRule p.Regex)) (index class length held : ℕ) (value : A)
      → held < index
      → setting (settle rules index (some ((class, length, held), value)))
        ≡ some (settled p class length value (strongest rules))
  unfolding settle strongest stronger settled
  settle_held [] index class length held value earlier = refl
  settle_held (rule ∷ rules) index class length held value earlier =
      let keeps = settle_held rules (suc index) class length held value (omega arith) in
      let (class', length') = rank p rule.matcher in
      elim (Bool-cases (matches p rule.matcher url)) [
        | inr misses ↦ rw misses keeps
        | inl matched ↦ elim (Option-cases (field rule.policy)) [
          | inl unset ↦ rw (matched, unset) keeps
          | inr (value', set) ↦
              elim (Bool-cases (before_priority (class, length, held) (class', length', index))) [
                | inl lower ↦
                    let ih =
                      settle_held rules (suc index) class' length' index value' (omega arith) in
                    rw (matched, set, priority_rank p rule.matcher index, lower)
                      (ih
                        ∙ ap some (
                            settled_replaced p class length held index rule.matcher value value'
                              (strongest rules) earlier lower))
                | inr higher ↦
                    rw (matched, set, priority_rank p rule.matcher index, higher)
                      (keeps
                        ∙ ap some (
                            settled_kept p class length held index rule.matcher value value'
                              (strongest rules) earlier higher))
              ]
        ]
      ]

  settle-none :
      (rules : List (SiteRule p.Regex)) (index : ℕ)
      → setting (settle rules index none) ≡ value_of p (strongest rules)
  unfolding settle strongest stronger
  settle-none [] index = refl
  settle-none (rule ∷ rules) index =
      let ih = settle-none rules (suc index) in
      let (class', length') = rank p rule.matcher in
      elim (Bool-cases (matches p rule.matcher url)) [
        | inr misses ↦ rw misses ih
        | inl matched ↦ elim (Option-cases (field rule.policy)) [
          | inl unset ↦ rw (matched, unset) ih
          | inr (value', set) ↦
              rw (matched, set, priority_rank p rule.matcher index)
                (settle_held rules (suc index) class' length' index value' (omega arith)
                  ∙ sym (value_of-in_front p rule.matcher value' (strongest rules)))
        ]
      ]

module _ (p : Patterns) where
  -- A round of the loop, setting by setting.
  resolve_rule_settings :
      (rule : SiteRule p.Regex) (index : ℕ) (url : Url) (found : Resolving)
      → ((resolve_rule p rule index url found).access ≡ (
          if matches p rule.matcher url
          then stronger rule.policy.access (priority p rule.matcher index) found.access
          else found.access))
        × ((resolve_rule p rule index url found).unavailable_policy ≡ (
            if matches p rule.matcher url
            then stronger rule.policy.unavailable_policy
                (priority p rule.matcher index)
                found.unavailable_policy
            else found.unavailable_policy))
        × ((resolve_rule p rule index url found).delay ≡ (
            if matches p rule.matcher url
            then max_millis found.delay rule.policy.delay
            else found.delay))
  unfolding resolve_rule
  resolve_rule_settings rule index url found = elim (Bool-cases (matches p rule.matcher url)) [
    | inl matched ↦ rw matched (refl, refl, refl)
    | inr misses ↦ rw misses (refl, refl, refl)
  ]

  access-resolve_from :
      (rules : List (SiteRule p.Regex)) (index : ℕ) (url : Url) (found : Resolving)
      → (resolve_from p rules index url found).access
        ≡ settle p (λ s. s.access) url rules index found.access
  unfolding resolve_from settle
  access-resolve_from [] index url found = refl
  access-resolve_from (rule ∷ rules) index url found =
      access-resolve_from rules (suc index) url _
      ∙ ap (settle p (λ s. s.access) url rules (suc index))
          (resolve_rule_settings rule index url found).0

  unavailable-resolve_from :
      (rules : List (SiteRule p.Regex)) (index : ℕ) (url : Url) (found : Resolving)
      → (resolve_from p rules index url found).unavailable_policy
        ≡ settle p (λ s. s.unavailable_policy) url rules index found.unavailable_policy
  unfolding resolve_from settle
  unavailable-resolve_from [] index url found = refl
  unavailable-resolve_from (rule ∷ rules) index url found =
      unavailable-resolve_from rules (suc index) url _
      ∙ ap (settle p (λ s. s.unavailable_policy) url rules (suc index))
          (resolve_rule_settings rule index url found).1

  max_millis-none : (a : Option ℕ) → max_millis a none ≡ a
  max_millis-none none = refl
  max_millis-none (some n) = refl

  max_millis_assoc :
      (a b c : Option ℕ) → max_millis (max_millis a b) c ≡ max_millis a (max_millis b c)
  max_millis_assoc none b c = refl
  max_millis_assoc (some l) none c = refl
  max_millis_assoc (some l) (some m) none = refl
  max_millis_assoc (some l) (some m) (some n) = ap some (omega arith)

  delay-resolve_from :
      (rules : List (SiteRule p.Regex)) (index : ℕ) (url : Url) (found : Resolving)
      → (resolve_from p rules index url found).delay
        ≡ max_millis found.delay (longest_delay p url rules)
  unfolding resolve_from longest_delay
  delay-resolve_from [] index url found = sym (max_millis-none found.delay)
  delay-resolve_from (rule ∷ rules) index url found =
      let later = delay-resolve_from rules (suc index) url (resolve_rule p rule index url found) in
      let (access, policy, delay) = resolve_rule_settings rule index url found in
      later ∙ elim (Bool-cases (matches p rule.matcher url)) [
        | inl matched ↦
            ap (λ d. max_millis d (longest_delay p url rules)) (delay ∙ if_true _ _ _ matched)
            ∙ rw matched
                (max_millis_assoc found.delay rule.policy.delay (longest_delay p url rules))
        | inr misses ↦
            ap (λ d. max_millis d (longest_delay p url rules)) (delay ∙ if_false _ _ _ misses)
            ∙ rw misses refl
      ]

  -- The access and the policy for an unavailable robots.txt of a URL are each those of the most
  -- specific rule that matches the URL and sets it: an origin is more specific than a host and that
  -- than a pattern, then the longer text counts, then the later rule. The delay is the longest one of
  -- the rules that match.
  pub site_policy-strongest :
      (rules : List (SiteRule p.Regex)) (url : Url)
      → ((site_policy p rules url).access ≡ value_of p (strongest p (λ s. s.access) url rules))
        × ((site_policy p rules url).unavailable_policy
            ≡ value_of p (strongest p (λ s. s.unavailable_policy) url rules))
        × ((site_policy p rules url).delay ≡ longest_delay p url rules)
  unfolding site_policy
  site_policy-strongest rules url = (
    ap setting (access-resolve_from rules 0 url nothing)
        ∙ settle-none p (λ s. s.access) url rules 0,
    ap setting (unavailable-resolve_from rules 0 url nothing)
        ∙ settle-none p (λ s. s.unavailable_policy) url rules 0,
    delay-resolve_from rules 0 url nothing,
  )

-- ===== src/Robots/Rules/Longest.antt =====
-- src/robots.rs: the loop of `is_allowed` decides by the longest match of each kind.
use kun.Prelude.{
  ℕ, suc, leb, max, ◌≤◌, ◌<◌, ◌≡◌, refl, String, Bool, true, false, not, Option, none, some, List,
  [], ◌∷◌, to_ascii_lowercase, if◌then◌else◌, arith, Option-cases, sym, ap, ◌∙◌, inl, inr,
}
use kun.Middleware.Externals.{Url}
use kun.Robots.Rules.{
  Patterns, RuleKind, allow, disallow, Rule, Rules, match_length, improves, better_match,
  best_match, matching_groups, flat_rules, is_disallow, is_allowed, request_path,
}

max_zero : (a : ℕ) → max a 0 ≡ a
max_zero a = omega arith

zero_max : (a : ℕ) → max 0 a ≡ a
zero_max a = omega arith

max_assoc : (a b c : ℕ) → max (max a b) c ≡ max a (max b c)
max_assoc a b c = omega arith

abbrev same_kind : RuleKind → RuleKind → Bool
same_kind allow allow = true
same_kind disallow disallow = true
same_kind k l = false

-- What is known of the longest matches so far, one more than their lengths and 0 for none.
abbrev Summary : (allows disallows : ℕ) → Option (ℕ × RuleKind) → Type 0
Summary a d none = (a ≡ 0) × (d ≡ 0)
Summary a d (some (length, allow)) = (a ≡ suc length) × (d ≤ a)
Summary a d (some (length, disallow)) = (d ≡ suc length) × (a < d)

better_match-Summary :
    (a d : ℕ) (best : Option (ℕ × RuleKind)) (length : ℕ) (kind : RuleKind)
    → Summary a d best
    → Summary
        (max a (if same_kind kind allow then suc length else 0))
        (max d (if same_kind kind disallow then suc length else 0))
        (better_match best length kind)
unfolding better_match improves
better_match-Summary a d none length allow h = ground arith
better_match-Summary a d none length disallow h = ground arith
better_match-Summary a d (some (best, allow)) length allow h = ground arith
better_match-Summary a d (some (best, allow)) length disallow h = ground arith
better_match-Summary a d (some (best, disallow)) length allow h = ground arith
better_match-Summary a d (some (best, disallow)) length disallow h = ground arith

module _ (x : Patterns) where
  -- The length of the longest match of a kind and one, 0 when no rule of the kind matches.
  unfoldable pub longest : RuleKind → List (Rule x.Regex) → Url → (path : String) → ℕ
  longest kind [] url path = 0
  longest kind (rule ∷ rules) url path =
      let rest = longest kind rules url path in
      elim (match_length x rule url path) [
        | none ↦ rest
        | some length ↦ max (if same_kind rule.kind kind then suc length else 0) rest
      ]

  best_match-Summary :
      (a d : ℕ) (rules : List (Rule x.Regex)) (url : Url) (path : String)
      (best : Option (ℕ × RuleKind))
      → Summary a d best
      → Summary
          (max a (longest allow rules url path))
          (max d (longest disallow rules url path))
          (best_match x rules url path best)
  unfolding best_match longest
  best_match-Summary a d [] url path best h = rw (max_zero a, max_zero d) h
  best_match-Summary a d (rule ∷ rules) url path best h =
      elim (Option-cases (match_length x rule url path)) [
        | inl missed ↦
            rw (missed, best_match, longest) (best_match-Summary a d rules url path best h)
        | inr (length, matched) ↦
            let ka = if same_kind rule.kind allow then suc length else 0 in
            let kd = if same_kind rule.kind disallow then suc length else 0 in
            let step = better_match-Summary a d best length rule.kind h in
            let ih =
              best_match-Summary (max a ka) (max d kd) rules url path
                (better_match best length rule.kind) step in
            rw
              (
                matched,
                best_match,
                longest,
                sym (max_assoc a ka (longest allow rules url path)),
                sym (max_assoc d kd (longest disallow rules url path)),
              )
              ih
      ]

  Summary-decides :
      (a d : ℕ) (best : Option (ℕ × RuleKind)) → Summary a d best → not (is_disallow best) ≡ leb d a
  Summary-decides a d none h = ground arith
  Summary-decides a d (some (length, allow)) h = ground arith
  Summary-decides a d (some (length, disallow)) h = ground arith

  -- The rules of the groups for the user agent.
  abbrev pub rules_for : Rules x.Regex → (user_agent : String) → List (Rule x.Regex)
  rules_for rules user_agent =
      flat_rules x (matching_groups x rules (to_ascii_lowercase user_agent))

  -- A URL is allowed exactly when the longest match that forbids it is not longer than the longest one
  -- that allows it, among the rules of the groups for the user agent; without a match it is allowed.
  pub is_allowed-longest :
      (rules : Rules x.Regex) (url : Url) (user_agent : String)
      → is_allowed x rules url user_agent
        ≡ leb
            (longest disallow (rules_for rules user_agent) url (request_path url))
            (longest allow (rules_for rules user_agent) url (request_path url))
  unfolding is_allowed
  is_allowed-longest rules url user_agent =
      let forbids = longest disallow (rules_for rules user_agent) url (request_path url) in
      let allows = longest allow (rules_for rules user_agent) url (request_path url) in
      Summary-decides (max 0 allows) (max 0 forbids) _ (
        best_match-Summary 0 0 (rules_for rules user_agent) url (request_path url) none
          (refl, refl))
      ∙ (ap (λ n. leb n (max 0 allows)) (zero_max forbids) ∙ ap (leb forbids) (zero_max allows))

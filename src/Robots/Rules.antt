-- ===== src/Robots/Rules.antt =====
-- src/robots.rs: the groups of a parsed robots.txt, and what they say of a URL. The crate `regex` is a
-- parameter; it compiles the texts that the source writes from the patterns.
use Prim.Native.Char.{code}
use Prim.Native.String
use kun.Prelude.{
  ℕ, ltb, ◌==◌, max, String, str_eq, Bool, true, false, not, ◌&&◌, ◌||◌, Option, none, some, List,
  [], ◌∷◌, ◌++◌, concat, starts_with, contains, ends_with, count_other, trim_end_char,
  to_ascii_lowercase, eq_ignore_ascii_case, if◌then◌else◌,
}
use kun.Middleware.Externals.{Url}
pub mod Longest
pub mod Groups

-- `Regex::new`, with its failures as `none`, `regex::escape` and `is_match`.
pub record Patterns : Type 1 where
  pub Regex : Type 0
  pub compile : String → Option Regex
  pub escape : String → String
  pub is_match : Regex → String → Bool

pub data RuleKind : Type 0 where
  allow disallow : RuleKind

pub record Rule (Regex : Type 0) : Type 0 where
  pub kind : RuleKind
  pub host : Option String
  pub pattern : String
  pub match_regex : Option Regex
  pub specificity_len : ℕ

pub record Group (Regex : Type 0) : Type 0 where
  pub agents : List String
  pub rules : List (Rule Regex)
  pub crawl_delay : Option ℕ
  pub request_interval : Option ℕ

pub record Rules (Regex : Type 0) : Type 0 where
  pub groups : List (Group Regex)
  pub sitemaps : List String

abbrev pub request_host : Url → String
request_host url = elim url.host_str [ none ↦ "" | some host ↦ host ]

unfoldable pub request_path : Url → String
request_path url = elim url.query [
  | none ↦ url.path
  | some query ↦ concat (url.path ∷ "?" ∷ query ∷ [])
]

-- `max_millis`, and the same of two delays in milliseconds (`max_delay`).
abbrev pub max_millis : Option ℕ → Option ℕ → Option ℕ
max_millis none right = right
max_millis (some l) none = some l
max_millis (some l) (some r) = some (max l r)

unfoldable pub rule_specificity_len : (pattern : String) → ℕ
rule_specificity_len pattern = count_other 42 (trim_end_char 36 pattern)

-- The characters of a pattern as a regular expression: "*" is anything, a last "$" the end.
regex_text : (escape : String → String) (pattern : String) → String
regex_text escape String.[] = ""
regex_text escape (String.◌∷◌ c s) =
    let rest = regex_text escape s in
    if code c == 42
    then concat (".*" ∷ rest ∷ [])
    else if code c == 36 && str_eq s ""
    then concat ("$" ∷ rest ∷ [])
    else concat (escape (String.◌∷◌ c "") ∷ rest ∷ [])

-- A match goes before the best one so far: it is longer, or as long and allows what that forbids.
unfoldable pub improves : (length : ℕ) → RuleKind → (best_length : ℕ) → RuleKind → Bool
improves length allow best_length disallow = ltb best_length length || length == best_length
improves length kind best_length best_kind = ltb best_length length

unfoldable pub better_match :
    Option (ℕ × RuleKind) → (length : ℕ) → RuleKind → Option (ℕ × RuleKind)
better_match none length kind = some (length, kind)
better_match (some (best_length, best_kind)) length kind =
    if improves length kind best_length best_kind
    then some (length, kind)
    else some (best_length, best_kind)

-- The largest of the specificities of the agents that match.
unfoldable pub agents_specificity : (agents : List String) (user_agent : String) → Option ℕ
agents_specificity [] user_agent = none
agents_specificity (agent ∷ agents) user_agent =
    let rest = agents_specificity agents user_agent in
    if str_eq agent "*"
    then max_millis (some 0) rest
    else if contains user_agent agent
    then max_millis (some (String.len agent)) rest
    else rest

abbrev pub is_disallow : Option (ℕ × RuleKind) → Bool
is_disallow none = false
is_disallow (some (length, allow)) = false
is_disallow (some (length, disallow)) = true

module _ (x : Patterns) where
  unfoldable pub compile_rule_regex : (pattern : String) → Option x.Regex
  unfolding regex_text
  compile_rule_regex pattern =
      if str_eq pattern "" || (not (contains pattern "*") && not (ends_with "$" pattern))
      then none
      else x.compile (concat ("^" ∷ regex_text x.escape pattern ∷ []))

  -- How specific the rule is, if it is about the URL.
  unfoldable pub match_length : Rule x.Regex → Url → (path : String) → Option ℕ
  match_length rule url path =
      let other_host : Bool = elim rule.host [
        | none ↦ false
        | some host ↦ not (eq_ignore_ascii_case (request_host url) host)
      ] in
      let matches : Bool = elim rule.match_regex [
        | none ↦ starts_with rule.pattern path
        | some regex ↦ x.is_match regex path
      ] in
      if str_eq rule.pattern ""
      then none
      else if other_host
      then none
      else if matches
      then some rule.specificity_len
      else none

  unfoldable pub best_match :
      List (Rule x.Regex) → Url → (path : String) → Option (ℕ × RuleKind) → Option (ℕ × RuleKind)
  best_match [] url path best = best
  best_match (rule ∷ rules) url path best =
      best_match rules url path (elim (match_length rule url path) [
        | none ↦ best
        | some length ↦ better_match best length rule.kind
      ])

  unfoldable pub match_specificity : Group x.Regex → (user_agent : String) → Option ℕ
  match_specificity group user_agent = agents_specificity group.agents user_agent

  unfoldable pub group_delay : Group x.Regex → Option ℕ
  group_delay group = max_millis group.crawl_delay group.request_interval

  -- One round of the loop of `matching_groups`, on the best specificity and its groups.
  unfoldable pub keep_group :
      Group x.Regex
      → (specificity : ℕ) → Option ℕ
      → List (Group x.Regex)
      → Option ℕ × List (Group x.Regex)
  keep_group group specificity none found = (some specificity, group ∷ [])
  keep_group group specificity (some current) found =
      if ltb current specificity
      then (some specificity, group ∷ [])
      else if specificity == current
      then (some current, found ++ group ∷ [])
      else (some current, found)

  unfoldable pub matching_from :
      (groups : List (Group x.Regex)) (user_agent : String)
      → Option ℕ × List (Group x.Regex)
      → List (Group x.Regex)
  matching_from [] user_agent (best, found) = found
  matching_from (group ∷ groups) user_agent (best, found) =
      matching_from groups user_agent (elim (match_specificity group user_agent) [
        | none ↦ (best, found)
        | some specificity ↦ keep_group group specificity best found
      ])

  unfoldable pub matching_groups : Rules x.Regex → (user_agent : String) → List (Group x.Regex)
  matching_groups rules user_agent = matching_from rules.groups user_agent (none, [])

  abbrev pub flat_rules : List (Group x.Regex) → List (Rule x.Regex)
  flat_rules [] = []
  flat_rules (group ∷ groups) = group.rules ++ flat_rules groups

  unfoldable pub is_allowed : Rules x.Regex → Url → (user_agent : String) → Bool
  is_allowed rules url user_agent =
      let groups = matching_groups rules (to_ascii_lowercase user_agent) in
      not (is_disallow (best_match (flat_rules groups) url (request_path url) none))

  abbrev pub largest_delay : List (Group x.Regex) → Option ℕ
  largest_delay [] = none
  largest_delay (group ∷ groups) = max_millis (group_delay group) (largest_delay groups)

  -- In milliseconds; `required_delay` of the source clamps it to the range of a duration.
  unfoldable pub rules_delay : Rules x.Regex → (user_agent : String) → Option ℕ
  rules_delay rules user_agent =
      largest_delay (matching_groups rules (to_ascii_lowercase user_agent))

-- ===== src/Robots/Parse.antt =====
-- src/robots.rs: a robots.txt read line by line. Numbers are printed and read by the float parameter.
use kun.Prelude.{
  ℕ, ◌==◌, Bool, true, false, not, ◌&&◌, ◌||◌, String, str_eq, Option, none, some, List, [], ◌∷◌,
  ◌++◌, any, concat, starts_with, strip_prefix, before_first, trim, to_ascii_lowercase, split_once,
  lines, parse_u64, if◌then◌else◌,
}
use kun.Middleware.Externals.{Externals, Url}
use kun.Robots.Rules.{
  Patterns, Rule, RuleKind, allow, disallow, Group, Rules, compile_rule_regex, rule_specificity_len,
  request_host, request_path,
}
pub mod Kept

-- The variables of the loop of `Rules::parse`.
pub record Reader (Regex : Type 0) : Type 0 where
  pub groups : List (Group Regex)
  pub sitemaps : List String
  pub current_agents : List String
  pub current_rules : List (Rule Regex)
  pub current_crawl_delay : Option ℕ
  pub current_request_interval : Option ℕ

abbrev pub is_empty {ℓ} : {A : Type ℓ} → List A → Bool
is_empty [] = true
is_empty (a ∷ rest) = false

abbrev pub is_some {ℓ} : {A : Type ℓ} → Option A → Bool
is_some none = false
is_some (some a) = true

unfoldable pub strip_comment : String → String
strip_comment line = elim (split_once "#" line) [ none ↦ line | some (content, rest) ↦ content ]

unfoldable pub strip_utf8_bom : String → String
strip_utf8_bom line = elim (strip_prefix "\u{feff}" line) [ none ↦ line | some rest ↦ rest ]

module _ {Regex : Type 0} where
  unfoldable pub finalize_group : Reader Regex → Reader Regex
  finalize_group s =
      let cleared : Reader Regex = record s {
        current_agents = [];
        current_rules = [];
        current_crawl_delay = none;
        current_request_interval = none;
      } in
      if is_empty s.current_agents then cleared else record cleared {
        groups =
            s.groups
            ++ record {
              agents = s.current_agents;
              rules = s.current_rules;
              crawl_delay = s.current_crawl_delay;
              request_interval = s.current_request_interval;
            }
              ∷ [];
      }

  -- An agent begins a group when the group before it has rules or a crawl delay.
  unfoldable pub read_agent : (value : String) → Reader Regex → Reader Regex
  read_agent value s =
      let begun : Reader Regex =
        if not (is_empty s.current_agents)
          && (not (is_empty s.current_rules) || is_some s.current_crawl_delay)
        then finalize_group s
        else s in
      record begun { current_agents = begun.current_agents ++ to_ascii_lowercase value ∷ [] }

  unfoldable pub read_rule : Rule Regex → Reader Regex → Reader Regex
  read_rule rule s =
      if is_empty s.current_agents
      then s
      else record s { current_rules = s.current_rules ++ rule ∷ [] }

  unfoldable pub read_crawl_delay : Option ℕ → Reader Regex → Reader Regex
  read_crawl_delay delay s =
      if is_empty s.current_agents then s else record s { current_crawl_delay = delay }

  unfoldable pub read_request_rate : Option ℕ → Reader Regex → Reader Regex
  read_request_rate interval s =
      if is_empty s.current_agents then s else record s { current_request_interval = interval }

  unfoldable pub read_sitemap : (value : String) → Reader Regex → Reader Regex
  read_sitemap value s =
      if str_eq value "" || any (λ entry. str_eq entry value) s.sitemaps
      then s
      else record s { sitemaps = s.sitemaps ++ value ∷ [] }

module _ (x : Externals) where
  unfoldable pub parse_crawl_delay : (value : String) → Option ℕ
  parse_crawl_delay value = elim (x.float.parse value) [
    | none ↦ none
    | some seconds ↦
        if not (x.float.is_finite seconds) || x.float.lt seconds (x.float.of_u64 0)
        then none
        else some (x.float.to_u64 (x.float.round (x.float.mul seconds (x.float.of_u64 1000))))
  ]

  -- The time between two requests, in milliseconds.
  unfoldable pub request_interval_of : (requests : ℕ) (window_seconds : x.float.F) → Option ℕ
  request_interval_of requests window_seconds =
      if requests == 0
        || not (x.float.is_finite window_seconds)
        || x.float.lt window_seconds (x.float.of_u64 0)
      then none
      else some (
          x.float.to_u64 (
            x.float.ceil (
              x.float.div (x.float.mul window_seconds (x.float.of_u64 1000))
                (x.float.of_u64 requests))))

  unfoldable pub parse_request_rate : (value : String) → Option ℕ
  parse_request_rate value = elim (split_once "/" value) [
    | none ↦ none
    | some (requests, window) ↦ elim (parse_u64 (trim requests)) [
      | none ↦ none
      | some n ↦ elim (x.float.parse (trim window)) [
        | none ↦ none
        | some seconds ↦ request_interval_of n seconds
      ]
    ]
  ]

module _ (x : Externals) (p : Patterns) where
  unfoldable pub normalize_rule_target : (value : String) → Option String × String
  normalize_rule_target value =
      let text = trim value in
      let located : Url → Option String × String =
        λ url. (some (to_ascii_lowercase (request_host url)), request_path url) in
      let relative : Option Url =
        if starts_with "//" text then x.parse_url (concat ("https:" ∷ text ∷ [])) else none in
      if str_eq text "" then (none, "") else elim (x.parse_url text) [
        | some url ↦ located url
        | none ↦ elim relative [ some url ↦ located url | none ↦ (none, text) ]
      ]

  unfoldable pub new_rule : RuleKind → (path : String) → Rule p.Regex
  new_rule kind path =
      let (host, pattern) = normalize_rule_target path in
      record {
        kind = kind;
        host = host;
        pattern = pattern;
        match_regex = compile_rule_regex p pattern;
        specificity_len = rule_specificity_len pattern;
      }

  -- A line of a name, in lower case, and a value.
  unfoldable pub read_field : (name value : String) → Reader p.Regex → Reader p.Regex
  read_field name value s =
      if str_eq name "user-agent"
      then read_agent value s
      else if str_eq name "allow"
      then read_rule (new_rule allow value) s
      else if str_eq name "disallow"
      then read_rule (new_rule disallow value) s
      else if str_eq name "crawl-delay"
      then read_crawl_delay (parse_crawl_delay x value) s
      else if str_eq name "request-rate"
      then read_request_rate (parse_request_rate x value) s
      else if str_eq name "sitemap"
      then read_sitemap value s
      else s

  -- One round of the loop.
  unfoldable pub read_line : (raw_line : String) → Reader p.Regex → Reader p.Regex
  read_line raw_line s =
      let line = trim (strip_utf8_bom (strip_comment raw_line)) in
      if str_eq line "" then finalize_group s else elim (split_once ":" line) [
        | none ↦ s
        | some (name, value) ↦ read_field (to_ascii_lowercase (trim name)) (trim value) s
      ]

  unfoldable pub read_lines : List String → Reader p.Regex → Reader p.Regex
  read_lines [] s = s
  read_lines (line ∷ rest) s = read_lines rest (read_line line s)

  abbrev pub start : Reader p.Regex
  start = record {
    groups = [];
    sitemaps = [];
    current_agents = [];
    current_rules = [];
    current_crawl_delay = none;
    current_request_interval = none;
  }

  unfoldable pub parse : (body : String) → Rules p.Regex
  parse body =
      let end = finalize_group (read_lines (lines body) start) in
      record { groups = end.groups; sitemaps = end.sitemaps }

-- ===== src/Robots/Tests.antt =====
-- Runs of the code of src/robots.rs on small files, and the theorems at them.
use kun.Prelude.{
  ℕ, ltb, leb, ◌≡◌, ◌+◌, ◌-◌, ◌*◌, ◌/◌, max, min, refl, true, false, String, str_eq, Option, none,
  some, List, [], ◌∷◌, char_count, keep, All, starts_with, strip_prefix, contains, after_first,
  before_first, ends_with, count_other, trim_end_char, trim, to_ascii_lowercase, split_once, lines,
  parse_u64, arith,
}
use kun.Prelude.Map
use kun.Prelude.Map.{Map}
use kun.Error.{ok}
use kun.Middleware.Externals.{Externals, Url}
use kun.Robots.Rules.{
  Patterns, Rule, RuleKind, allow, disallow, Group, Rules, is_allowed, matching_groups,
  request_path, compile_rule_regex, rule_specificity_len,
}
use kun.Robots.Rules.Longest.{longest, rules_for, is_allowed-longest}
use kun.Robots.Rules.Groups.{at_rank, top_rank, matching_groups_top}
use kun.Robots.Parse.{
  parse, is_empty, read_lines, read_line, read_field, read_agent, read_rule, read_crawl_delay,
  read_request_rate, read_sitemap, finalize_group, strip_comment, strip_utf8_bom, parse_crawl_delay,
  parse_request_rate, request_interval_of, new_rule, normalize_rule_target,
}
use kun.Robots.Parse.Kept.{Sitemaps, parse-IsRead}
use kun.Robots.Sites.{
  SitePolicy, SiteRule, SiteMatcher, SiteAccess, site_policy, origin_key, new_site_policy,
  resolve_from, resolve_rule, matches, priority, stronger,
}
use kun.Robots.Sites.Specific.{value_of}
use kun.Robots.Sites.Strongest.{strongest, longest_delay, site_policy-strongest}
use kun.Robots.Cache.{
  Policy, remember_unavailable_retry, unavailable_rules, Memory, memory_cache, Entry, CachePolicy,
  response, no_response, delay, fetch_policy_entry, fetched, is_stale, is_unavailable_retry_pending,
  fresh_hot_policy,
}
use kun.Robots.Memory.{
  check, decide, delayed_by, from_entry, without_fresh, after_fetch, without_answer, fallback,
  policy_allows, policy_delay, policy_for, pace, new_memory, from_cache_policy,
}
use kun.Robots.Memory.Fetches.{Lookup, lookups, policy_for_backs_off}
use kun.Robots.Memory.Quiet.{asks}
use kun.Robots.Memory.Fresh.{policy_for_fresh}
use kun.Robots.Memory.Spacing.{Call, call_check, checks, checks_wait}

abbrev externals : Externals
externals = record {
  float = record {
    F = ℕ;
    to_u64 = λ n. n;
    of_u64 = λ n. n;
    to_u16 = λ n. min n 65535;
    to_u32 = λ n. min n 4294967295;
    add = λ m n. m + n;
    mul = λ m n. m * n;
    div = λ m n. m / n;
    max = λ m n. max m n;
    lt = λ m n. ltb m n;
    is_finite = λ n. true;
    round = λ n. n;
    ceil = λ n. n;
    neg = λ n. n;
    ln = λ n. n;
    ln_2 = 1;
    literal = λ n d. n / d;
    parse = λ s. parse_u64 s;
  };
  parse_url = λ s. none;
  parse_error = λ s. "no URL";
  number_to_string = λ n. "n";
  json_to_string = λ v. "json";
  default_hash = λ seed s. seed + 7 * char_count s;
  options_json = λ o. ok "options";
}

-- An expression is its own text, and matches that only.
abbrev patterns : Patterns
patterns = record {
  Regex = String;
  compile = λ s. some s;
  escape = λ s. s;
  is_match = λ regex s. str_eq regex s;
}

abbrev place : Url
place = record {
  scheme = "https";
  host_str = some "example.com";
  port = none;
  path = "/a/b";
  query = none;
}

abbrev rule : RuleKind → String → ℕ → Rule String
rule kind text length = record {
  kind = kind;
  host = none;
  pattern = text;
  match_regex = none;
  specificity_len = length;
}

abbrev everyone : Group String
everyone = record {
  agents = "*" ∷ [];
  rules = rule disallow "/a" 2 ∷ rule allow "/a/b" 4 ∷ [];
  crawl_delay = some 1000;
  request_interval = none;
}

abbrev robots : Rules String
robots = record { groups = everyone ∷ []; sitemaps = [] }

is_allowed-longest_example :
    is_allowed patterns robots place "bot"
    ≡ leb
        (longest patterns disallow (rules_for patterns robots "bot") place (request_path place))
        (longest patterns allow (rules_for patterns robots "bot") place (request_path place))
is_allowed-longest_example = is_allowed-longest patterns robots place "bot"

matching_groups_top_example :
    matching_groups patterns robots "bot"
    ≡ keep (at_rank patterns "bot" (top_rank patterns "bot" robots.groups)) robots.groups
matching_groups_top_example = matching_groups_top patterns "bot" robots

abbrev two_agents : String
two_agents =
    "User-agent: a\nRequest-rate: 1/5\nUser-agent: b\nDisallow: /x # rest\n\nSitemap: m\nSitemap: m\n"

parse-IsRead_example :
    All (λ g. is_empty g.agents ≡ false) (parse externals patterns two_agents).groups
    × Sitemaps (parse externals patterns two_agents).sitemaps
parse-IsRead_example = parse-IsRead externals patterns two_agents

-- An agent behind a request rate joins the group before it, and gets its rate.
merged_groups :
    (parse externals patterns two_agents).groups
    ≡ record {
      agents = "a" ∷ "b" ∷ [];
      rules = rule disallow "/x" 2 ∷ [];
      crawl_delay = none;
      request_interval = some 5000;
    }
      ∷ []
unfolding parse read_lines read_line read_field read_agent read_rule read_crawl_delay
    read_request_rate read_sitemap finalize_group strip_comment strip_utf8_bom parse_crawl_delay
    parse_request_rate request_interval_of new_rule normalize_rule_target starts_with strip_prefix
    contains after_first before_first ends_with count_other trim_end_char trim to_ascii_lowercase
    split_once lines parse_u64 compile_rule_regex rule_specificity_len
merged_groups = refl

abbrev policy : Option SiteAccess → SitePolicy
policy access = record { access = access; delay = some 5; sitemaps = []; unavailable_policy = none }

abbrev site_rules : List (SiteRule String)
site_rules =
    record {
      matcher = SiteMatcher.origin "https://example.com";
      policy = policy (some SiteAccess.allow_all);
    }
    ∷ record {
      matcher = SiteMatcher.host "example.com";
      policy = policy (some SiteAccess.disallow_all);
    }
    ∷ []

-- The rule of the origin wins, though the rule of the host comes behind it.
origin_wins : (site_policy patterns site_rules place).access ≡ some SiteAccess.allow_all
unfolding site_policy resolve_from resolve_rule matches priority stronger origin_key
    to_ascii_lowercase
origin_wins = refl

site_policy-strongest_example :
    ((site_policy patterns site_rules place).access
      ≡ value_of patterns (strongest patterns (λ s. s.access) place site_rules))
    × ((site_policy patterns site_rules place).unavailable_policy
        ≡ value_of patterns (strongest patterns (λ s. s.unavailable_policy) place site_rules))
    × ((site_policy patterns site_rules place).delay ≡ longest_delay patterns place site_rules)
site_policy-strongest_example = site_policy-strongest patterns site_rules place

abbrev fresh_start : Memory String (Map Entry)
fresh_start = new_memory

abbrev again : Lookup
again = record { url = place; now = 500; later = 501; reply = no_response; site = new_site_policy }

abbrev asked_twice : Memory String (Map Entry)
asked_twice =
    lookups externals patterns memory_cache (again ∷ [])
      (policy_for externals patterns memory_cache place 5 10 no_response new_site_policy
        fresh_start).0

policy_for_backs_off_example :
    policy_for externals patterns memory_cache place 60000 60001 no_response new_site_policy
      asked_twice
    ≡ policy_for externals patterns memory_cache place 60000 60002
        (response 404 none)
        new_site_policy
        asked_twice
unfolding fresh_hot_policy asks is_unavailable_retry_pending fetch_policy_entry Map.lookup
policy_for_backs_off_example =
    policy_for_backs_off externals patterns memory_cache place 5 10 60000 no_response
      new_site_policy fresh_start none (again ∷ []) 60000 60001 60002 no_response
      (response 404 none) new_site_policy refl refl refl refl refl (omega arith) (omega arith, tt)
      (omega arith)

abbrev had : Entry
had = record { origin = "https://example.com"; fetched_at = 10; policy = CachePolicy.allow_all }

policy_for_fresh_example :
    policy_for externals patterns memory_cache place 5000 5001 no_response new_site_policy
      (policy_for externals patterns memory_cache place 5 10
        (response 404 none)
        new_site_policy
        fresh_start).0
    ≡ (
      (policy_for externals patterns memory_cache place 5 10
          (response 404 none)
          new_site_policy
          fresh_start).0,
      ok (from_cache_policy externals patterns CachePolicy.allow_all),
    )
unfolding fresh_hot_policy asks is_unavailable_retry_pending fetch_policy_entry fetched is_stale
    origin_key Map.lookup Map.insert
policy_for_fresh_example =
    policy_for_fresh externals patterns memory_cache place 5 10 (response 404 none) new_site_policy
      fresh_start (("https://example.com", had) ∷ []) none had 5000 5001 no_response new_site_policy
      refl refl refl refl refl refl

-- Every text is the URL of `place`, whose site has a delay of its own.
abbrev at_place : Externals
at_place = record externals { parse_url = λ s. some place }

abbrev slow_site : Memory String (Map Entry)
slow_site = record fresh_start {
  site_policies =
      record { matcher = SiteMatcher.origin "https://example.com"; policy = policy none } ∷ [];
}

abbrev check_at : ℕ → Call
check_at time = record {
  request_url = "https://example.com/c";
  user_agent = "bot";
  now = time;
  later = time;
  decided_at = time;
  reply = no_response;
}

abbrev checked_twice : Memory String (Map Entry)
checked_twice =
    checks at_place patterns memory_cache (check_at 12 ∷ [])
      (call_check at_place patterns memory_cache (check_at 10) slow_site).0

checks_wait_example :
    (call_check at_place patterns memory_cache (check_at 13) checked_twice).1
    ≡ ok (delay (10 + 5 - 13))
unfolding call_check checks check decide delayed_by pace policy_for fresh_hot_policy from_entry
    without_fresh is_unavailable_retry_pending after_fetch fetch_policy_entry without_answer
    remember_unavailable_retry fallback unavailable_rules site_policy resolve_from resolve_rule
    stronger priority matches origin_key policy_allows policy_delay Map.lookup_or Map.lookup
    Map.insert
checks_wait_example =
    checks_wait at_place patterns memory_cache "https://example.com" (check_at 10) 5 slow_site
      (check_at 12 ∷ []) (check_at 13) 5
      (place, Policy.allow_all, refl, refl, refl, refl, refl, refl) refl refl (omega arith)
      (omega arith, tt) (place, Policy.allow_all, refl, refl, refl, refl, refl, refl) refl
      (omega arith)

-- ===== src/Middleware/Tests.antt =====
-- Runs of the middleware of src/middleware, and the theorems at concrete buckets and chains.
use kun.Prelude.{
  ℕ, String, ℤ, pos, ◌+◌, ◌≤◌, ◌≡◌, refl, ◌↔◌, true, false, str_eq, List, [], ◌∷◌, none, some,
  count, max, min, ltb, char_count, ◌*◌, ◌/◌, keep, arith, has_key, IsSortedByKey, if◌then◌else◌,
}
use kun.Prelude.Map
use kun.Error.{ok}
use kun.Request.{Request, http, skip, middleware_skips, middleware_override, middleware_options}
use kun.Middleware.Flow.{Context, Download, continue, delay, Admission}
use kun.Middleware.Externals.{Externals}
use kun.Middleware.Bucket.{domain, resolve}
use kun.Middleware.Shared.{Registry, state_of, set_state, effective_u64, effective_bucket}
use kun.Middleware.RateLimit.Window.{in_minute, admitted, admitted-bound}
use kun.Middleware.Concurrency
use kun.Middleware.Concurrency.{Concurrency, slot_key, marked, take_slot, effective_limit}
use kun.Middleware.Concurrency.Bounds.{starts, ends, Within, hooks_states, hooks_states-Within}
use kun.Middleware.Concurrency.Trip.{after_download-before_download}
use kun.Middleware.Interval.{next_slot}
use kun.Middleware.Interval.Spacing.{spaced, Apart, spaced-Apart, delay_exact}
use kun.Middleware.Chain
use kun.Middleware.Chain.{
  Entry, Config, Middleware, Stage, download, request_order, matches_stage, ordered_entries,
  upsert_boxed, next_flow, run_flow, continues,
}
use kun.Middleware.Chain.Order.{
  place_of, runs_at, ordered_entries_stable, count-upsert_boxed, keyed,
}
use kun.Middleware.Chain.Skips.{skip-before_download}

-- Whole numbers for the floats, and one host for every text.
abbrev pub externals : Externals
externals = record {
  float = record {
    F = ℕ;
    to_u64 = λ n. n;
    of_u64 = λ n. n;
    to_u16 = λ n. min n 65535;
    to_u32 = λ n. min n 4294967295;
    add = λ m n. m + n;
    mul = λ m n. m * n;
    div = λ m n. m / n;
    max = λ m n. max m n;
    lt = λ m n. ltb m n;
    is_finite = λ n. true;
    round = λ n. n;
    ceil = λ n. n;
    neg = λ n. n;
    ln = λ n. n;
    ln_2 = 1;
    literal = λ n d. n / d;
    parse = λ s. none;
  };
  parse_url = λ s. some (record {
    scheme = "https";
    host_str = some "example.com";
    port = none;
    path = "/";
    query = none;
  });
  parse_error = λ s. "no URL";
  number_to_string = λ n. "n";
  json_to_string = λ v. "json";
  default_hash = λ seed s. seed + 7 * char_count s;
  options_json = λ o. ok "options";
}

abbrev pub page : Request ℕ
page = record {
  url = "https://example.com/1";
  method = "GET";
  mode = http;
  body = none;
  priority = pos 0;
  meta = [];
  errback = none;
  skip_domain_filter = false;
  middleware = [];
}

abbrev visit : Context ℕ
visit = record {
  request = page;
  task_id = "t";
  spider_name = some "spider";
  attempt = 1;
  request_started_at = none;
}

abbrev two_slots : Concurrency
two_slots = record {
  limit = 2;
  bucket = record { policy = "concurrency"; tokens = domain ∷ [] };
  states = "options";
}

admitted-bound_example : count (in_minute 0) (admitted 2 (10 ∷ 20 ∷ 30 ∷ 60011 ∷ []) []) ≤ 2
admitted-bound_example =
    admitted-bound 0 2 0 (10 ∷ 20 ∷ 30 ∷ 60011 ∷ []) []
      (omega arith, (omega arith, (omega arith, (omega arith, tt))))

-- The third call is refused, and the fourth takes the place of the first.
admitted_run : admitted 2 (10 ∷ 20 ∷ 30 ∷ 60011 ∷ []) [] ≡ 10 ∷ 20 ∷ 60011 ∷ []
unfolding admitted
admitted_run = refl

hooks_states-Within_example : Within 2 (
    hooks_states externals
      (starts two_slots visit
        ∷ starts two_slots visit
        ∷ starts two_slots visit
        ∷ ends two_slots visit
        ∷ [])
      [])
unfolding effective_limit effective_u64 middleware_options middleware_override Map.lookup state_of
    Map.lookup_or
hooks_states-Within_example =
    hooks_states-Within externals 2
      (starts two_slots visit
        ∷ starts two_slots visit
        ∷ starts two_slots visit
        ∷ ends two_slots visit
        ∷ [])
      [] (omega arith, (omega arith, (omega arith, (omega arith, tt)))) λ signature key. omega arith

-- The states after the first download of `visit` has started.
abbrev one_inflight : Registry ℕ
one_inflight = ("options", (resolve externals two_slots.bucket (some "spider") page, 1) ∷ []) ∷ []

starts_visit :
    Concurrency.before_download externals two_slots visit []
    ≡ (marked visit, one_inflight, ok continue)
unfolding Concurrency.before_download take_slot effective_limit effective_u64 effective_bucket
    middleware_skips middleware_options middleware_override Map.lookup Map.lookup_or Map.insert
    state_of set_state
starts_visit = refl

after_download-before_download_example :
    (states : Registry ℕ) × (Concurrency.after_download externals two_slots
        (marked visit)
        one_inflight
      ≡ (visit, states, ok continue))
    × ((signature key : String) → state_of 0 signature key states ≡ state_of 0 signature key [])
unfolding Map.lookup
after_download-before_download_example =
    after_download-before_download externals two_slots visit (marked visit) [] one_inflight refl
      starts_visit

spaced-Apart_example : Apart 100 0 (spaced 100 (10 ∷ 50 ∷ 110 ∷ 200 ∷ []) 0)
spaced-Apart_example =
    spaced-Apart 100 (10 ∷ 50 ∷ 110 ∷ 200 ∷ []) 0
      (omega arith, (omega arith, (omega arith, (omega arith, tt))))

delay_exact_example :
    (◌≡◌ {A = ℕ} 110 110) × ((next_slot 100 (50 + 60) 110).1 ≡ continue ↔ (60 ≤ 60))
unfolding next_slot
delay_exact_example = delay_exact 100 100 50 110 60 110 "interval" 60 refl

abbrev config_of : ℕ → Config ℕ
config_of order = record { enabled = true; stage = download; order = pos order; options = [] }

-- A middleware that counts its calls, and answers the request's download with `answer`.
abbrev counts_calls : Download → Middleware ℕ String String ℕ
counts_calls answer = record {
  before_enqueue = λ (c, w). ((c, w), ok Admission.continue);
  after_enqueue = λ (c, w). ((c, w), ok tt);
  before_download = λ (c, w). ((c, w + 1), ok answer);
  after_download = λ (c, w). ((c, w), ok continue);
  download_error = λ e (c, w). ((c, w), ok continue);
  before_parse = λ (c, w). ((c, w), ok Admission.continue);
  parse_error = λ e (c, w). ((c, w), ok Admission.continue);
  after_parse = λ (c, w). ((c, w), ok tt);
  before_item = λ (c, w). ((c, w), ok Admission.continue);
  after_item = λ (c, w). ((c, w), ok tt);
}

abbrev entry_of : String → ℕ → Download → Entry ℕ (Middleware ℕ String String ℕ)
entry_of key order answer = record {
  key = key;
  config = config_of order;
  middleware = counts_calls answer;
}

abbrev chain : List (Entry ℕ (Middleware ℕ String String ℕ))
chain = entry_of "first" 1 continue ∷ entry_of "second" 2 (delay "second" 5) ∷ []

ordered_entries_stable_example :
    IsSortedByKey (place_of page) (ordered_entries chain download page)
    × ((order : ℤ)
        → keep (has_key (place_of page) order) (ordered_entries chain download page)
          ≡ keep (has_key (place_of page) order) (keep (runs_at download) chain))
ordered_entries_stable_example = ordered_entries_stable chain download page

count-upsert_boxed_example :
    count (keyed "third") (upsert_boxed "third" (config_of 0) (counts_calls continue) chain) ≡ (
      if str_eq "third" "third"
      then max 1 (count (keyed "third") chain)
      else count (keyed "third") chain)
count-upsert_boxed_example =
    count-upsert_boxed "third" "third" (config_of 0) (counts_calls continue) chain

abbrev skipping : Context ℕ
skipping = record visit { request = skip ("first" ∷ "second" ∷ []) page }

skip-before_download_example :
    Chain.before_download chain (skipping, 0) ≡ ((skipping, 0), ok continue)
skip-before_download_example =
    skip-before_download chain skipping 0 ("first" ∷ "second" ∷ []) page (refl, (refl, tt)) refl

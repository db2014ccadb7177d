-- ===== src/Middleware/Bucket.antt =====
-- src/middleware/bucket.rs: the key under which a middleware keeps the state of a request.
use Prim.Native.String
use kun.Prelude.{
  strip_prefix, is_blank, trim_start_matches, true, false, String, str_eq, concat, to_string,
  Option, none, some, List, [], ◌∷◌, if◌then◌else◌,
}
use kun.Prelude.Map
use kun.Prelude.Map.{Map}
use kun.Error.{Result, ok, err, engine}
use kun.Value.{Value, Values, null, boolean, number, string, array, object, nil, cons, as_str}
use kun.Request.{Request, MiddlewareOptions}
use kun.Middleware.Externals.{Externals}

pub data BucketToken : Type 0 where
  spider origin domain url method : BucketToken
  meta : String → BucketToken

pub record BucketConfig : Type 0 where
  pub policy : String
  pub tokens : List BucketToken

unfoldable pub parse_bucket_token : String → Result BucketToken
unfolding trim_start_matches
parse_bucket_token value =
    if str_eq value "spider"
    then ok spider
    else if str_eq value "origin"
    then ok origin
    else if str_eq value "domain"
    then ok domain
    else if str_eq value "url"
    then ok url
    else if str_eq value "method"
    then ok method
    else elim (strip_prefix "meta." value) [
      | some t ↦ ok (meta (trim_start_matches "meta." value))
      | none ↦ err (engine (concat ("unsupported middleware bucket token: " ∷ value ∷ [])))
    ]

-- `parts.join(sep)`.
unfoldable pub join : String → List String → String
join sep [] = ""
join sep (s ∷ ss) = elim ss [ [] ↦ s | t ∷ ts ↦ String.◌++◌ s (String.◌++◌ sep (join sep ss)) ]

module _ {F : Type 0} where
  unfoldable pub parse_bucket_tokens : Values F → Result (List BucketToken)
  parse_bucket_tokens nil = ok []
  parse_bucket_tokens (cons v vs) = elim (as_str v) [
    | none ↦ err (engine "middleware bucket array values must be strings")
    | some s ↦ elim (parse_bucket_token s) [
      | err e ↦ err e
      | ok t ↦ elim (parse_bucket_tokens vs) [ err e ↦ err e | ok ts ↦ ok (t ∷ ts) ]
    ]
  ]

  unfoldable pub parse_bucket_spec : Option (Value F) → Result (List BucketToken)
  parse_bucket_spec none = ok (origin ∷ [])
  parse_bucket_spec (some (string token)) = elim (parse_bucket_token token) [
    | err e ↦ err e
    | ok t ↦ ok (t ∷ [])
  ]
  parse_bucket_spec (some (array values)) = elim (parse_bucket_tokens values) [
    | err e ↦ err e
    | ok ts ↦ elim ts [
      | [] ↦ err (engine "middleware bucket array must contain at least one token")
      | t ∷ rest ↦ ok (t ∷ rest)
    ]
  ]
  parse_bucket_spec (some v) = err (engine "middleware bucket must be a string or array of strings")

  unfoldable pub bucket_from_options : MiddlewareOptions F → String → Result BucketConfig
  bucket_from_options options default_policy =
      let named : Option String = elim (Map.lookup "policy" options) [
        | none ↦ none
        | some v ↦ as_str v
      ] in
      let policy : String = elim named [
        | none ↦ default_policy
        | some s ↦ if is_blank s then default_policy else s
      ] in
      elim (parse_bucket_spec (Map.lookup "bucket" options)) [
        | err e ↦ err e
        | ok tokens ↦ ok (record { policy = policy; tokens = tokens })
      ]

module _ (x : Externals) where
  value_to_key_string : Value x.float.F → String
  value_to_key_string null = ""
  value_to_key_string (boolean true) = "true"
  value_to_key_string (boolean false) = "false"
  value_to_key_string (number n) = x.number_to_string n
  value_to_key_string (string s) = s
  value_to_key_string (array vs) = x.json_to_string (array vs)
  value_to_key_string (object fs) = x.json_to_string (object fs)

  request_origin : String → String
  request_origin raw = elim (x.parse_url raw) [
    | none ↦ raw
    | some parsed ↦ elim parsed.host_str [
      | none ↦ raw
      | some host ↦ elim parsed.port [
        | none ↦ concat (parsed.scheme ∷ "://" ∷ host ∷ [])
        | some port ↦ concat (parsed.scheme ∷ "://" ∷ host ∷ ":" ∷ to_string port ∷ [])
      ]
    ]
  ]

  request_domain : String → String
  request_domain raw = elim (x.parse_url raw) [
    | none ↦ raw
    | some parsed ↦ elim parsed.host_str [ none ↦ raw | some host ↦ host ]
  ]

  resolve_token : Option String → Request x.float.F → BucketToken → String
  resolve_token spider_name r spider =
      String.◌++◌ "spider=" (elim spider_name [ none ↦ "" | some name ↦ name ])
  resolve_token spider_name r origin = String.◌++◌ "origin=" (request_origin r.url)
  resolve_token spider_name r domain = String.◌++◌ "domain=" (request_domain r.url)
  resolve_token spider_name r url = String.◌++◌ "url=" r.url
  resolve_token spider_name r method = String.◌++◌ "method=" r.method
  resolve_token spider_name r (meta key) = concat (
      "meta."
      ∷ key
      ∷ "="
      ∷ (elim (Map.lookup key r.meta) [ none ↦ "" | some v ↦ value_to_key_string v ])
      ∷ [])

  resolve_tokens : Option String → Request x.float.F → List BucketToken → List String
  unfolding resolve_token
  resolve_tokens spider_name r [] = []
  resolve_tokens spider_name r (t ∷ ts) =
      resolve_token spider_name r t ∷ resolve_tokens spider_name r ts

  -- `BucketKey(String)`.
  unfoldable pub resolve : BucketConfig → Option String → Request x.float.F → String
  unfolding resolve_tokens value_to_key_string request_origin request_domain
  resolve config spider_name r =
      join "|" (String.◌++◌ "policy=" config.policy ∷ resolve_tokens spider_name r config.tokens)

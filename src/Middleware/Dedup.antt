-- ===== src/Middleware/Dedup.antt =====
-- src/middleware/dedup/mod.rs: the fingerprint of a request, and the middleware that drops a request
-- whose fingerprint was seen. A JSON value always prints.
use kun.Prelude.{
  ℕ, ◌/◌, ◌%◌, ltb, Bool, true, false, String, str_eq, Option, none, some, List, [], ◌∷◌, map,
  get_elem?, concat, join, starts_with, trim_start_matches, if◌then◌else◌,
}
use kun.Prelude.Map
use kun.Error.{Result, ok, err, SpiderError, engine}
use kun.Value.{Value, as_str, as_array, as_f64}
use kun.Request.{Request, MiddlewareOptions, middleware_options, middleware_skips}
use kun.Middleware.Externals.{Externals}
use kun.Middleware.Flow.{Admission}
use kun.Middleware.RetryOptions.{or_else}
pub mod Memory
pub mod Bloom
mod Tests

pub data Key : Type 0 where
  url method body : Key
  meta : String → Key

-- The trait `Dedup`, for implementations with states in `S`: whether the request is accepted, and
-- the state after it.
pub record Dedup (F S : Type 0) : Type 0 where
  pub check_and_insert : Request F → S → S × Result Bool
  pub check_and_insert_with_keys : Request F → List Key → S → S × Result Bool

abbrev hex : List String
hex =
    "0" ∷ "1" ∷ "2" ∷ "3" ∷ "4" ∷ "5" ∷ "6" ∷ "7" ∷ "8" ∷ "9" ∷ "a" ∷ "b" ∷ "c" ∷ "d" ∷ "e" ∷ "f"
    ∷ []

abbrev hex_digit : ℕ → String
hex_digit n = elim (get_elem? hex n) [ none ↦ "" | some s ↦ s ]

-- `byte >> 4` and `byte & 0x0f`.
unfoldable pub hex_encode : List ℕ → String
hex_encode [] = ""
hex_encode (byte ∷ bytes) =
    concat (hex_digit (byte / 16) ∷ hex_digit (byte % 16) ∷ hex_encode bytes ∷ [])

unfoldable pub encode_body : Option (List ℕ) → String
encode_body none = "<none>"
encode_body (some bytes) = hex_encode bytes

module _ {F : Type 0} where
  unfoldable pub parse_key : Value F → Result Key
  parse_key v = elim (as_str v) [
    | none ↦ err (engine "request dedup key must be a string")
    | some key ↦
        if str_eq key "url"
        then ok url
        else if str_eq key "method"
        then ok method
        else if str_eq key "body"
        then ok body
        else if starts_with "meta." key
        then ok (meta (trim_start_matches "meta." key))
        else err (engine (concat ("unsupported request dedup key: " ∷ key ∷ [])))
  ]

  -- The values are read up to the first that is no key.
  unfoldable pub parse_each : List (Value F) → Result (List Key)
  unfolding parse_key
  parse_each [] = ok []
  parse_each (v ∷ vs) =
      let rest = parse_each vs in
      elim (parse_key v) [
        | err e ↦ err e
        | ok k ↦ elim rest [ err e ↦ err e | ok ks ↦ ok (k ∷ ks) ]
      ]

  unfoldable pub parse_keys : MiddlewareOptions F → Result (List Key)
  parse_keys options =
      let listed : Option (List (Value F)) =
        elim (or_else (Map.lookup "key" options) (Map.lookup "keys" options)) [
          | none ↦ none
          | some v ↦ as_array v
        ] in
      elim listed [ none ↦ ok (url ∷ []) | some values ↦ parse_each values ]

  unfoldable pub request_keys_override : Request F → Result (Option (List Key))
  request_keys_override r = elim (middleware_options r "dedup") [
    | none ↦ ok none
    | some options ↦ elim (parse_keys options) [ err e ↦ err e | ok keys ↦ ok (some keys) ]
  ]

unfoldable pub admission_of : Bool → Admission
admission_of accepted = if accepted then Admission.continue else Admission.drop "dedup"

module _ {F S : Type 0} where
  -- `DedupMiddleware::before_enqueue`.
  unfoldable pub before_enqueue : Dedup F S → Request F → S → S × Result Admission
  before_enqueue dedup r s =
      if middleware_skips r "dedup"
      then (s, ok Admission.continue)
      else elim (request_keys_override r) [
        | err e ↦ (s, err e)
        | ok override_keys ↦
            let (s', answer) : S × Result Bool = elim override_keys [
              | some keys ↦ dedup.check_and_insert_with_keys r keys s
              | none ↦ dedup.check_and_insert r s
            ] in
            (s', elim answer [ err e ↦ err e | ok accepted ↦ ok (admission_of accepted) ])
      ]

-- The middleware that the options ask for, with the options of its implementation.
pub data Backend (F : Type 0) : Type 0 where
  memory : (keys : List Key) → Backend F
  bloom : (expected_items : ℕ) (false_positive_rate : F) (keys : List Key) → Backend F
  noop : Backend F

module _ (x : Externals) where
  encode_meta : Request x.float.F → String → String
  encode_meta r name = elim (Map.lookup name r.meta) [
    | none ↦ "<missing>"
    | some v ↦ x.json_to_string v
  ]

  unfoldable pub fingerprint_part : Request x.float.F → Key → String
  unfolding encode_meta
  fingerprint_part r url = concat ("url=" ∷ r.url ∷ [])
  fingerprint_part r method = concat ("method=" ∷ r.method ∷ [])
  fingerprint_part r body = concat ("body=" ∷ encode_body r.body ∷ [])
  fingerprint_part r (meta name) = concat ("meta." ∷ name ∷ "=" ∷ encode_meta r name ∷ [])

  unfoldable pub fingerprint : Request x.float.F → List Key → String
  fingerprint r keys = join "|" (map (fingerprint_part r) keys)

  unfoldable pub from_options : MiddlewareOptions x.float.F → Result (Backend x.float.F)
  from_options options =
      let named : Option String =
        elim (or_else (Map.lookup "backend" options) (Map.lookup "type" options)) [
          | none ↦ none
          | some v ↦ as_str v
        ] in
      let backend : String = elim named [ none ↦ "memory" | some s ↦ s ] in
      let number : String → Option x.float.F =
        λ name. elim (Map.lookup name options) [ none ↦ none | some v ↦ as_f64 v ] in
      let expected_items : ℕ = elim (number "expected_items") [
        | none ↦ 100000
        | some v ↦ x.float.to_u64 (x.float.max v (x.float.of_u64 1))
      ] in
      let rate : x.float.F = elim (number "false_positive_rate") [
        | none ↦ x.float.literal 1 100
        | some v ↦ v
      ] in
      elim (parse_keys options) [
        | err e ↦ err e
        | ok keys ↦
            if str_eq backend "memory"
            then ok (memory keys)
            else if str_eq backend "bloom"
            then ok (bloom expected_items rate keys)
            else if str_eq backend "noop"
            then ok noop
            else err (engine (concat ("unsupported dedup backend: " ∷ backend ∷ [])))
      ]

-- ===== src/Middleware/Externals.antt =====
-- What the middleware takes from other packages: floats, the `url` parser, the JSON printer and the
-- hash of a seed and a text (`DefaultHasher`, 64 bits).
use kun.Prelude.{ℕ, String, Option}
use kun.Error.{Result}
use kun.Value.{Value, Float}
use kun.Request.{MiddlewareOptions}

pub record Url : Type 0 where
  pub scheme : String
  pub host_str : Option String
  pub port : Option ℕ
  pub path : String
  pub query : Option String

pub record Externals : Type 1 where
  pub float : Float
  pub open float use *
  pub parse_url : String → Option Url
  pub parse_error : String → String
  pub number_to_string : float.F → String
  pub json_to_string : Value float.F → String
  pub default_hash : (seed : ℕ) → String → ℕ
  pub options_json : MiddlewareOptions float.F → Result String

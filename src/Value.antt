-- ===== src/Value.antt =====
-- src/value.rs: the dynamic values of options and metadata. The floats are a parameter.
use kun.Prelude.{Bool, String, Option, none, some, List, [], ◌∷◌, ℕ}

mutual
  pub data Value (F : Type 0) : Type 0 where
    null : Value F
    boolean : Bool → Value F
    number : F → Value F
    string : String → Value F
    array : Values F → Value F
    object : Fields F → Value F

  pub data Values (F : Type 0) : Type 0 where
    nil : Values F
    cons : Value F → Values F → Values F

  pub data Fields (F : Type 0) : Type 0 where
    end : Fields F
    field : String → Value F → Fields F → Fields F

-- The `f64` of the source: its numbers, its conversions from and to integers (`as` rounds towards zero
-- and saturates), its arithmetic and tests, its logarithm,
-- its literals and its parser.
pub record Float : Type 1 where
  pub F : Type 0
  pub to_u64 : F → ℕ
  pub of_u64 : ℕ → F
  pub to_u16 : F → ℕ
  pub to_u32 : F → ℕ
  pub add : F → F → F
  pub mul : F → F → F
  pub div : F → F → F
  pub max : F → F → F
  pub lt : F → F → Bool
  pub is_finite : F → Bool
  pub round : F → F
  pub ceil : F → F
  pub neg : F → F
  pub ln : F → F
  pub ln_2 : F
  pub literal : (numerator denominator : ℕ) → F
  pub parse : String → Option F

module _ {F : Type 0} where
  unfoldable pub to_list : Values F → List (Value F)
  to_list nil = []
  to_list (cons v vs) = v ∷ to_list vs

  unfoldable pub as_array : Value F → Option (List (Value F))
  unfolding to_list
  as_array (array vs) = some (to_list vs)
  as_array v = none

  unfoldable pub as_str : Value F → Option String
  as_str (string s) = some s
  as_str v = none

  unfoldable pub as_bool : Value F → Option Bool
  as_bool (boolean b) = some b
  as_bool v = none

  unfoldable pub as_f64 : Value F → Option F
  as_f64 (number x) = some x
  as_f64 v = none

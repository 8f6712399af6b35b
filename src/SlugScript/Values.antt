-- ===== src/SlugScript/Values.antt =====
-- What the evaluator of slug_script.py takes from Python: the values of a script and what the
-- interpreter of Python does with them. `none` is an exception that Python raises.
use poly_strategy.Prelude.{Bool, Option, List, ℤ, Text}
use poly_strategy.SlugScript.Syntax.{Constant, BinOp, CompareOp}

pub record Python : Type 1 where
  pub Value : Type 0
  pub none_value : Value
  pub boolean : Bool → Value
  pub integer : ℤ → Value
  pub text : Text → Value
  pub list : List Value → Value
  pub tuple : List Value → Value
  pub constant : Constant → Value
  -- `bool(v)`
  pub truth : Value → Bool
  -- `str(v)`
  pub str : Value → Text
  -- `left + right` and the other operators
  pub operate : BinOp → (left right : Value) → Option Value
  pub negate : Value → Option Value
  -- The truth of `left < right` and the other comparisons
  pub compare : CompareOp → (left right : Value) → Option Bool
  -- What `for x in v` runs over
  pub items : Value → Option (List Value)
  pub getattr : Value → Text → Option Value
  -- `method(*args)`
  pub apply : (method : Value) → (args : List Value) → Option Value
  -- `len`, `str` and the other functions of `_SAFE_BUILTINS`
  pub builtin : (func : Text) → (args : List Value) → Option Value
  -- `obj[i]` and `obj[lower:upper:step]`
  pub get_item : Value → Value → Option Value
  pub get_slice : Value → (lower upper step : Value) → Option Value
  -- Whether `re.search` finds a match, case ignored
  pub search : (pattern text : Text) → Option Bool

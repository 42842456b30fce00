-- ===== src/Workflows/Conditions.antt =====
-- `get_nested_value` and `evaluate_condition` of app/modules/workflows/engine.py, on JSON values.
use Prim.Native.String
use Prim.Native.Char.{code}
use ops_pilot_be.Prelude.{
  Bool, true, false, ◌&&◌, ◌||◌, not, Option, none, some, List, [], ◌∷◌, Result, ok, err, String,
  string_eq, nat_eq, ◌==◌, if◌then◌else◌, contains, nat_beq,
}
use ops_pilot_be.Exceptions.{Error, overflow_error}

mutual
  pub data Value : Type 0 where
    null : Value
    bool : Bool → Value
    -- a number, by the text that JSON gives it
    num : String → Value
    str : String → Value
    array : Items → Value
    dict : Fields → Value

  pub data Items : Type 0 where
    nil : Items
    cons : Value → Items → Items

  pub data Fields : Type 0 where
    end : Fields
    field : String → Value → Fields → Fields

-- `dict.get`; a key that is missing gives `None`, as a null does.
unfoldable pub get : String → Fields → Value
get key end = null
get key (field k v rest) = let later = get key rest in if k == key then v else later

-- `s.split(".")`, of a text that is not read yet and the part read so far.
unfoldable pub split_from : String → String → List String
split_from part String.[] = part ∷ []
split_from part (String.◌∷◌ c s) =
    let closed = part ∷ split_from "" s in
    let longer = split_from (String.◌++◌ part (String.◌∷◌ c String.[])) s in
    if nat_beq (code c) b'.' then closed else longer

-- The loop over the parts of the path.
unfoldable pub walk : List String → Value → Value
walk [] val = val
walk (part ∷ parts) (dict fields) = walk parts (get part fields)
walk (part ∷ parts) _ = null

-- What `float` gives: a float, a `ValueError` or `TypeError` on a value that is no number, or an
-- `OverflowError` on a whole number that no float can hold.
pub data FloatCast (F : Type 0) : Type 0 where
  float : F → FloatCast F
  no_number too_large : FloatCast F

abbrev pub float_of : {F : Type 0} → FloatCast F → Option F
float_of (float x) = some x
float_of no_number = none
float_of too_large = none

-- What the engine uses of Python on values: `str`, `str.lower`, `str.strip`, `in` on texts, the
-- truth of a number, and `float`. Floats are compared only, by `lt` and `eq`.
pub record Python : Type 1 where
  pub Float : Type 0
  pub to_str : Value → String
  pub lower : String → String
  pub strip : String → String
  pub occurs_in : String → String → Bool
  pub num_truth : String → Bool
  pub to_float : Value → FloatCast Float
  pub float_lt : Float → Float → Bool
  pub float_eq : Float → Float → Bool

abbrev pub is_null : Value → Bool
is_null null = true
is_null _ = false

pub record Condition : Type 0 where
  pub path : String
  pub operator : String
  pub value : Value

module _ (py : Python) where
  open py use {Float, to_str, lower, strip, occurs_in, num_truth, to_float, float_lt, float_eq}

  unfoldable pub get_nested_value : Value → String → Value
  unfolding walk split_from
  get_nested_value payload path = walk (split_from "" (strip path)) payload

  -- `bool(val)`
  abbrev pub truth : Value → Bool
  truth null = false
  truth (bool b) = b
  truth (num n) = num_truth n
  truth (str s) = not (s == "")
  truth (array nil) = false
  truth (array _) = true
  truth (dict end) = false
  truth (dict _) = true

  abbrev pub text : Value → String
  text v = lower (to_str v)

  -- `ops[op]`; with floats, `>=` and `<=` are false on a NaN, as `<` and `==` are.
  abbrev pub compares : String → Float → Float → Bool
  compares op x y =
      if op == "gt"
      then float_lt y x
      else if op == "ge"
      then float_lt y x || float_eq x y
      else if op == "lt"
      then float_lt x y
      else if op == "le"
      then float_lt x y || float_eq x y
      else false

  -- Both casts, the value's first. A cast that finds no number is caught, an overflow is not.
  abbrev pub numeric : String → FloatCast Float → FloatCast Float → Result Error Bool
  numeric op no_number target = ok false
  numeric op too_large target = err overflow_error
  numeric op (float x) no_number = ok false
  numeric op (float x) too_large = err overflow_error
  numeric op (float x) (float y) = ok (compares op x y)

  -- `evaluate_condition`, once the value is looked up.
  unfoldable pub test : String → Value → Value → Result Error Bool
  test op val target =
      if is_null val && not (contains op ("is_true" ∷ "is_false" ∷ "ne" ∷ []))
      then ok false
      else if op == "eq"
      then ok (text val == text target)
      else if op == "ne"
      then ok (not (text val == text target))
      else if op == "is_true"
      then ok (truth val)
      else if op == "is_false"
      then ok (not (truth val))
      else if op == "contains"
      then ok (occurs_in (text target) (text val))
      else if contains op ("gt" ∷ "ge" ∷ "lt" ∷ "le" ∷ [])
          && (not (is_null val) && not (is_null target))
      then numeric op (to_float val) (to_float target)
      else ok false

  unfoldable pub evaluate_condition : Value → Condition → Result Error Bool
  unfolding get_nested_value test
  evaluate_condition payload c = test c.operator (get_nested_value payload c.path) c.value

-- ===== src/Integrations/Json.antt =====
-- Reading JSON the way the gateways do: a value that is no dict has no `get`, and Python raises.
use ops_pilot_be.Prelude.{
  ℕ, Bool, true, false, Option, none, some, List, [], ◌∷◌, String, Result, ok, err, ◌==◌, string_eq,
  if◌then◌else◌,
}
use ops_pilot_be.Workflows.Conditions.{Value, Fields, null, bool, num, str, array, dict, end, field}

pub data PyError : Type 0 where
  attribute_error type_error : PyError
  -- `TypeError`, `ValueError` or `OverflowError`, as `float` raises
  cast_error : PyError

-- `d.get(key, default)`
abbrev pub get_or : String → Value → Fields → Value
get_or key default end = default
get_or key default (field k v rest) =
    let later = get_or key default rest in if k == key then v else later

-- `key in d`
abbrev pub holds_key : String → Fields → Bool
holds_key key end = false
holds_key key (field k v rest) = let later = holds_key key rest in if k == key then true else later

-- The dict, for its `get`.
abbrev pub as_dict : Value → Result PyError Fields
as_dict (dict fields) = ok fields
as_dict null = err attribute_error
as_dict (bool b) = err attribute_error
as_dict (num n) = err attribute_error
as_dict (str s) = err attribute_error
as_dict (array items) = err attribute_error

-- `value == text`
abbrev pub is_text : String → Value → Bool
is_text t null = false
is_text t (bool b) = false
is_text t (num n) = false
is_text t (str s) = s == t
is_text t (array items) = false
is_text t (dict fields) = false

abbrev pub is_dict : Value → Bool
is_dict null = false
is_dict (bool b) = false
is_dict (num n) = false
is_dict (str s) = false
is_dict (array items) = false
is_dict (dict fields) = true

-- The event payment.success, with its payload.
pub record PaymentSuccess (F : Type 0) : Type 0 where
  pub business_id : Value
  pub order_id : Value
  pub amount : F
  pub reference : Value
  pub email : Value

-- What a webhook does: it answers, with the events that it emits, or it raises.
pub data Reply (F : Type 0) : Type 0 where
  answered : ℕ → String → List (PaymentSuccess F) → Reply F
  raised : PyError → Reply F

-- The answer once the payload is read.
abbrev pub acknowledged : {F : Type 0} → Result PyError (List (PaymentSuccess F)) → Reply F
acknowledged (err e) = raised e
acknowledged (ok events) = answered 200 "OK" events

-- `value if value else fallback`, for a setting that may be absent or empty.
abbrev pub setting_or : String → Option String → String
setting_or fallback none = fallback
setting_or fallback (some v) = if v == "" then fallback else v

-- One event, if its payload is read.
abbrev pub single : {F : Type 0} → Result PyError F → Result PyError (List F)
single (err e) = err e
single (ok event) = ok (event ∷ [])

-- A cast that may raise.
abbrev pub cast {ℓ} : {A : Type ℓ} → PyError → Option A → Result PyError A
cast e none = err e
cast e (some a) = ok a

-- A call of the gateway and its answer: the status, and the JSON if the body is such. `none`: httpx
-- raises.
pub record Call : Type 0 where
  pub url : String
  pub bearer : String
  pub body : Value

abbrev pub Post : Type 0
Post = Call → Option (ℕ × Option Value)

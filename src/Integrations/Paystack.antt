-- ===== src/Integrations/Paystack.antt =====
-- app/integrations/payments/paystack.py. HMAC, JSON, the comparison of digests (which raises on
-- texts that are not ASCII), the division of a value by 100 and HTTP are parameters.
use Prim.Native.String
use ops_pilot_be.Prelude.{
  ℕ, Bool, true, false, not, Option, none, some, List, [], String, Result, ok, err, ◌>>=◌, ◌==◌,
  string_eq, nat_eq, if◌then◌else◌,
}
use ops_pilot_be.Workflows.Conditions.{Value, Fields, num, str, dict, end, field, get}
use ops_pilot_be.Integrations.Json.{
  PyError, type_error, get_or, as_dict, is_text, PaymentSuccess, Reply, answered, raised,
  acknowledged, setting_or, single, cast, Post,
}

pub record Gateway (F : Type 0) : Type 0 where
  pub hmac_sha512 : String → String → String
  pub compare_digest : String → String → Option Bool
  pub parse_json : String → Option Value
  pub over_100 : Value → Option F
  -- `str` of a value
  pub to_str : Value → String

module _ {F : Type 0} (g : Gateway F) where
  -- `data.get("data", {}).get("authorization_url")`; whatever raises is caught.
  abbrev pub url_in : Result PyError Value → Option String
  url_in (err e) = none
  url_in (ok v) = some (g.to_str v)

  abbrev pub read_url : String → Option (ℕ × Option Value) → Option String
  read_url key none = none
  read_url key (some (status, none)) = none
  read_url key (some (status, some answer)) =
      if status == 200
      then url_in (do
        fields ← as_dict answer
        data_ ← as_dict (get_or "data" (dict end) fields)
        ok (get key data_))
      else none

  -- `amount` is the text of the whole kobo; `mock_id` is a new UUID.
  unfoldable pub initialize_paystack_transaction :
      Option String → Post → String → String → String → String → Option String → Option String
  initialize_paystack_transaction secret_key post mock_id email amount reference callback_url =
      if setting_or "" secret_key == ""
      then some (String.◌++◌ "https://checkout.paystack.com/mock-" mock_id)
      else read_url "authorization_url" (
          post (record {
            url = "https://api.paystack.co/transaction/initialize";
            bearer = setting_or "" secret_key;
            body = dict (
                field "email" (str email) (
                  field "amount" (num amount) (
                    field "reference" (str reference) (
                      if setting_or "" callback_url == ""
                      then end
                      else field "callback_url" (str (setting_or "" callback_url)) end))));
          }))

  -- The payload of the event, from the delivery's.
  unfoldable pub charge_event : Fields → Result PyError (PaymentSuccess F)
  charge_event fields = do
    data_ ← as_dict (get_or "data" (dict end) fields)
    customer ← as_dict (get_or "customer" (dict end) data_)
    metadata ← as_dict (get_or "metadata" (dict end) data_)
    amount ← cast type_error (g.over_100 (get_or "amount" (num "0") data_))
    ok (record {
      business_id = get "business_id" metadata;
      order_id = get "order_id" metadata;
      amount = amount;
      reference = get "reference" data_;
      email = get "email" customer;
    })

  -- The body of the webhook after the signature is accepted.
  unfoldable pub charge : Value → Result PyError (List (PaymentSuccess F))
  unfolding charge_event
  charge payload = do
    fields ← as_dict payload
    if not (is_text "charge.success" (get "event" fields))
        then ok []
        else single (charge_event fields)

  abbrev pub read_charge : Option Value → Reply F
  read_charge none = answered 400 "Invalid JSON" []
  read_charge (some payload) = acknowledged (charge payload)

  abbrev pub if_same : Option Bool → String → Reply F → Reply F
  if_same none refusal accepted = raised type_error
  if_same (some false) refusal accepted = answered 401 refusal []
  if_same (some true) refusal accepted = accepted

  abbrev pub paystack_secret : Option String → String
  paystack_secret = setting_or "paystack_sandbox_secret"

  unfoldable pub paystack_webhook : Option String → Option String → String → Reply F
  unfolding charge
  paystack_webhook secret_key signature raw_body =
      if setting_or "" signature == ""
      then answered 401 "Missing signature header" []
      else if_same
          (g.compare_digest (g.hmac_sha512 (paystack_secret secret_key) raw_body)
            (setting_or "" signature))
          "Invalid signature" (read_charge (g.parse_json raw_body))

-- ===== src/Integrations/Flutterwave.antt =====
-- app/integrations/payments/flutterwave.py, with the parameters that Paystack's module has. Its
-- secret key is Paystack's, as in the source.
use Prim.Native.String
use ops_pilot_be.Prelude.{
  not, Option, none, some, List, [], String, Result, ok, ◌>>=◌, ◌==◌, string_eq, if◌then◌else◌,
}
use ops_pilot_be.Workflows.Conditions.{
  Value, Fields, Python, truth, num, str, dict, end, field, get, float_of,
}
use ops_pilot_be.Integrations.Json.{
  PyError, cast_error, get_or, holds_key, as_dict, is_text, PaymentSuccess, Reply, answered,
  acknowledged, setting_or, single, cast, Post,
}
use ops_pilot_be.Integrations.Paystack.{Gateway, read_url, if_same}

-- `data.get("data", {}) if "data" in payload else payload`
abbrev pub details_in : Fields → Value
details_in fields = if holds_key "data" fields then get "data" fields else dict fields

abbrev pub email_in : Value → Fields → Value
email_in (dict customer) data_ = get "email" customer
email_in _ data_ = get "customer.email" data_

module _ (py : Python) (g : Gateway py.Float) where
  -- `url` of the request: `amount` is the text of the amount, `mock_id` a new UUID.
  unfoldable pub initialize_flutterwave_transaction :
      Option String → Post → String → String → String → String → Option String → Option String
  initialize_flutterwave_transaction secret_key post mock_id email amount tx_ref callback_url =
      if setting_or "" secret_key == ""
      then some (String.◌++◌ "https://checkout.flutterwave.com/mock-" mock_id)
      else read_url g "link" (
          post (record {
            url = "https://api.flutterwave.com/v3/payments";
            bearer = setting_or "" secret_key;
            body = dict (
                field "tx_ref" (str tx_ref) (
                  field "amount" (num amount) (
                    field "currency" (str "NGN") (
                      field "redirect_url"
                        (str (setting_or "https://opspilot.com/callback" callback_url))
                        (field "customer" (dict (field "email" (str email) end)) end)))));
          }))

  -- `data.get("meta", {}) or {}`
  abbrev pub or_empty_dict : Value → Value
  or_empty_dict v = if truth py v then v else dict end

  unfoldable pub completed_event : Fields → Fields → Result PyError (PaymentSuccess py.Float)
  completed_event data_ meta = do
    amount ← cast cast_error (float_of (py.to_float (get_or "amount" (num "0.0") data_)))
    ok (record {
      business_id = get "business_id" meta;
      order_id = get "order_id" meta;
      amount = amount;
      reference = get "tx_ref" data_;
      email = email_in (get "customer" data_) data_;
    })

  unfoldable pub completed : Value → Result PyError (List (PaymentSuccess py.Float))
  unfolding completed_event
  completed payload = do
    fields ← as_dict payload
    data_ ← as_dict (details_in fields)
    meta ← as_dict (or_empty_dict (get_or "meta" (dict end) data_))
    if not (is_text "successful" (get "status" fields))
        then ok []
        else single (completed_event data_ meta)

  abbrev pub read_completed : Option Value → Reply py.Float
  read_completed none = answered 400 "Invalid JSON" []
  read_completed (some payload) = acknowledged (completed payload)

  abbrev pub flutterwave_secret : Option String → String
  flutterwave_secret = setting_or "flutterwave_sandbox_hash"

  unfoldable pub flutterwave_webhook : Option String → Option String → String → Reply py.Float
  unfolding completed
  flutterwave_webhook secret_hash verif_hash raw_body =
      if setting_or "" verif_hash == ""
      then answered 401 "Missing verif-hash header" []
      else if_same g (g.compare_digest (flutterwave_secret secret_hash) (setting_or "" verif_hash))
          "Invalid verif-hash" (read_completed (g.parse_json raw_body))

-- ===== src/Integrations/Whatsapp.antt =====
-- app/integrations/whatsapp: the handshake of webhook.py, and service.py, which reads an incoming
-- message, finds or adds its customer, and places an order or asks the assistant.
use Prim.Native.String
use ops_pilot_be.Prelude.{
  Bool, false, ◌&&◌, ◌||◌, Option, none, some, List, [], ◌∷◌, ◌++◌, String, Result, ok, err, ◌>>=◌,
  ◌==◌, string_eq, if◌then◌else◌,
}
use ops_pilot_be.Exceptions.{Error}
use ops_pilot_be.Repository.{Uuid, get_one_by, create}
use ops_pilot_be.Metering.Cycle.{DateTime}
use ops_pilot_be.Businesses.Models.{Business}
use ops_pilot_be.Store.{Customer, Order, OrderStatus, customer_clash, order_clash}
use ops_pilot_be.Workflows.Conditions.{
  Value, null, bool, num, str, array, dict, nil, cons, end, get, Python,
}
use ops_pilot_be.Integrations.Json.{PyError, type_error, get_or, as_dict, setting_or}
use ops_pilot_be.Ai.{AiState, Gemini, Texts, chat_with_assistant}

-- The answer to the handshake: the challenge, or a refusal with 403.
unfoldable pub whatsapp_verify_webhook :
    Option String → Option String → Option String → Option String → Option (Option String)
whatsapp_verify_webhook configured mode challenge verify_token =
    if is_equal mode "subscribe"
      && is_equal verify_token (setting_or "opspilot_default_verify_token" configured)
    then some challenge
    else none
  where
    is_equal : Option String → String → Bool
    is_equal none text = false
    is_equal (some given_) text = given_ == text

-- `value[0]` of a list; anything else raises, here or at the `get` that follows.
abbrev pub first_item : Value → Result PyError Value
first_item (array (cons v items)) = ok v
first_item (array nil) = err type_error
first_item null = err type_error
first_item (bool b) = err type_error
first_item (num n) = err type_error
first_item (str s) = err type_error
first_item (dict fields) = err type_error

abbrev pub message_in : Value → Result PyError (Value × Value)
message_in payload = do
  fields ← as_dict payload
  entry ← first_item (get_or "entry" (array nil) fields)
  entry_fields ← as_dict entry
  change ← first_item (get_or "changes" (array nil) entry_fields)
  change_fields ← as_dict change
  value ← as_dict (get_or "value" (dict end) change_fields)
  message ← first_item (get_or "messages" (array nil) value)
  message_fields ← as_dict message
  text ← as_dict (get_or "text" (dict end) message_fields)
  ok (get "from" message_fields, get "body" text)

-- Whatever raises is caught: both are `None` then.
abbrev pub or_nothing : Result PyError (Value × Value) → Value × Value
or_nothing (err e) = (null, null)
or_nothing (ok found) = found

unfoldable pub extract_whatsapp_message : Value → Value × Value
extract_whatsapp_message payload = or_nothing (message_in payload)

pub record ShopState : Type 0 where
  pub businesses : List Business
  pub customers : List Customer
  pub orders : List Order
  pub assistant : AiState
  -- the texts that were sent, and to whom
  pub outbox : List (String × String)

-- The ids that the new rows get.
pub record NewIds : Type 0 where
  pub customer_id : Uuid
  pub order_id : Uuid

-- `sender[-4:]` and the text of the checkout are parameters.
module _ (py : Python) (g : Gemini) (texts : Texts) (now : DateTime) (last_four : String → String)
    (checkout : Customer → Order → String) where
  abbrev pub send : String → String → ShopState → ShopState
  send to_phone reply s = record s { outbox = s.outbox ++ (to_phone, reply) ∷ [] }

  abbrev pub or_onboard :
      Uuid → Uuid → String → ShopState → Option Customer → Result Error (Customer × ShopState)
  or_onboard i b sender s (some customer) = ok (customer, s)
  or_onboard i b sender s none = do
    (customer, customers) ←
        create customer_clash
          (record {
            id = i;
            name = String.◌++◌ "WhatsApp Client " (last_four sender);
            phone = sender;
            email = none;
            notes = none;
            business_id = b;
          })
          s.customers
    ok (customer, record s { customers = customers })

  -- The order has a fixed total, ₦15,000.00.
  abbrev pub place_order :
      Uuid → Uuid → Customer → String → String → ShopState → Result Error ShopState
  place_order i b customer sender body s = do
    (order, orders) ←
        create order_clash
          (record {
            id = i;
            status = OrderStatus.pending;
            total_amount = 1500000;
            notes = some (
                String.◌++◌ "Automated Conversational order initialized from text: '"
                  (String.◌++◌ body "'"));
            customer_id = customer.id;
            business_id = b;
          })
          s.orders
    ok (send sender (checkout customer order) (record s { orders = orders }))

  abbrev pub ask_assistant : Uuid → String → String → ShopState → Result Error ShopState
  ask_assistant b sender body s = do
    (reply, a) ← chat_with_assistant g b now texts body s.assistant
    ok (send sender reply (record s { assistant = a }))

  -- What is committed stays where a later step raises.
  abbrev pub settled : ShopState → Result Error ShopState → ShopState × Option Error
  settled s (err e) = (s, some e)
  settled s (ok s') = (s', none)

  abbrev pub reply_to :
      NewIds
      → Uuid
      → String
      → String
      → ShopState
      → Result Error (Customer × ShopState)
      → ShopState × Option Error
  reply_to ids b sender body s (err e) = (s, some e)
  reply_to ids b sender body s (ok (customer, s')) = settled s' (
      if py.occurs_in "order" (py.lower body) || py.occurs_in "buy" (py.lower body)
      then place_order ids.order_id b customer sender body s'
      else ask_assistant b sender body s')

  abbrev pub find_or_onboard :
      NewIds → Uuid → String → ShopState → Result Error (Customer × ShopState)
  find_or_onboard ids b sender s = do
    found ← get_one_by (λ (c : Customer). c.phone == sender) s.customers
    or_onboard ids.customer_id b sender s found

  -- The first business of the table is taken, whomever the message was for.
  abbrev pub serve_message :
      NewIds → List Business → String → String → ShopState → ShopState × Option Error
  serve_message ids [] sender body s = (s, none)
  serve_message ids (business ∷ rest) sender body s =
      reply_to ids business.id sender body s (find_or_onboard ids business.id sender s)

  -- A sender or a body that is missing or empty ends the handler. Meta sends both as texts: what
  -- happens on other values is left out.
  abbrev pub with_texts : NewIds → Value × Value → ShopState → ShopState × Option Error
  with_texts ids (str sender, str body) s =
      if sender == "" || body == "" then (s, none) else serve_message ids s.businesses sender body s
  with_texts ids _ s = (s, none)

  unfoldable pub handle_incoming_whatsapp_payload :
      NewIds → Value → ShopState → ShopState × Option Error
  unfolding extract_whatsapp_message chat_with_assistant
  handle_incoming_whatsapp_payload ids payload s =
      with_texts ids (extract_whatsapp_message payload) s

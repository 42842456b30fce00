-- ===== src/Events/Wiring.antt =====
-- Which handler stands on which event once `register_event_handlers` (app/core/registry.py) has run.
use ops_pilot_be.Prelude.{
  ℕ, ◌≡◌, ◌↔◌, refl, Bool, true, List, [], ◌∷◌, ◌++◌, String, string_eq, nat_eq, contains, Eq, ◌==◌,
  map, arith, All, All-contains,
}
use ops_pilot_be.Events.{EventBus, handlers_of, subscribe}
use ops_pilot_be.Prelude.Dict.{lookup, insert}
use ops_pilot_be.Events.Bus.{subscribe_all, new_bus}

-- The subscribed functions; the modules' functions of one name are told apart by their module.
pub data Handler : Type 0 where
  workflow_trigger ws_forward audit_user_registered : Handler
  audit_user_logged_in audit_order_created audit_order_updated : Handler
  audit_payment_success audit_payment_failed auth_user_registered : Handler
  auth_user_logged_in business_updated customer_created : Handler
  notify_order_created notify_order_status_changed notify_payment_successful : Handler
  order_created order_status_changed payment_initialized : Handler
  payment_successful : Handler

abbrev pub number : Handler → ℕ
number workflow_trigger = 0
number ws_forward = 1
number audit_user_registered = 2
number audit_user_logged_in = 3
number audit_order_created = 4
number audit_order_updated = 5
number audit_payment_success = 6
number audit_payment_failed = 7
number auth_user_registered = 8
number auth_user_logged_in = 9
number business_updated = 10
number customer_created = 11
number notify_order_created = 12
number notify_order_status_changed = 13
number notify_payment_successful = 14
number order_created = 15
number order_status_changed = 16
number payment_initialized = 17
number payment_successful = 18

pub handler_beq_iff : (p q : Handler) → ((number p == number q) ≡ true) ↔ (p ≡ q)
handler_beq_iff workflow_trigger r = ground arith
handler_beq_iff ws_forward r = ground arith
handler_beq_iff audit_user_registered r = ground arith
handler_beq_iff audit_user_logged_in r = ground arith
handler_beq_iff audit_order_created r = ground arith
handler_beq_iff audit_order_updated r = ground arith
handler_beq_iff audit_payment_success r = ground arith
handler_beq_iff audit_payment_failed r = ground arith
handler_beq_iff auth_user_registered r = ground arith
handler_beq_iff auth_user_logged_in r = ground arith
handler_beq_iff business_updated r = ground arith
handler_beq_iff customer_created r = ground arith
handler_beq_iff notify_order_created r = ground arith
handler_beq_iff notify_order_status_changed r = ground arith
handler_beq_iff notify_payment_successful r = ground arith
handler_beq_iff order_created r = ground arith
handler_beq_iff order_status_changed r = ground arith
handler_beq_iff payment_initialized r = ground arith
handler_beq_iff payment_successful r = ground arith

instance abbrev pub handler_eq : Eq Handler
handler_eq = record { equal = λ p q. number p == number q; equal_iff = handler_beq_iff }

-- The `events` modules, by their decorators, in the order of import.
abbrev pub module_handlers : List (String × Handler)
module_handlers =
    ("user.registered", audit_user_registered)
    ∷ ("user.logged_in", audit_user_logged_in)
    ∷ ("order.created", audit_order_created)
    ∷ ("order.updated", audit_order_updated)
    ∷ ("payment.success", audit_payment_success)
    ∷ ("payment.failed", audit_payment_failed)
    ∷ ("user.registered", auth_user_registered)
    ∷ ("user.logged_in", auth_user_logged_in)
    ∷ ("business.updated", business_updated)
    ∷ ("customer.created", customer_created)
    ∷ ("order.created", notify_order_created)
    ∷ ("order.status_changed", notify_order_status_changed)
    ∷ ("payment.successful", notify_payment_successful)
    ∷ ("order.created", order_created)
    ∷ ("order.status_changed", order_status_changed)
    ∷ ("payment.initialized", payment_initialized)
    ∷ ("payment.successful", payment_successful)
    ∷ []

-- `WS_FORWARDABLE_EVENTS`
abbrev pub ws_forwardable_events : List String
ws_forwardable_events =
    "order.created" ∷ "order.updated" ∷ "payment.success" ∷ "payment.failed"
    ∷ "notification.created" ∷ "analytics.updated" ∷ "ai.insight.generated" ∷ "ai.response.chunk"
    ∷ []

abbrev pub automation_triggers : List String
automation_triggers =
    "order.created" ∷ "order.updated" ∷ "payment.success" ∷ "payment.failed" ∷ "customer.inactive"
    ∷ []

-- A loop that subscribes one handler to each event type of a list.
abbrev all_to : Handler → List String → List (String × Handler)
all_to h = map (λ (e : String). (e, h))

unfoldable pub register_event_handlers : EventBus Handler
register_event_handlers =
    subscribe_all
      (module_handlers
        ++ all_to ws_forward ws_forwardable_events
        ++ all_to workflow_trigger automation_triggers)
      new_bus

-- What the services emit: app/modules/{auth,businesses,customers,orders,payments}/service.py.
abbrev pub service_events : List String
service_events =
    "user.registered" ∷ "user.logged_in" ∷ "business.updated" ∷ "customer.created" ∷ "order.created"
    ∷ "order.status_changed" ∷ "payment.initialized" ∷ "payment.successful" ∷ []

-- Whether the workflow engine and the WebSocket bridge both hear of an event, or neither does.
abbrev pub BridgesAgree : Bool → String → Type 0
BridgesAgree heard e =
    (contains workflow_trigger (handlers_of e register_event_handlers) ≡ heard)
    × (contains ws_forward (handlers_of e register_event_handlers) ≡ heard)

service_events-bridges : All (λ e. BridgesAgree (e == "order.created") e) service_events
unfolding register_event_handlers subscribe_all subscribe lookup insert
service_events-bridges = (
  (refl, refl),
  (
    (refl, refl),
    (
      (refl, refl),
      ((refl, refl), ((refl, refl), ((refl, refl), ((refl, refl), ((refl, refl), tt))))),
    ),
  ),
)

-- Of the events that the services emit, order.created alone reaches the workflow trigger and the
-- WebSocket bridge; every other, payment.successful and order.status_changed among them, reaches
-- neither.
pub service_events_reach_bridges :
    (e : String) → contains e service_events ≡ true → BridgesAgree (e == "order.created") e
service_events_reach_bridges e h =
    All-contains (λ f. BridgesAgree (f == "order.created") f) e service_events h
      service_events-bridges

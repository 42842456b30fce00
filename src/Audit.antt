-- ===== src/Audit.antt =====
-- app/modules/audit: the log of service.py and the handlers of events.py, on payloads as JSON.
use ops_pilot_be.Prelude.{
  ℕ, true, ◌||◌, Option, none, some, List, [], ◌∷◌, ◌++◌, String, Result, ok, ◌>>=◌, ◌==◌,
  string_eq, nat_eq, option_eq, if◌then◌else◌,
}
use ops_pilot_be.Exceptions.{Error}
use ops_pilot_be.Repository.{Uuid, get_many, count}
use ops_pilot_be.Workflows.Conditions.{Value, Fields, str, end, field, get, Python, truth}

pub record AuditLog : Type 0 where
  pub action : String
  pub module_ : String
  pub actor_id : Option Uuid
  pub business_id : Option Uuid
  pub target_id : String
  pub resource_type : String
  pub before_value : Value
  pub after_value : Value
  pub payload : Fields
  pub severity : String

-- `{k: v for k, v in payload.items() if k not in ("before", "after")}`
abbrev pub without_snapshots : Fields → Fields
without_snapshots end = end
without_snapshots (field k v rest) =
    let later = without_snapshots rest in
    if k == "before" || k == "after" then later else field k v later

unfoldable pub get_logs :
    (List AuditLog → List AuditLog) → ℕ → ℕ → List AuditLog → List AuditLog × ℕ
get_logs order_by limit offset t =
    (get_many order_by offset limit (λ _. true) t, count (λ _. true) t)

unfoldable pub get_logs_by_business :
    (List AuditLog → List AuditLog) → Uuid → ℕ → ℕ → List AuditLog → List AuditLog × ℕ
get_logs_by_business order_by b limit offset t = (
  get_many order_by offset limit (λ (l : AuditLog). l.business_id == some b) t,
  count (λ (l : AuditLog). l.business_id == some b) t,
)

-- `uuid_of` is `uuid.UUID`, which raises.
module _ (py : Python) (uuid_of : Value → Result Error Uuid) where
  -- `a or b`
  abbrev pub or_else : Value → Value → Value
  or_else a b = if truth py a then a else b

  -- `uuid.UUID(value) if value else None`
  abbrev pub optional_uuid : Value → Result Error (Option Uuid)
  optional_uuid v = if truth py v then (do i ← uuid_of v; ok (some i)) else ok none

  -- `log_action`, of the values that are given: the ids are read before the row is added.
  unfoldable pub log_action :
      Value → Value → AuditLog → List AuditLog → Result Error (List AuditLog)
  log_action actor_id business_id entry t = do
    actor ← optional_uuid actor_id
    business ← optional_uuid business_id
    ok (t ++ record entry { actor_id = actor; business_id = business } ∷ [])

  unfoldable pub record_event :
      String → String → String → String → Fields → List AuditLog → Result Error (List AuditLog)
  unfolding log_action
  record_event resource_type severity event_type source_module payload t =
      log_action (or_else (get "user_id" payload) (get "actor_id" payload))
        (get "business_id" payload)
        (record {
          action = event_type;
          module_ = if source_module == "" then resource_type else source_module;
          actor_id = none;
          business_id = none;
          target_id =
              py.to_str (or_else (or_else (get "id" payload) (get "order_id" payload)) (str ""));
          resource_type = resource_type;
          before_value = get "before" payload;
          after_value = get "after" payload;
          payload = without_snapshots payload;
          severity = severity;
        })
        t

  -- The handlers, by the event that each is subscribed to.
  unfoldable pub on_event : String → String → Fields → List AuditLog → Result Error (List AuditLog)
  unfolding record_event
  on_event event_type source_module payload t =
      if event_type == "user.registered" || event_type == "user.logged_in"
      then record_event "user" "info" event_type source_module payload t
      else if event_type == "order.created" || event_type == "order.updated"
      then record_event "order" "info" event_type source_module payload t
      else if event_type == "payment.success"
      then record_event "payment" "info" event_type source_module payload t
      else if event_type == "payment.failed"
      then record_event "payment" "warning" event_type source_module payload t
      else ok t

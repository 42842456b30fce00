-- ===== src/Admin/Platform.antt =====
-- The rest of `AdminService`: health, maintenance mode, listings and the WebSocket controls. What
-- psutil measures is not modelled.
use ops_pilot_be.Prelude.{
  nat_eq, string_eq, ℕ, ◌-◌, Bool, true, not, ◌&&◌, List, [], ◌∷◌, ◌++◌, String, length, filter,
  map, if◌then◌else◌,
}
use ops_pilot_be.Prelude.Dict.{Dict, insert, values}
use ops_pilot_be.Repository.{get_many, count}
use ops_pilot_be.Auth.Models.{Time}
use ops_pilot_be.WebSocket.{ActiveConnection, WebSocketManager, disconnect_all}

pub record SystemHealth : Type 0 where
  pub status : String
  pub postgres : String
  pub redis : String
  pub websocket_sessions : ℕ

-- The lists of all businesses, one after the other.
abbrev pub concat {ℓ} : {A : Type ℓ} → List (List A) → List A
concat [] = []
concat (xs ∷ xss) = xs ++ concat xss

-- All connections of the process, in the order of the businesses.
abbrev pub all_connections : WebSocketManager → List ActiveConnection
all_connections m = concat (values m.connections)

abbrev connection_text : Bool → String
connection_text up = if up then "connected" else "disconnected"

-- `db_ok` and `redis_ok`: whether the statement and the ping raise nothing.
unfoldable pub get_system_health : Bool → Bool → WebSocketManager → SystemHealth
get_system_health db_ok redis_ok m = record {
  status = if db_ok && redis_ok then "healthy" else "degraded";
  postgres = connection_text db_ok;
  redis = connection_text redis_ok;
  websocket_sessions = length (all_connections m);
}

-- Redis, as the texts that are stored under its keys.
unfoldable pub toggle_maintenance_mode : Bool → Dict String String → Bool × Dict String String
toggle_maintenance_mode is_active redis =
    (is_active, insert "opspilot:maintenance_mode" (if is_active then "true" else "false") redis)

-- `list_businesses`, `list_users` and `list_global_workflows` of the repository: a page of the whole
-- table and the number of its rows. `order_by` is the newest first.
unfoldable pub list_page : {A : Type 0} → (List A → List A) → ℕ → ℕ → List A → List A × ℕ
list_page order_by limit offset t =
    (get_many order_by offset limit (λ _. true) t, count (λ _. true) t)

-- Per connection the business, the user and the address that the socket has, if any.
unfoldable pub get_websocket_sessions : {H : Type 0} → (ℕ → H) → WebSocketManager → List (ℕ × ℕ × H)
get_websocket_sessions host_of m =
    map (λ (c : ActiveConnection). (c.business_id, c.user_id, host_of c.identity))
      (all_connections m)

pub record SystemAlert : Type 0 where
  pub target : ActiveConnection
  pub event : String
  pub message : String
  pub timestamp : Time

abbrev pub alert : String → String → Time → ActiveConnection → SystemAlert
alert event message now c = record { target = c; event = event; message = message; timestamp = now }

-- The alert reaches the connections that are alive; the others are disconnected.
unfoldable pub broadcast_system_alert :
    (ℕ → Bool) → String → String → Time → WebSocketManager → ℕ × List SystemAlert × WebSocketManager
broadcast_system_alert alive message event_type now m =
    let conns = all_connections m in
    let lost = filter (λ (c : ActiveConnection). not (alive c.identity)) conns in
    (
      length conns - length lost,
      map (alert event_type message now)
          (filter (λ (c : ActiveConnection). alive c.identity) conns),
      disconnect_all lost m,
    )

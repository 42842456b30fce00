-- ===== src/WebSocket.antt =====
-- app/websocket/manager.py and connection.py: the connections of each business and the presence of
-- its staff. A connection is an object, which `in` and `remove` find by its identity.
pub mod Delivery
pub mod Presence
pub mod Broadcaster
pub mod Recovery
pub mod Session
use ops_pilot_be.Prelude.{
  ℕ, ◌+◌, Bool, ◌&&◌, Option, none, some, List, [], ◌∷◌, ◌++◌, String, filter, not, ◌==◌, nat_eq,
  if◌then◌else◌,
}
use ops_pilot_be.Prelude.Dict.{Dict, lookup, insert, erase, values}

pub record ActiveConnection : Type 0 where
  pub identity : ℕ
  pub user_id : ℕ
  pub business_id : ℕ

pub record PresenceDetails : Type 0 where
  pub user_id : ℕ
  pub status : String
  pub current_view : Option String

-- The gauge `active_ws_connections` of one business: its increments and its decrements.
pub record Gauge : Type 0 where
  pub incs : ℕ
  pub decs : ℕ

pub record WebSocketManager : Type 0 where
  pub connections : Dict ℕ (List ActiveConnection)
  pub presence : Dict ℕ (Dict ℕ PresenceDetails)
  pub gauges : Dict ℕ Gauge

-- `d[k]` of a `defaultdict(list)`; that the lookup also stores the empty list is never seen.
abbrev pub or_empty {ℓ} : {A : Type ℓ} → Option (List A) → List A
or_empty none = []
or_empty (some xs) = xs

abbrev or_zero : Option Gauge → Gauge
or_zero none = record { incs = 0; decs = 0 }
or_zero (some g) = g

abbrev pub connections_of : ℕ → WebSocketManager → List ActiveConnection
connections_of b m = or_empty (lookup b m.connections)

abbrev pub presence_of : ℕ → WebSocketManager → Dict ℕ PresenceDetails
presence_of b m = or_empty (lookup b m.presence)

abbrev pub gauge_of : ℕ → WebSocketManager → Gauge
gauge_of b m = or_zero (lookup b m.gauges)

-- The same object, which then has the same fields.
abbrev pub is_same : ActiveConnection → ActiveConnection → Bool
is_same c d = c.identity == d.identity && (c.user_id == d.user_id && c.business_id == d.business_id)

-- `list.remove`: the first occurrence.
unfoldable pub remove : ActiveConnection → List ActiveConnection → List ActiveConnection
remove c [] = []
remove c (d ∷ ds) = let rest = remove c ds in if is_same c d then ds else d ∷ rest

abbrev pub online : ℕ → PresenceDetails
online u = record { user_id = u; status = "online"; current_view = none }

unfoldable pub connect : ActiveConnection → WebSocketManager → WebSocketManager
connect c m =
    let b = c.business_id in
    let g = gauge_of b m in
    record {
      connections = insert b (connections_of b m ++ c ∷ []) m.connections;
      presence = insert b (insert c.user_id (online c.user_id) (presence_of b m)) m.presence;
      gauges = insert b (record g { incs = g.incs + 1 }) m.gauges;
    }

-- Both `if`s guard an operation that changes nothing where they fail.
unfoldable pub disconnect : ActiveConnection → WebSocketManager → WebSocketManager
disconnect c m =
    let b = c.business_id in
    let g = gauge_of b m in
    record {
      connections = insert b (remove c (connections_of b m)) m.connections;
      presence = insert b (erase c.user_id (presence_of b m)) m.presence;
      gauges = insert b (record g { decs = g.decs + 1 }) m.gauges;
    }

unfoldable pub update_presence :
    ℕ → ℕ → String → Option String → WebSocketManager → WebSocketManager
update_presence b u status view m = elim (lookup u (presence_of b m)) [
  | none ↦ m
  | some p ↦ record m {
    presence =
        insert b (insert u (record p { status = status; current_view = view }) (presence_of b m))
          m.presence;
  }
]

unfoldable pub get_presence : ℕ → WebSocketManager → List PresenceDetails
get_presence b m = values (presence_of b m)

-- The message that is sent, and to which connection.
pub record Sent (A : Type 0) : Type 0 where
  pub target : ActiveConnection
  pub event_type : String
  pub business_id : ℕ
  pub payload : A

unfoldable pub disconnect_all : List ActiveConnection → WebSocketManager → WebSocketManager
unfolding disconnect
disconnect_all [] m = m
disconnect_all (c ∷ cs) m = disconnect_all cs (disconnect c m)

module _ {A : Type 0} where
  -- `send_json` answers false if the socket is gone: `alive` says which connections still are. The
  -- sends are independent, so their order does not show but in the order of clean-up.
  abbrev pub send_all : List ActiveConnection → String → ℕ → A → List (Sent A)
  send_all [] e b payload = []
  send_all (c ∷ cs) e b payload =
      record { target = c; event_type = e; business_id = b; payload = payload }
      ∷ send_all cs e b payload

  abbrev pub deliver :
      (ℕ → Bool)
      → List ActiveConnection
      → ℕ
      → String
      → A
      → WebSocketManager
      → List (Sent A) × WebSocketManager
  deliver alive cs b e payload m = (
    send_all (filter (λ (c : ActiveConnection). alive c.identity) cs) e b payload,
    disconnect_all (filter (λ (c : ActiveConnection). not (alive c.identity)) cs) m,
  )

  unfoldable pub broadcast_to_business :
      (ℕ → Bool) → ℕ → String → A → WebSocketManager → List (Sent A) × WebSocketManager
  unfolding disconnect_all
  broadcast_to_business alive b e payload m = deliver alive (connections_of b m) b e payload m

  unfoldable pub broadcast_to_user :
      (ℕ → Bool) → ℕ → ℕ → String → A → WebSocketManager → List (Sent A) × WebSocketManager
  unfolding disconnect_all
  broadcast_to_user alive b u e payload m =
      deliver alive (filter (λ (c : ActiveConnection). c.user_id == u) (connections_of b m)) b e
        payload m

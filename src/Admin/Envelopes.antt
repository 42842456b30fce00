-- ===== src/Admin/Envelopes.antt =====
-- What the routes of app/modules/admin/routes.py are asked, what they read and write, and what they
-- answer, with app/shared/response.py.
use ops_pilot_be.Prelude.{
  ℕ, ◌+◌, ◌/◌, Bool, Option, none, some, List, String, Result, ok, ◌>>=◌, if◌then◌else◌,
}
use ops_pilot_be.Prelude.Dict.{Dict}
use ops_pilot_be.Exceptions.{Error}
use ops_pilot_be.Repository.{total_pages}
use ops_pilot_be.Auth.Models.{Uuid, Time, User, UserRole}
use ops_pilot_be.Auth.Service.{Tables}
use ops_pilot_be.Businesses.Models.{Business}
use ops_pilot_be.Audit.{AuditLog}
use ops_pilot_be.Workflows.Engine.{Workflow}
use ops_pilot_be.WebSocket.{WebSocketManager}
use ops_pilot_be.Admin.Platform.{SystemHealth, SystemAlert}

-- A call of a route, with its arguments; two numbers are the limit and the offset.
pub data AdminRequest : Type 0 where
  system_health websocket_sessions : AdminRequest
  system_logs businesses_list users_list workflows_list : ℕ → ℕ → AdminRequest
  maintenance : Bool → AdminRequest
  business_toggle business_delete business_purge : Uuid → AdminRequest
  user_toggle user_delete user_purge : Uuid → AdminRequest
  user_role : Uuid → UserRole → AdminRequest
  broadcast : String → String → AdminRequest

-- What the routes read and write: the tables, Redis, the sockets and the alerts sent.
pub record Platform : Type 0 where
  pub tables : Tables
  pub logs : List AuditLog
  pub rules : List Workflow
  pub redis : Dict String String
  pub manager : WebSocketManager
  pub alerts : List SystemAlert

-- The outside world: whether the database and Redis answer, the orders of the listings, the sockets.
pub record Outside : Type 0 where
  pub db_ok : Bool
  pub redis_ok : Bool
  pub newest_logs : List AuditLog → List AuditLog
  pub newest_businesses : List Business → List Business
  pub newest_users : List User → List User
  pub newest_rules : List Workflow → List Workflow
  pub host_of : ℕ → Option String
  pub alive : ℕ → Bool

pub record PaginationMeta : Type 0 where
  pub page : ℕ
  pub per_page : ℕ
  pub total : ℕ
  pub total_pages : ℕ

-- `data` of the envelope.
pub data Payload : Type 0 where
  health_data : SystemHealth → Payload
  log_rows : List AuditLog → Payload
  business_rows : List Business → Payload
  user_rows : List User → Payload
  rule_rows : List Workflow → Payload
  flag : Bool → Payload
  status : Uuid → Bool → Payload
  deletion : Uuid → Time → Payload
  purge : Uuid → Payload
  role : Uuid → String → Option Uuid → Payload
  sessions : List (ℕ × ℕ × Option String) → Payload
  broadcast_count : ℕ → Payload

pub record Envelope : Type 0 where
  pub payload : Payload
  pub message : String
  pub meta : Option PaginationMeta

abbrev pub success : Payload → String → Envelope
success payload message = record { payload = payload; message = message; meta = none }

-- `paginated_response` with `page = offset // limit + 1`
abbrev pub paginated : Payload → ℕ → ℕ → ℕ → String → Envelope
paginated payload total limit offset message = record {
  payload = payload;
  message = message;
  meta = some (record {
    page = offset / limit + 1;
    per_page = limit;
    total = total;
    total_pages = total_pages total limit;
  });
}

-- The state after an operation on the tables.
abbrev pub with_tables : {A : Type 0} → Platform → (A → Envelope) → A × Tables → Envelope × Platform
with_tables p answer (a, t) = (answer a, record p { tables = t })

abbrev pub listed :
    {A : Type 0} → Platform → (List A → Payload) → String → ℕ → ℕ → List A × ℕ → Envelope × Platform
listed p rows message limit offset (page, total) =
    (paginated (rows page) total limit offset message, p)

abbrev pub lifted : {A B : Type 0} → (A → B) → Result Error A → Result Error B
lifted f r = r >>= λ a. ok (f a)

abbrev pub word : Bool → String → String → String
word on yes_ no_ = if on then yes_ else no_

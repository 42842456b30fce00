-- ===== src/Admin/Routes.antt =====
-- app/modules/admin/routes.py: the routes, each behind `get_current_super_admin`, on the whole state
-- that they reach. FastAPI has validated the query before: a limit is positive. Rows are answered as
-- they are stored.
pub mod Guard
pub mod Demotion
use Prim.Native.String
use ops_pilot_be.Prelude.{ℕ, ◌+◌, Bool, Option, List, ◌++◌, String, Result, ok, ◌>>=◌}
use ops_pilot_be.Exceptions.{Error}
use ops_pilot_be.Auth.Models.{Uuid, Time, User, UserRole}
use ops_pilot_be.Auth.Tokens.{Security}
use ops_pilot_be.Auth.Dependencies.{get_current_super_admin}
use ops_pilot_be.Businesses.Models.{Business}
use ops_pilot_be.Audit.{get_logs}
use ops_pilot_be.WebSocket.{WebSocketManager}
use ops_pilot_be.Admin.Accounts.{
  toggle_business_status, soft_delete_business, hard_purge_business, update_user_role,
  toggle_user_status, soft_delete_user, hard_purge_user,
}
use ops_pilot_be.Admin.Platform.{
  SystemAlert, get_system_health, toggle_maintenance_mode, list_page, get_websocket_sessions,
  broadcast_system_alert,
}
pub use ops_pilot_be.Admin.Envelopes.{
  AdminRequest, system_health, websocket_sessions, system_logs, businesses_list, users_list,
  workflows_list, maintenance, business_toggle, business_delete, business_purge, user_toggle,
  user_delete, user_purge, user_role, broadcast, Platform, Outside, Payload, health_data, log_rows,
  business_rows, user_rows, rule_rows, flag, status, deletion, purge, role, sessions,
  broadcast_count, Envelope, with_tables, lifted,
}
use ops_pilot_be.Admin.Envelopes.{success, listed, word}

module _ (out : Outside) (str : ℕ → String) (now : Time) where
  abbrev pub sent_alert : String → String → Platform → ℕ × List SystemAlert × WebSocketManager
  sent_alert message event_type p =
      broadcast_system_alert out.alive message event_type now p.manager

  abbrev pub health_route : Platform → Result Error (Envelope × Platform)
  health_route p = ok (
    success (health_data (get_system_health out.db_ok out.redis_ok p.manager))
        "System connection telemetry retrieved successfully.",
    p,
  )

  abbrev pub logs_route : ℕ → ℕ → Platform → Result Error (Envelope × Platform)
  logs_route limit offset p = ok (
      listed p log_rows "Compliance audit logs retrieved successfully." limit offset
        (get_logs out.newest_logs limit offset p.logs))

  abbrev pub maintenance_route : Bool → Platform → Result Error (Envelope × Platform)
  maintenance_route is_active p =
      let (active, redis') = toggle_maintenance_mode is_active p.redis in
      ok (
        success (flag active) (
            String.◌++◌ "Maintenance mode successfully " (word active "activated." "deactivated.")),
        record p { redis = redis' },
      )

  abbrev pub list_businesses_route : ℕ → ℕ → Platform → Result Error (Envelope × Platform)
  list_businesses_route limit offset p = ok (
      listed p business_rows "Business workspace tenants retrieved successfully." limit offset
        (list_page out.newest_businesses limit offset p.tables.businesses))

  abbrev pub toggle_business_route : Uuid → Platform → Result Error (Envelope × Platform)
  toggle_business_route i p =
      lifted
        (with_tables p λ (x : Uuid × Bool).
          success (status x.0 x.1)
            (String.◌++◌ "Business workspace successfully " (word x.1 "activated." "suspended.")))
        (toggle_business_status i p.tables)

  abbrev pub delete_business_route : Uuid → Platform → Result Error (Envelope × Platform)
  delete_business_route i p =
      lifted
        (with_tables p λ (x : Uuid × Time).
          success (deletion x.0 x.1) "Business workspace soft-deleted successfully.")
        (soft_delete_business now i p.tables)

  abbrev pub purge_business_route : Uuid → Platform → Result Error (Envelope × Platform)
  purge_business_route i p =
      lifted
        (with_tables p λ (_ : Unit {0}).
          success (purge i) "Business workspace hard-deleted and purged permanently from database.")
        (hard_purge_business i p.tables)

  abbrev pub list_users_route : ℕ → ℕ → Platform → Result Error (Envelope × Platform)
  list_users_route limit offset p = ok (
      listed p user_rows "Platform users retrieved successfully." limit offset
        (list_page out.newest_users limit offset p.tables.users))

  abbrev pub role_route : Uuid → UserRole → Platform → Result Error (Envelope × Platform)
  role_route i r p =
      lifted
        (with_tables p λ (x : Uuid × String × Option Uuid).
          success (role x.0 x.1 x.2) "User role updated successfully.")
        (update_user_role i r p.tables)

  abbrev pub toggle_user_route : Uuid → Platform → Result Error (Envelope × Platform)
  toggle_user_route i p =
      lifted
        (with_tables p λ (x : Uuid × Bool).
          success (status x.0 x.1)
            (String.◌++◌ "User account successfully " (word x.1 "activated." "deactivated.")))
        (toggle_user_status i p.tables)

  abbrev pub delete_user_route : Uuid → Platform → Result Error (Envelope × Platform)
  delete_user_route i p =
      lifted
        (with_tables p
          λ (x : Uuid × Time). success (deletion x.0 x.1) "User account soft-deleted successfully.")
        (soft_delete_user now i p.tables)

  abbrev pub purge_user_route : Uuid → Platform → Result Error (Envelope × Platform)
  purge_user_route i p =
      lifted
        (with_tables p λ (_ : Unit {0}).
          success (purge i) "User account hard-deleted and purged permanently from database.")
        (hard_purge_user i p.tables)

  abbrev pub list_workflows_route : ℕ → ℕ → Platform → Result Error (Envelope × Platform)
  list_workflows_route limit offset p = ok (
      listed p rule_rows "Global workflow rules audited successfully." limit offset
        (list_page out.newest_rules limit offset p.rules))

  abbrev pub sessions_route : Platform → Result Error (Envelope × Platform)
  sessions_route p = ok (
    success (sessions (get_websocket_sessions out.host_of p.manager))
        "Active WebSocket connections retrieved successfully.",
    p,
  )

  abbrev pub broadcast_route : String → String → Platform → Result Error (Envelope × Platform)
  broadcast_route message event_type p =
      let (count, alerts, manager') = sent_alert message event_type p in
      ok (
        success (broadcast_count count) (
            String.◌++◌ "Global system alert fanned out to "
              (String.◌++◌ (str count) " active sessions.")),
        record p { manager = manager'; alerts = p.alerts ++ alerts },
      )

  -- The body of a route, once the super administrator is there.
  unfoldable pub route : AdminRequest → Platform → Result Error (Envelope × Platform)
  route system_health p = health_route p
  route (system_logs limit offset) p = logs_route limit offset p
  route (maintenance is_active) p = maintenance_route is_active p
  route (businesses_list limit offset) p = list_businesses_route limit offset p
  route (business_toggle i) p = toggle_business_route i p
  route (business_delete i) p = delete_business_route i p
  route (business_purge i) p = purge_business_route i p
  route (users_list limit offset) p = list_users_route limit offset p
  route (user_role i r) p = role_route i r p
  route (user_toggle i) p = toggle_user_route i p
  route (user_delete i) p = delete_user_route i p
  route (user_purge i) p = purge_user_route i p
  route (workflows_list limit offset) p = list_workflows_route limit offset p
  route websocket_sessions p = sessions_route p
  route (broadcast message event_type) p = broadcast_route message event_type p

  -- A route with its dependency `CurrentSuperAdmin`.
  unfoldable pub serve_admin :
      Security → Option String → AdminRequest → Platform → Result Error (Envelope × Platform)
  serve_admin s credentials request p = do
    admin ← get_current_super_admin s now credentials p.tables
    route request p

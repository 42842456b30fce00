-- ===== src/Permissions.antt =====
-- app/core/permissions.py: the permissions, and the matrix from roles to sets of them. A frozenset
-- is a list, of which only membership is used.
pub mod Matrix
use ops_pilot_be.Prelude.{
  ℕ, nat_eq, String, List, [], ◌∷◌, true, Eq, ◌≡◌, ◌↔◌, arith, filter, not, ◌==◌, string_eq,
  if◌then◌else◌,
}

pub data Permission : Type 0 where
  orders_read orders_write orders_delete : Permission
  payments_read payments_initialize payments_verify : Permission
  customers_read customers_write analytics_read : Permission
  notifications_read notifications_send workflows_read : Permission
  workflows_write workflows_execute ai_query : Permission
  audit_read api_keys_manage admin_manage : Permission

-- The position of a member in the enumeration, by which members are told apart.
abbrev pub position : Permission → ℕ
position orders_read = 0
position orders_write = 1
position orders_delete = 2
position payments_read = 3
position payments_initialize = 4
position payments_verify = 5
position customers_read = 6
position customers_write = 7
position analytics_read = 8
position notifications_read = 9
position notifications_send = 10
position workflows_read = 11
position workflows_write = 12
position workflows_execute = 13
position ai_query = 14
position audit_read = 15
position api_keys_manage = 16
position admin_manage = 17

pub permission_beq_iff : (p q : Permission) → ((position p == position q) ≡ true) ↔ (p ≡ q)
permission_beq_iff orders_read r = ground arith
permission_beq_iff orders_write r = ground arith
permission_beq_iff orders_delete r = ground arith
permission_beq_iff payments_read r = ground arith
permission_beq_iff payments_initialize r = ground arith
permission_beq_iff payments_verify r = ground arith
permission_beq_iff customers_read r = ground arith
permission_beq_iff customers_write r = ground arith
permission_beq_iff analytics_read r = ground arith
permission_beq_iff notifications_read r = ground arith
permission_beq_iff notifications_send r = ground arith
permission_beq_iff workflows_read r = ground arith
permission_beq_iff workflows_write r = ground arith
permission_beq_iff workflows_execute r = ground arith
permission_beq_iff ai_query r = ground arith
permission_beq_iff audit_read r = ground arith
permission_beq_iff api_keys_manage r = ground arith
permission_beq_iff admin_manage r = ground arith

instance abbrev pub permission_eq : Eq Permission
permission_eq = record { equal = λ p q. position p == position q; equal_iff = permission_beq_iff }

abbrev pub permission_value : Permission → String
permission_value orders_read = "orders.read"
permission_value orders_write = "orders.write"
permission_value orders_delete = "orders.delete"
permission_value payments_read = "payments.read"
permission_value payments_initialize = "payments.initialize"
permission_value payments_verify = "payments.verify"
permission_value customers_read = "customers.read"
permission_value customers_write = "customers.write"
permission_value analytics_read = "analytics.read"
permission_value notifications_read = "notifications.read"
permission_value notifications_send = "notifications.send"
permission_value workflows_read = "workflows.read"
permission_value workflows_write = "workflows.write"
permission_value workflows_execute = "workflows.execute"
permission_value ai_query = "ai.query"
permission_value audit_read = "audit.read"
permission_value api_keys_manage = "api_keys.manage"
permission_value admin_manage = "admin.manage"

-- `frozenset(Permission)`
abbrev all_permissions : List Permission
all_permissions =
    orders_read ∷ orders_write ∷ orders_delete ∷ payments_read ∷ payments_initialize
    ∷ payments_verify ∷ customers_read ∷ customers_write ∷ analytics_read ∷ notifications_read
    ∷ notifications_send ∷ workflows_read ∷ workflows_write ∷ workflows_execute ∷ ai_query
    ∷ audit_read ∷ api_keys_manage ∷ admin_manage ∷ []

-- `_ALL_PERMISSIONS - {Permission.ADMIN_MANAGE}`
abbrev owner_permissions : List Permission
owner_permissions = filter (λ p. not (p == admin_manage)) all_permissions

abbrev manager_permissions : List Permission
manager_permissions =
    orders_read ∷ orders_write ∷ payments_read ∷ payments_initialize ∷ customers_read
    ∷ customers_write ∷ analytics_read ∷ notifications_read ∷ notifications_send ∷ workflows_read
    ∷ workflows_write ∷ workflows_execute ∷ ai_query ∷ api_keys_manage ∷ []

abbrev cashier_permissions : List Permission
cashier_permissions =
    orders_read ∷ orders_write ∷ payments_initialize ∷ payments_verify ∷ payments_read
    ∷ customers_read ∷ []

abbrev sales_rep_permissions : List Permission
sales_rep_permissions = orders_read ∷ orders_write ∷ customers_read ∷ customers_write ∷ []

-- `mapping.get(role, frozenset())`
unfoldable pub get_role_permissions : String → List Permission
get_role_permissions role =
    if role == "super_admin"
    then all_permissions
    else if role == "owner"
    then owner_permissions
    else if role == "manager"
    then manager_permissions
    else if role == "cashier"
    then cashier_permissions
    else if role == "sales_rep"
    then sales_rep_permissions
    else []

-- ===== src/Migrations/Phase3Tables.antt =====
-- migrations/versions/3a528661ceea_add_phase_3_tables.py.
use ops_pilot_be.Prelude.{true, false, none, some, List, [], ◌∷◌}
use ops_pilot_be.Migrations.Operations.{
  Table, Revision, string, uuid, text, json, boolean, integer, timestamp, numeric, enum, column,
  primary_key, foreign_key, create_table, drop_table, create_index, drop_index, create_foreign_key,
  Operation,
}

abbrev audit_logs : Table
audit_logs = record {
  name = "audit_logs";
  columns =
      column "action" (string 100) false none
      ∷ column "actor_id" uuid true none
      ∷ column "target_id" (string 100) true none
      ∷ column "module" (string 50) false none
      ∷ column "payload" json true none
      ∷ column "ip_address" (string 45) true none
      ∷ column "user_agent" (string 255) true none
      ∷ column "id" uuid false (some "gen_random_uuid()")
      ∷ column "created_at" timestamp false (some "now()")
      ∷ column "updated_at" timestamp false (some "now()")
      ∷ [];
  constraints = primary_key ("id" ∷ []) ∷ [];
}

abbrev businesses : Table
businesses = record {
  name = "businesses";
  columns =
      column "name" (string 200) false none
      ∷ column "slug" (string 250) false none
      ∷ column "description" text true none
      ∷ column "industry" (string 100) true none
      ∷ column "logo_url" (string 500) true none
      ∷ column "email" (string 255) true none
      ∷ column "phone" (string 20) true none
      ∷ column "address" text true none
      ∷ column "subscription_plan"
          (enum "subscription_plan" ("FREE" ∷ "STARTER" ∷ "PROFESSIONAL" ∷ "ENTERPRISE" ∷ [])) false
          none
      ∷ column "owner_id" uuid true none
      ∷ column "id" uuid false (some "gen_random_uuid()")
      ∷ column "created_at" timestamp false (some "now()")
      ∷ column "updated_at" timestamp false (some "now()")
      ∷ [];
  constraints = primary_key ("id" ∷ []) ∷ [];
}

abbrev users : Table
users = record {
  name = "users";
  columns =
      column "email" (string 255) false none
      ∷ column "password_hash" text false none
      ∷ column "first_name" (string 100) false none
      ∷ column "last_name" (string 100) false none
      ∷ column "phone" (string 20) true none
      ∷ column "role" (enum "user_role" ("OWNER" ∷ "MANAGER" ∷ "CASHIER" ∷ "SALES_REP" ∷ [])) false
          none
      ∷ column "is_active" boolean false none
      ∷ column "is_verified" boolean false none
      ∷ column "business_id" uuid true none
      ∷ column "id" uuid false (some "gen_random_uuid()")
      ∷ column "created_at" timestamp false (some "now()")
      ∷ column "updated_at" timestamp false (some "now()")
      ∷ [];
  constraints =
      foreign_key ("business_id" ∷ []) ("businesses.id" ∷ []) (some "CASCADE")
      ∷ primary_key ("id" ∷ [])
      ∷ [];
}

abbrev ai_logs : Table
ai_logs = record {
  name = "ai_logs";
  columns =
      column "event_type" (string 100) false none
      ∷ column "prompt" text false none
      ∷ column "response" text false none
      ∷ column "tokens_used" integer true none
      ∷ column "business_id" uuid false none
      ∷ column "id" uuid false (some "gen_random_uuid()")
      ∷ column "created_at" timestamp false (some "now()")
      ∷ column "updated_at" timestamp false (some "now()")
      ∷ [];
  constraints =
      foreign_key ("business_id" ∷ []) ("businesses.id" ∷ []) (some "CASCADE")
      ∷ primary_key ("id" ∷ [])
      ∷ [];
}

abbrev customers : Table
customers = record {
  name = "customers";
  columns =
      column "name" (string 200) false none
      ∷ column "phone" (string 20) false none
      ∷ column "email" (string 255) true none
      ∷ column "notes" text true none
      ∷ column "business_id" uuid false none
      ∷ column "id" uuid false (some "gen_random_uuid()")
      ∷ column "created_at" timestamp false (some "now()")
      ∷ column "updated_at" timestamp false (some "now()")
      ∷ [];
  constraints =
      foreign_key ("business_id" ∷ []) ("businesses.id" ∷ []) (some "CASCADE")
      ∷ primary_key ("id" ∷ [])
      ∷ [];
}

abbrev notifications : Table
notifications = record {
  name = "notifications";
  columns =
      column "title" (string 200) false none
      ∷ column "message" text false none
      ∷ column "read" boolean false none
      ∷ column "business_id" uuid false none
      ∷ column "user_id" uuid true none
      ∷ column "id" uuid false (some "gen_random_uuid()")
      ∷ column "created_at" timestamp false (some "now()")
      ∷ column "updated_at" timestamp false (some "now()")
      ∷ [];
  constraints =
      foreign_key ("business_id" ∷ []) ("businesses.id" ∷ []) (some "CASCADE")
      ∷ foreign_key ("user_id" ∷ []) ("users.id" ∷ []) (some "SET NULL")
      ∷ primary_key ("id" ∷ [])
      ∷ [];
}

abbrev orders : Table
orders = record {
  name = "orders";
  columns =
      column "status"
        (enum "order_status" ("PENDING" ∷ "PROCESSING" ∷ "COMPLETED" ∷ "CANCELLED" ∷ [])) false none
      ∷ column "total_amount" (numeric 10 2) false none
      ∷ column "notes" text true none
      ∷ column "customer_id" uuid false none
      ∷ column "business_id" uuid false none
      ∷ column "id" uuid false (some "gen_random_uuid()")
      ∷ column "created_at" timestamp false (some "now()")
      ∷ column "updated_at" timestamp false (some "now()")
      ∷ [];
  constraints =
      foreign_key ("business_id" ∷ []) ("businesses.id" ∷ []) (some "CASCADE")
      ∷ foreign_key ("customer_id" ∷ []) ("customers.id" ∷ []) (some "CASCADE")
      ∷ primary_key ("id" ∷ [])
      ∷ [];
}

abbrev payments : Table
payments = record {
  name = "payments";
  columns =
      column "order_id" uuid false none
      ∷ column "provider" (enum "payment_provider" ("PAYSTACK" ∷ "FLUTTERWAVE" ∷ [])) false none
      ∷ column "tx_ref" (string 100) false none
      ∷ column "status" (enum "payment_status" ("PENDING" ∷ "SUCCESS" ∷ "FAILED" ∷ [])) false none
      ∷ column "amount" (numeric 10 2) false none
      ∷ column "payment_url" (string 500) true none
      ∷ column "id" uuid false (some "gen_random_uuid()")
      ∷ column "created_at" timestamp false (some "now()")
      ∷ column "updated_at" timestamp false (some "now()")
      ∷ [];
  constraints =
      foreign_key ("order_id" ∷ []) ("orders.id" ∷ []) (some "CASCADE")
      ∷ primary_key ("id" ∷ [])
      ∷ [];
}

abbrev pub upgrade : List Operation
upgrade =
    create_table audit_logs
    ∷ create_index "ix_audit_logs_action" "audit_logs" ("action" ∷ []) false
    ∷ create_index "ix_audit_logs_id" "audit_logs" ("id" ∷ []) false
    ∷ create_table businesses
    ∷ create_index "ix_businesses_id" "businesses" ("id" ∷ []) false
    ∷ create_index "ix_businesses_slug" "businesses" ("slug" ∷ []) true
    ∷ create_table users
    ∷ create_foreign_key "fk_businesses_owner_id_users" "businesses" "users" ("owner_id" ∷ [])
        ("id" ∷ []) (some "SET NULL")
    ∷ create_index "ix_users_business_id" "users" ("business_id" ∷ []) false
    ∷ create_index "ix_users_email" "users" ("email" ∷ []) true
    ∷ create_index "ix_users_id" "users" ("id" ∷ []) false
    ∷ create_table ai_logs
    ∷ create_index "ix_ai_logs_business_id" "ai_logs" ("business_id" ∷ []) false
    ∷ create_index "ix_ai_logs_event_type" "ai_logs" ("event_type" ∷ []) false
    ∷ create_index "ix_ai_logs_id" "ai_logs" ("id" ∷ []) false
    ∷ create_table customers
    ∷ create_index "ix_customers_business_id" "customers" ("business_id" ∷ []) false
    ∷ create_index "ix_customers_id" "customers" ("id" ∷ []) false
    ∷ create_index "ix_customers_phone" "customers" ("phone" ∷ []) false
    ∷ create_table notifications
    ∷ create_index "ix_notifications_business_id" "notifications" ("business_id" ∷ []) false
    ∷ create_index "ix_notifications_id" "notifications" ("id" ∷ []) false
    ∷ create_index "ix_notifications_user_id" "notifications" ("user_id" ∷ []) false
    ∷ create_table orders
    ∷ create_index "ix_orders_business_id" "orders" ("business_id" ∷ []) false
    ∷ create_index "ix_orders_customer_id" "orders" ("customer_id" ∷ []) false
    ∷ create_index "ix_orders_id" "orders" ("id" ∷ []) false
    ∷ create_index "ix_orders_status" "orders" ("status" ∷ []) false
    ∷ create_table payments
    ∷ create_index "ix_payments_id" "payments" ("id" ∷ []) false
    ∷ create_index "ix_payments_order_id" "payments" ("order_id" ∷ []) false
    ∷ create_index "ix_payments_status" "payments" ("status" ∷ []) false
    ∷ create_index "ix_payments_tx_ref" "payments" ("tx_ref" ∷ []) true
    ∷ []

abbrev pub downgrade : List Operation
downgrade =
    drop_index "ix_payments_tx_ref" "payments"
    ∷ drop_index "ix_payments_status" "payments"
    ∷ drop_index "ix_payments_order_id" "payments"
    ∷ drop_index "ix_payments_id" "payments"
    ∷ drop_table "payments"
    ∷ drop_index "ix_orders_status" "orders"
    ∷ drop_index "ix_orders_id" "orders"
    ∷ drop_index "ix_orders_customer_id" "orders"
    ∷ drop_index "ix_orders_business_id" "orders"
    ∷ drop_table "orders"
    ∷ drop_index "ix_notifications_user_id" "notifications"
    ∷ drop_index "ix_notifications_id" "notifications"
    ∷ drop_index "ix_notifications_business_id" "notifications"
    ∷ drop_table "notifications"
    ∷ drop_index "ix_customers_phone" "customers"
    ∷ drop_index "ix_customers_id" "customers"
    ∷ drop_index "ix_customers_business_id" "customers"
    ∷ drop_table "customers"
    ∷ drop_index "ix_ai_logs_id" "ai_logs"
    ∷ drop_index "ix_ai_logs_event_type" "ai_logs"
    ∷ drop_index "ix_ai_logs_business_id" "ai_logs"
    ∷ drop_table "ai_logs"
    ∷ drop_index "ix_users_id" "users"
    ∷ drop_index "ix_users_email" "users"
    ∷ drop_index "ix_users_business_id" "users"
    ∷ drop_table "users"
    ∷ drop_index "ix_businesses_slug" "businesses"
    ∷ drop_index "ix_businesses_id" "businesses"
    ∷ drop_table "businesses"
    ∷ drop_index "ix_audit_logs_id" "audit_logs"
    ∷ drop_index "ix_audit_logs_action" "audit_logs"
    ∷ drop_table "audit_logs"
    ∷ []

abbrev pub phase_3_tables : Revision
phase_3_tables = record {
  revision = "3a528661ceea";
  down_revision = none;
  upgrade = upgrade;
  downgrade = downgrade;
}

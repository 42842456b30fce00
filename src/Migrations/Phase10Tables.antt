-- ===== src/Migrations/Phase10Tables.antt =====
-- migrations/versions/71148ca9b15e_add_phase_10_models.py.
use ops_pilot_be.Prelude.{true, false, none, some, List, [], ◌∷◌}
use ops_pilot_be.Migrations.Operations.{
  Table, Revision, string, uuid, boolean, integer, timestamp, column, primary_key, unique_key,
  foreign_key, create_table, drop_table, create_index, drop_index, Operation,
}

abbrev subscription_tiers : Table
subscription_tiers = record {
  name = "subscription_tiers";
  columns =
      column "id" (string 50) false none
      ∷ column "name" (string 100) false none
      ∷ column "description" (string 255) true none
      ∷ column "monthly_price" integer false none
      ∷ column "max_users" integer false none
      ∷ column "created_at" timestamp false (some "now()")
      ∷ column "updated_at" timestamp false (some "now()")
      ∷ [];
  constraints = primary_key ("id" ∷ []) ∷ [];
}

abbrev feature_flags : Table
feature_flags = record {
  name = "feature_flags";
  columns =
      column "id" (string 100) false none
      ∷ column "description" (string 255) true none
      ∷ column "is_global_active" boolean false none
      ∷ column "minimum_tier" (string 50) true none
      ∷ column "created_at" timestamp false (some "now()")
      ∷ column "updated_at" timestamp false (some "now()")
      ∷ [];
  constraints =
      foreign_key ("minimum_tier" ∷ []) ("subscription_tiers.id" ∷ []) none
      ∷ primary_key ("id" ∷ [])
      ∷ [];
}

abbrev subscriptions : Table
subscriptions = record {
  name = "subscriptions";
  columns =
      column "id" uuid false none
      ∷ column "business_id" uuid false none
      ∷ column "tier_id" (string 50) false none
      ∷ column "status" (string 50) false none
      ∷ column "paystack_subscription_code" (string 100) true none
      ∷ column "paystack_email_token" (string 100) true none
      ∷ column "current_period_start" timestamp false none
      ∷ column "current_period_end" timestamp true none
      ∷ column "cancel_at_period_end" boolean false none
      ∷ column "created_at" timestamp false (some "now()")
      ∷ column "updated_at" timestamp false (some "now()")
      ∷ [];
  constraints =
      foreign_key ("business_id" ∷ []) ("businesses.id" ∷ []) (some "CASCADE")
      ∷ foreign_key ("tier_id" ∷ []) ("subscription_tiers.id" ∷ []) none
      ∷ primary_key ("id" ∷ [])
      ∷ unique_key ("business_id" ∷ []) none
      ∷ unique_key ("paystack_subscription_code" ∷ []) none
      ∷ [];
}

abbrev usage_meters : Table
usage_meters = record {
  name = "usage_meters";
  columns =
      column "id" uuid false none
      ∷ column "business_id" uuid false none
      ∷ column "metric_name" (string 50) false none
      ∷ column "cycle_start_date" timestamp false none
      ∷ column "cycle_end_date" timestamp false none
      ∷ column "current_usage" integer false none
      ∷ column "created_at" timestamp false (some "now()")
      ∷ column "updated_at" timestamp false (some "now()")
      ∷ [];
  constraints =
      foreign_key ("business_id" ∷ []) ("businesses.id" ∷ []) (some "CASCADE")
      ∷ primary_key ("id" ∷ [])
      ∷ unique_key ("business_id" ∷ "metric_name" ∷ "cycle_start_date" ∷ [])
          (some "uq_business_metric_cycle")
      ∷ [];
}

abbrev business_feature_flags : Table
business_feature_flags = record {
  name = "business_feature_flags";
  columns =
      column "business_id" uuid false none
      ∷ column "flag_id" (string 100) false none
      ∷ column "is_active" boolean false none
      ∷ column "id" uuid false (some "gen_random_uuid()")
      ∷ column "created_at" timestamp false (some "now()")
      ∷ column "updated_at" timestamp false (some "now()")
      ∷ [];
  constraints =
      foreign_key ("business_id" ∷ []) ("businesses.id" ∷ []) (some "CASCADE")
      ∷ foreign_key ("flag_id" ∷ []) ("feature_flags.id" ∷ []) (some "CASCADE")
      ∷ primary_key ("business_id" ∷ "flag_id" ∷ "id" ∷ [])
      ∷ [];
}

abbrev invoices : Table
invoices = record {
  name = "invoices";
  columns =
      column "id" uuid false none
      ∷ column "business_id" uuid false none
      ∷ column "subscription_id" uuid true none
      ∷ column "amount_paid" integer false none
      ∷ column "currency" (string 10) false none
      ∷ column "status" (string 50) false none
      ∷ column "paystack_reference" (string 100) true none
      ∷ column "paid_at" timestamp true none
      ∷ column "created_at" timestamp false none
      ∷ column "updated_at" timestamp false (some "now()")
      ∷ [];
  constraints =
      foreign_key ("business_id" ∷ []) ("businesses.id" ∷ []) (some "CASCADE")
      ∷ foreign_key ("subscription_id" ∷ []) ("subscriptions.id" ∷ []) (some "SET NULL")
      ∷ primary_key ("id" ∷ [])
      ∷ unique_key ("paystack_reference" ∷ []) none
      ∷ [];
}

abbrev pub upgrade : List Operation
upgrade =
    create_table subscription_tiers
    ∷ create_table feature_flags
    ∷ create_table subscriptions
    ∷ create_table usage_meters
    ∷ create_table business_feature_flags
    ∷ create_index "ix_business_feature_flags_id" "business_feature_flags" ("id" ∷ []) false
    ∷ create_table invoices
    ∷ []

abbrev pub downgrade : List Operation
downgrade =
    drop_table "invoices"
    ∷ drop_index "ix_business_feature_flags_id" "business_feature_flags"
    ∷ drop_table "business_feature_flags"
    ∷ drop_table "usage_meters"
    ∷ drop_table "subscriptions"
    ∷ drop_table "feature_flags"
    ∷ drop_table "subscription_tiers"
    ∷ []

abbrev pub phase_10_models : Revision
phase_10_models = record {
  revision = "71148ca9b15e";
  down_revision = (some "953eed12f59b");
  upgrade = upgrade;
  downgrade = downgrade;
}

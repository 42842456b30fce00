-- ===== src/Migrations/AuditColumns.antt =====
-- migrations/versions/3e43bf6a651f_add_apikey_and_update_auditlog.py.
use ops_pilot_be.Prelude.{true, false, none, some, List, [], ◌∷◌}
use ops_pilot_be.Migrations.Operations.{
  Revision, string, uuid, json, column, create_index, drop_index, add_column, drop_column,
  Operation,
}

abbrev pub upgrade : List Operation
upgrade =
    add_column "audit_logs" (column "business_id" uuid true none)
    ∷ add_column "audit_logs" (column "resource_type" (string 50) true none)
    ∷ add_column "audit_logs" (column "before_value" json true none)
    ∷ add_column "audit_logs" (column "after_value" json true none)
    ∷ add_column "audit_logs" (column "severity" (string 20) false (some "INFO"))
    ∷ create_index "ix_audit_logs_actor_id" "audit_logs" ("actor_id" ∷ []) false
    ∷ create_index "ix_audit_logs_business_id" "audit_logs" ("business_id" ∷ []) false
    ∷ create_index "ix_audit_logs_module" "audit_logs" ("module" ∷ []) false
    ∷ []

abbrev pub downgrade : List Operation
downgrade =
    drop_index "ix_audit_logs_module" "audit_logs"
    ∷ drop_index "ix_audit_logs_business_id" "audit_logs"
    ∷ drop_index "ix_audit_logs_actor_id" "audit_logs"
    ∷ drop_column "audit_logs" "severity"
    ∷ drop_column "audit_logs" "after_value"
    ∷ drop_column "audit_logs" "before_value"
    ∷ drop_column "audit_logs" "resource_type"
    ∷ drop_column "audit_logs" "business_id"
    ∷ []

abbrev pub update_auditlog : Revision
update_auditlog = record {
  revision = "3e43bf6a651f";
  down_revision = (some "39ac1e823fed");
  upgrade = upgrade;
  downgrade = downgrade;
}

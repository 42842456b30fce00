-- ===== src/Migrations/WorkflowsTables.antt =====
-- migrations/versions/8cd821e5f04a_create_workflows_tables.py.
use ops_pilot_be.Prelude.{true, false, none, some, List, [], ◌∷◌}
use ops_pilot_be.Migrations.Operations.{
  Table, Revision, string, uuid, jsonb, boolean, timestamp, column, primary_key, foreign_key,
  create_table, drop_table, create_index, drop_index, Operation,
}

abbrev workflows : Table
workflows = record {
  name = "workflows";
  columns =
      column "name" (string 100) false none
      ∷ column "description" (string 255) true none
      ∷ column "trigger_type" (string 50) false none
      ∷ column "is_active" boolean false none
      ∷ column "conditions" jsonb false none
      ∷ column "actions" jsonb false none
      ∷ column "log_depth" (string 20) false none
      ∷ column "business_id" uuid false none
      ∷ column "id" uuid false (some "gen_random_uuid()")
      ∷ column "created_at" timestamp false (some "now()")
      ∷ column "updated_at" timestamp false (some "now()")
      ∷ [];
  constraints =
      foreign_key ("business_id" ∷ []) ("businesses.id" ∷ []) (some "CASCADE")
      ∷ primary_key ("id" ∷ [])
      ∷ [];
}

abbrev workflow_execution_logs : Table
workflow_execution_logs = record {
  name = "workflow_execution_logs";
  columns =
      column "workflow_id" uuid false none
      ∷ column "business_id" uuid false none
      ∷ column "status" (string 20) false none
      ∷ column "error_message" (string 255) true none
      ∷ column "id" uuid false (some "gen_random_uuid()")
      ∷ column "created_at" timestamp false (some "now()")
      ∷ column "updated_at" timestamp false (some "now()")
      ∷ [];
  constraints =
      foreign_key ("workflow_id" ∷ []) ("workflows.id" ∷ []) (some "CASCADE")
      ∷ primary_key ("id" ∷ [])
      ∷ [];
}

abbrev pub upgrade : List Operation
upgrade =
    create_table workflows
    ∷ create_index "ix_workflow_lookup" "workflows"
        ("business_id" ∷ "trigger_type" ∷ "is_active" ∷ []) false
    ∷ create_index "ix_workflows_business_id" "workflows" ("business_id" ∷ []) false
    ∷ create_index "ix_workflows_id" "workflows" ("id" ∷ []) false
    ∷ create_table workflow_execution_logs
    ∷ create_index "ix_workflow_execution_logs_business_id" "workflow_execution_logs"
        ("business_id" ∷ []) false
    ∷ create_index "ix_workflow_execution_logs_id" "workflow_execution_logs" ("id" ∷ []) false
    ∷ create_index "ix_workflow_execution_logs_workflow_id" "workflow_execution_logs"
        ("workflow_id" ∷ []) false
    ∷ []

abbrev pub downgrade : List Operation
downgrade =
    drop_index "ix_workflow_execution_logs_workflow_id" "workflow_execution_logs"
    ∷ drop_index "ix_workflow_execution_logs_id" "workflow_execution_logs"
    ∷ drop_index "ix_workflow_execution_logs_business_id" "workflow_execution_logs"
    ∷ drop_table "workflow_execution_logs"
    ∷ drop_index "ix_workflows_id" "workflows"
    ∷ drop_index "ix_workflows_business_id" "workflows"
    ∷ drop_index "ix_workflow_lookup" "workflows"
    ∷ drop_table "workflows"
    ∷ []

abbrev pub workflows_tables : Revision
workflows_tables = record {
  revision = "8cd821e5f04a";
  down_revision = (some "3a528661ceea");
  upgrade = upgrade;
  downgrade = downgrade;
}

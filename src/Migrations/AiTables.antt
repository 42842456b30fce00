-- ===== src/Migrations/AiTables.antt =====
-- migrations/versions/953eed12f59b_add_ai_models.py.
use ops_pilot_be.Prelude.{true, false, none, some, List, [], ◌∷◌}
use ops_pilot_be.Migrations.Operations.{
  Table, Revision, string, uuid, text, boolean, integer, timestamp, vector, column, primary_key,
  create_table, drop_table, create_index, drop_index, Operation,
}

abbrev ai_memories : Table
ai_memories = record {
  name = "ai_memories";
  columns =
      column "business_id" uuid true none
      ∷ column "user_id" uuid true none
      ∷ column "context_key" (string 255) false none
      ∷ column "content" text false none
      ∷ column "embedding" (vector 768) true none
      ∷ column "id" uuid false (some "gen_random_uuid()")
      ∷ column "created_at" timestamp false (some "now()")
      ∷ column "updated_at" timestamp false (some "now()")
      ∷ [];
  constraints = primary_key ("id" ∷ []) ∷ [];
}

abbrev prompt_templates : Table
prompt_templates = record {
  name = "prompt_templates";
  columns =
      column "name" (string 255) false none
      ∷ column "description" text true none
      ∷ column "system_prompt" text false none
      ∷ column "version" integer false none
      ∷ column "is_active" boolean false none
      ∷ column "id" uuid false (some "gen_random_uuid()")
      ∷ column "created_at" timestamp false (some "now()")
      ∷ column "updated_at" timestamp false (some "now()")
      ∷ [];
  constraints = primary_key ("id" ∷ []) ∷ [];
}

abbrev pub upgrade : List Operation
upgrade =
    create_table ai_memories
    ∷ create_index "ix_ai_memories_business_id" "ai_memories" ("business_id" ∷ []) false
    ∷ create_index "ix_ai_memories_context_key" "ai_memories" ("context_key" ∷ []) false
    ∷ create_index "ix_ai_memories_id" "ai_memories" ("id" ∷ []) false
    ∷ create_index "ix_ai_memories_user_id" "ai_memories" ("user_id" ∷ []) false
    ∷ create_table prompt_templates
    ∷ create_index "ix_prompt_templates_id" "prompt_templates" ("id" ∷ []) false
    ∷ create_index "ix_prompt_templates_name" "prompt_templates" ("name" ∷ []) false
    ∷ []

abbrev pub downgrade : List Operation
downgrade =
    drop_index "ix_prompt_templates_name" "prompt_templates"
    ∷ drop_index "ix_prompt_templates_id" "prompt_templates"
    ∷ drop_table "prompt_templates"
    ∷ drop_index "ix_ai_memories_user_id" "ai_memories"
    ∷ drop_index "ix_ai_memories_id" "ai_memories"
    ∷ drop_index "ix_ai_memories_context_key" "ai_memories"
    ∷ drop_index "ix_ai_memories_business_id" "ai_memories"
    ∷ drop_table "ai_memories"
    ∷ []

abbrev pub ai_models : Revision
ai_models = record {
  revision = "953eed12f59b";
  down_revision = (some "05dfc82d6d7f");
  upgrade = upgrade;
  downgrade = downgrade;
}

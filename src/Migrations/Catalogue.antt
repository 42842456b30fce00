-- ===== src/Migrations/Catalogue.antt =====
-- On the tables that migrations/versions creates.
use ops_pilot_be.Prelude.{
  ◌≡◌, refl, Bool, true, false, ◌&&◌, ◌||◌, List, [], ◌∷◌, String, ◌==◌, string_eq, Result, ok,
  bind-ok, arith, all, any, contains, not, All, All-of_all,
}
use ops_pilot_be.Migrations.Operations.{
  create_table, execute, Operation, Revision, run, upgrade_path,
}
use ops_pilot_be.Migrations.Dependencies.{drops}
use ops_pilot_be.Migrations.Phase3Tables.{phase_3_tables}
use ops_pilot_be.Migrations.WorkflowsTables.{workflows_tables}
use ops_pilot_be.Migrations.SoftDelete.{super_admin_role_and_soft_delete}
use ops_pilot_be.Migrations.AuditColumns.{update_auditlog}
use ops_pilot_be.Migrations.Pgvector.{pgvector_extension}
use ops_pilot_be.Migrations.AiTables.{ai_models}
use ops_pilot_be.Migrations.Phase10Tables.{phase_10_models}
use ops_pilot_be.Migrations.InvoicesIndex.{index_to_invoices_business_id}

-- All revisions, each after the one that it names as `down_revision`.
abbrev pub revisions : List Revision
revisions =
    phase_3_tables ∷ workflows_tables ∷ super_admin_role_and_soft_delete ∷ update_auditlog
    ∷ pgvector_extension ∷ ai_models ∷ phase_10_models ∷ index_to_invoices_business_id ∷ []

-- `APIKey.__tablename__`
abbrev pub api_keys_tablename : String
api_keys_tablename = "api_keys"

abbrev pub creates : String → Operation → Bool
creates x (create_table t) = t.name == x
creates x _ = false

-- The statements in SQL that create and drop no table.
abbrev pub is_harmless : Operation → Bool
is_harmless (execute statement) = contains statement (
    "COMMIT" ∷ "ALTER TYPE user_role ADD VALUE 'super_admin'"
    ∷ "ALTER TYPE user_role ADD VALUE 'SUPER_ADMIN'" ∷ "CREATE EXTENSION IF NOT EXISTS vector;"
    ∷ [])
is_harmless _ = true

-- Only `create_table` makes a table, and only `drop_table` or a statement in SQL removes one.
abbrev pub TracksTables :
    {S E : Type 0} → (Operation → S → Result E S) → (S → String → Bool) → Type 0
TracksTables {S} apply has =
    (x : String) (o : Operation) (s s' : S)
    → is_harmless o ≡ true
    → drops x o ≡ false
    → apply o s ≡ ok s'
    → has s' x ≡ (creates x o || has s x)

-- The other tables that the models declare.
abbrev pub other_tablenames : List String
other_tablenames =
    "audit_logs" ∷ "businesses" ∷ "users" ∷ "ai_logs" ∷ "customers" ∷ "notifications" ∷ "orders"
    ∷ "payments" ∷ "workflows" ∷ "workflow_execution_logs" ∷ "ai_memories" ∷ "prompt_templates"
    ∷ "subscription_tiers" ∷ "feature_flags" ∷ "subscriptions" ∷ "usage_meters"
    ∷ "business_feature_flags" ∷ "invoices" ∷ []

or_swap : (a b c : Bool) → (a || (b || c)) ≡ ((b || a) || c)
or_swap true true c = refl
or_swap true false c = refl
or_swap false true c = refl
or_swap false false c = refl

abbrev keeps_table : String → Operation → Bool
keeps_table x o = is_harmless o && not (drops x o)

abbrev path_keeps : String → List Revision → Bool
path_keeps x rs = all (λ (r : Revision). all (keeps_table x) r.upgrade) rs

abbrev path_creates : String → List Revision → Bool
path_creates x rs = any (λ (r : Revision). any (creates x) r.upgrade) rs

module _ {S E : Type 0} (apply : Operation → S → Result E S) (has : S → String → Bool)
    (tracks : TracksTables apply has) where
  run-has :
      (x : String) (os : List Operation) (s s' : S)
      → all (keeps_table x) os ≡ true
      → run apply os s ≡ ok s'
      → has s' x ≡ (any (creates x) os || has s x)
  unfolding run
  run-has x [] s s' h e = let same : s ≡ s' = cc in rw (← same) refl
  run-has x (o ∷ os) s s' h e =
      let (m, first, rest) = bind-ok (apply o s) (run apply os) s' e in
      let later = run-has x os m s' (ground arith) rest in
      let now = tracks x o s m (ground arith) (ground arith) first in
      rw (later, now) (or_swap (any (creates x) os) (creates x o) (has s x))

  path-has :
      (x : String) (rs : List Revision) (s s' : S)
      → path_keeps x rs ≡ true
      → upgrade_path apply rs s ≡ ok s'
      → has s' x ≡ (path_creates x rs || has s x)
  unfolding upgrade_path
  path-has x [] s s' h e = let same : s ≡ s' = cc in rw (← same) refl
  path-has x (r ∷ rs) s s' h e =
      let (m, first, rest) = bind-ok (run apply r.upgrade s) (upgrade_path apply rs) s' e in
      rw (path-has x rs m s' (ground arith) rest, run-has x r.upgrade s m (ground arith) first)
        (or_swap (path_creates x rs) (any (creates x) r.upgrade) (has s x))

  -- If of the operations in these upgrades only `create_table` makes a table and none but
  -- `drop_table` removes one, then a database on which all revisions went through has each of the
  -- eighteen other tables of the models, and has the table api_keys only if it had it before.
  pub upgrade_path-tables :
      (s s' : S)
      → upgrade_path apply revisions s ≡ ok s'
      → (has s' api_keys_tablename ≡ has s api_keys_tablename)
        × All (λ x. has s' x ≡ true) other_tablenames
  upgrade_path-tables s s' e = (
    path-has api_keys_tablename revisions s s' refl e,
    All-of_all (λ x. path_keeps x revisions && path_creates x revisions) (λ x. has s' x ≡ true)
        other_tablenames
        (λ x h.
          let created : path_creates x revisions ≡ true = ground arith in
          rw (path-has x revisions s s' (ground arith) e, created) refl)
        refl,
  )

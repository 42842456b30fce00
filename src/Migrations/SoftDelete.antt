-- ===== src/Migrations/SoftDelete.antt =====
-- migrations/versions/39ac1e823fed_add_super_admin_role_and_soft_delete.py.
use ops_pilot_be.Prelude.{true, false, none, some, List, [], ◌∷◌}
use ops_pilot_be.Migrations.Operations.{
  Revision, boolean, timestamp, column, add_column, drop_column, execute, Operation,
}

abbrev pub upgrade : List Operation
upgrade =
    execute "COMMIT"
    ∷ execute "ALTER TYPE user_role ADD VALUE 'super_admin'"
    ∷ execute "ALTER TYPE user_role ADD VALUE 'SUPER_ADMIN'"
    ∷ add_column "businesses" (column "is_active" boolean false (some "true"))
    ∷ add_column "businesses" (column "deleted_at" timestamp true none)
    ∷ add_column "users" (column "deleted_at" timestamp true none)
    ∷ []

abbrev pub downgrade : List Operation
downgrade =
    drop_column "users" "deleted_at"
    ∷ drop_column "businesses" "deleted_at"
    ∷ drop_column "businesses" "is_active"
    ∷ []

abbrev pub super_admin_role_and_soft_delete : Revision
super_admin_role_and_soft_delete = record {
  revision = "39ac1e823fed";
  down_revision = (some "8cd821e5f04a");
  upgrade = upgrade;
  downgrade = downgrade;
}

-- ===== src/Migrations/Pgvector.antt =====
-- migrations/versions/05dfc82d6d7f_add_pgvector_extension.py.
use ops_pilot_be.Prelude.{some, List, [], ◌∷◌}
use ops_pilot_be.Migrations.Operations.{Revision, execute, Operation}

abbrev pub upgrade : List Operation
upgrade = execute "CREATE EXTENSION IF NOT EXISTS vector;" ∷ []

abbrev pub downgrade : List Operation
downgrade = execute "DROP EXTENSION IF EXISTS vector;" ∷ []

abbrev pub pgvector_extension : Revision
pgvector_extension = record {
  revision = "05dfc82d6d7f";
  down_revision = (some "3e43bf6a651f");
  upgrade = upgrade;
  downgrade = downgrade;
}

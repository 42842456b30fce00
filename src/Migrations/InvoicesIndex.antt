-- ===== src/Migrations/InvoicesIndex.antt =====
-- migrations/versions/d8bda6ba8e6e_add_index_to_invoices_business_id.py.
use ops_pilot_be.Prelude.{false, some, List, [], ◌∷◌}
use ops_pilot_be.Migrations.Operations.{Revision, create_index, drop_index, Operation}

abbrev pub upgrade : List Operation
upgrade = create_index "ix_invoices_business_id" "invoices" ("business_id" ∷ []) false ∷ []

abbrev pub downgrade : List Operation
downgrade = drop_index "ix_invoices_business_id" "invoices" ∷ []

abbrev pub index_to_invoices_business_id : Revision
index_to_invoices_business_id = record {
  revision = "d8bda6ba8e6e";
  down_revision = (some "71148ca9b15e");
  upgrade = upgrade;
  downgrade = downgrade;
}

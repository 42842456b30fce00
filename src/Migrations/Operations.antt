-- ===== src/Migrations/Operations.antt =====
-- What the files of migrations/versions are made of: the operations of Alembic, as data. What an
-- operation does to a database is Alembic's and PostgreSQL's, and enters as an argument.
use ops_pilot_be.Prelude.{ℕ, Bool, Option, List, [], ◌∷◌, String, Result, ok, ◌>>=◌}

-- The types of columns. Every enum comes with its check constraint.
pub data SqlType : Type 0 where
  uuid text json jsonb boolean integer timestamp : SqlType
  string vector : ℕ → SqlType
  numeric : ℕ → ℕ → SqlType
  enum : String → List String → SqlType

-- Name, type, whether it may be null, and the default of the server.
pub data Column : Type 0 where
  column : String → SqlType → Bool → Option String → Column

-- The columns; those that a foreign key refers to, with what a deletion does; the name of a unique
-- constraint, if it has one.
pub data Constraint : Type 0 where
  primary_key : List String → Constraint
  unique_key : List String → Option String → Constraint
  foreign_key : List String → List String → Option String → Constraint

pub record Table : Type 0 where
  pub name : String
  pub columns : List Column
  pub constraints : List Constraint

-- An index has its name, table, columns and uniqueness; a foreign key its name, the two tables, the
-- two lists of columns and what a deletion does.
pub data Operation : Type 0 where
  create_table : Table → Operation
  drop_table : String → Operation
  create_index : String → String → List String → Bool → Operation
  drop_index : String → String → Operation
  add_column : String → Column → Operation
  drop_column : String → String → Operation
  create_foreign_key :
      String → String → String → List String → List String → Option String → Operation
  execute : String → Operation

-- One file: its identifiers and its two functions.
pub record Revision : Type 0 where
  pub revision : String
  pub down_revision : Option String
  pub upgrade : List Operation
  pub downgrade : List Operation

-- The calls of one function, in order; the first that raises ends it.
module _ {S E : Type 0} (apply : Operation → S → Result E S) where
  unfoldable pub run : List Operation → S → Result E S
  run [] s = ok s
  run (o ∷ os) s = do t ← apply o s; run os t

  -- Revisions from an older one to a newer one.
  unfoldable pub upgrade_path : List Revision → S → Result E S
  unfolding run
  upgrade_path [] s = ok s
  upgrade_path (r ∷ rs) s = do t ← run r.upgrade s; upgrade_path rs t

  -- The same revisions, undone from the last one on.
  unfoldable pub downgrade_path : List Revision → S → Result E S
  unfolding run
  downgrade_path [] s = ok s
  downgrade_path (r ∷ rs) s = do t ← downgrade_path rs s; run r.downgrade t

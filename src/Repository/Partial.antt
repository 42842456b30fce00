-- ===== src/Repository/Partial.antt =====
-- Partial updates: the `model_dump(exclude_unset=True)` of an update's schema, set field by field.
use ops_pilot_be.Prelude.{Bool, true, false, Option, none, some, String}

-- A field of an update: left out, or given, perhaps as null.
pub data Given : Type 0 where
  unset : Given
  given : Option String → Given

-- `setattr` for a text column, and for a column that takes null.
abbrev pub set_text : Given → String → String
set_text (given (some v)) old = v
set_text _ old = old

abbrev pub set_nullable : Given → Option String → Option String
set_nullable unset old = old
set_nullable (given v) old = v

-- A null in a column that is not nullable is refused by the database.
abbrev pub is_null_given : Given → Bool
is_null_given (given none) = true
is_null_given _ = false

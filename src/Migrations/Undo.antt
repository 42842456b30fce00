-- ===== src/Migrations/Undo.antt =====
-- On the downgrades of migrations/versions that take their upgrade back.
use ops_pilot_be.Prelude.{
  ◌≡◌, refl, Bool, true, false, List, [], ◌∷◌, ◌++◌, String, Result, ok, err, ◌>>=◌, bind-ok, sym,
  result-cases, inl, inr, All, arith, all,
}
use ops_pilot_be.Migrations.Operations.{
  enum, Column, column, Table, Revision, create_table, drop_table, create_index, drop_index,
  add_column, drop_column, create_foreign_key, execute, Operation, run, upgrade_path,
  downgrade_path,
}
use ops_pilot_be.Migrations.WorkflowsTables.{workflows_tables}
use ops_pilot_be.Migrations.AuditColumns.{update_auditlog}
use ops_pilot_be.Migrations.AiTables.{ai_models}
use ops_pilot_be.Migrations.Phase10Tables.{phase_10_models}
use ops_pilot_be.Migrations.InvoicesIndex.{index_to_invoices_business_id}

-- A column whose type is no enum: PostgreSQL keeps the type of an enum when its table is dropped.
abbrev pub is_plain : Column → Bool
is_plain (column _ (enum _ _) _ _) = false
is_plain _ = true

abbrev pub column_name : Column → String
column_name (column name _ _ _) = name

-- The operation that takes a creation back, if there is one.
abbrev inverse : Operation → List Operation
inverse (create_table t) = drop_table t.name ∷ []
inverse (create_index name table _ _) = drop_index name table ∷ []
inverse (add_column table c) = drop_column table (column_name c) ∷ []
inverse _ = []

abbrev undo : List Operation → List Operation
undo [] = []
undo (o ∷ os) = undo os ++ inverse o

abbrev is_undone : Operation → Bool
is_undone (create_table t) = all is_plain t.columns
is_undone (create_index _ _ _ _) = true
is_undone (add_column _ c) = is_plain c
is_undone _ = false

-- Dropping what was just created gives the database back that was there before.
pub record Restoring {S E : Type 0} (apply : Operation → S → Result E S) : Type 0 where
  pub table :
      (t : Table) (s s' : S)
      → all is_plain t.columns ≡ true
      → apply (create_table t) s ≡ ok s'
      → apply (drop_table t.name) s' ≡ ok s
  pub index :
      (name on : String) (columns : List String) (unique : Bool) (s s' : S)
      → apply (create_index name on columns unique) s ≡ ok s'
      → apply (drop_index name on) s' ≡ ok s
  pub new_column :
      (on : String) (c : Column) (s s' : S)
      → is_plain c ≡ true
      → apply (add_column on c) s ≡ ok s'
      → apply (drop_column on (column_name c)) s' ≡ ok s

-- Where the revisions go through, undoing them gives the database back.
abbrev pub GivesBack :
    {S E : Type 0} → (Operation → S → Result E S) → List Revision → S → Result E S → Type 0
GivesBack apply rs s (ok s') = downgrade_path apply rs s' ≡ ok s
GivesBack apply rs s (err _) = Unit {0}

abbrev pub Restores : {S E : Type 0} → (Operation → S → Result E S) → List Revision → S → Type 0
Restores apply rs s = GivesBack apply rs s (upgrade_path apply rs s)

-- The downgrade of a revision takes every step of its upgrade back, the last one first.
abbrev IsReversible : Revision → Type 0
IsReversible r = (all is_undone r.upgrade ≡ true) × (r.downgrade ≡ undo r.upgrade)

module _ {S E : Type 0} (apply : Operation → S → Result E S) where
  run-append :
      (xs ys : List Operation) (s : S) → run apply (xs ++ ys) s ≡ (run apply xs s >>= run apply ys)
  unfolding run
  run-append [] ys s = refl
  run-append (o ∷ xs) ys s = elim (result-cases (apply o s)) [
    | inl (x, h) ↦ rw h refl
    | inr (t, h) ↦ rw h (run-append xs ys t)
  ]

  module _ (restoring : Restoring apply) where
    run-inverse :
        (o : Operation) (s s' : S)
        → is_undone o ≡ true
        → apply o s ≡ ok s'
        → run apply (inverse o) s' ≡ ok s
    unfolding run
    run-inverse (create_table t) s s' h e = rw (restoring.table t s s' h e) refl
    run-inverse (create_index n on cs u) s s' h e = rw (restoring.index n on cs u s s' e) refl
    run-inverse (add_column on c) s s' h e = rw (restoring.new_column on c s s' h e) refl
    run-inverse (drop_table _) s s' h e = cc
    run-inverse (drop_index _ _) s s' h e = cc
    run-inverse (drop_column _ _) s s' h e = cc
    run-inverse (create_foreign_key _ _ _ _ _ _) s s' h e = cc
    run-inverse (execute _) s s' h e = cc

    run-undo :
        (os : List Operation) (s s' : S)
        → all is_undone os ≡ true
        → run apply os s ≡ ok s'
        → run apply (undo os) s' ≡ ok s
    run-undo [] s s' h e = unfold run in sym e
    run-undo (o ∷ os) s s' h e =
        let (t, first, rest) = bind-ok (apply o s) (run apply os) s' (unfold run in e) in
        let undone = run-undo os t s' (ground arith) rest in
        rw (run-append (undo os) (inverse o) s', undone) (run-inverse o s t (ground arith) first)

    unwound :
        (rs : List Revision)
        → All IsReversible rs
        → (s s' : S) → upgrade_path apply rs s ≡ ok s'
        → downgrade_path apply rs s' ≡ ok s
    unfolding upgrade_path downgrade_path
    unwound [] h s s' e = sym e
    unwound (r ∷ rs) ((undone, same), h) s s' e =
        let (t, first, rest) = bind-ok (run apply r.upgrade s) (upgrade_path apply rs) s' e in
        rw (unwound rs h t s' rest, same) (run-undo r.upgrade s t undone first)

    path-Restores : (rs : List Revision) → All IsReversible rs → (s : S) → Restores apply rs s
    path-Restores rs h s = go rs h s (upgrade_path apply rs s) refl
      where
        go :
            (rs : List Revision)
            → All IsReversible rs
            → (s : S) (r : Result E S) → upgrade_path apply rs s ≡ r
            → GivesBack apply rs s r
        go rs h s (err _) e = tt
        go rs h s (ok s') e = unwound rs h s s' e

    -- If dropping a table or a column that has no enum, or an index, gives back the database before
    -- it was created, then where the upgrades go through, the downgrades go through and give back
    -- the database from before, for the revision of the workflow tables, for that of the audit
    -- columns, and for the AI models, the phase 10 models and the invoices index in a row.
    pub downgrade-Restores :
        (s : S)
        → Restores apply (workflows_tables ∷ []) s
          × Restores apply (update_auditlog ∷ []) s
          × Restores apply (ai_models ∷ phase_10_models ∷ index_to_invoices_business_id ∷ []) s
    downgrade-Restores s = (
      path-Restores (workflows_tables ∷ []) ((refl, refl), tt) s,
      path-Restores (update_auditlog ∷ []) ((refl, refl), tt) s,
      path-Restores (ai_models ∷ phase_10_models ∷ index_to_invoices_business_id ∷ [])
          ((refl, refl), ((refl, refl), ((refl, refl), tt))) s,
    )

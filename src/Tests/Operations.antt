-- ===== src/Tests/Operations.antt =====
-- Migrations and the middleware stack, on concrete databases and requests.
use ops_pilot_be.Prelude.{
  ◌≡◌, refl, Bool, true, false, ◌&&◌, not, List, [], ◌∷◌, String, Result, ok, err, if◌then◌else◌,
  ◌==◌, string_eq, eq_iff, any, filter, contains, All, Bool-cases, inl, inr, arith,
}
use ops_pilot_be.Migrations.Operations.{
  Operation, Table, Column, create_table, drop_table, create_index, drop_index, add_column,
  drop_column, create_foreign_key, execute, run, upgrade_path,
}
use ops_pilot_be.Migrations.Undo.{Restoring, Restores, column_name, downgrade-Restores}
use ops_pilot_be.Migrations.Dependencies.{makes_key, drops, may_free, initial_downgrade-fails}
use ops_pilot_be.Migrations.Catalogue.{
  TracksTables, api_keys_tablename, other_tablenames, upgrade_path-tables,
}
use ops_pilot_be.Migrations.Phase3Tables.{phase_3_tables}
use ops_pilot_be.Migrations.WorkflowsTables.{workflows_tables}
use ops_pilot_be.Migrations.AuditColumns.{update_auditlog}
use ops_pilot_be.Migrations.AiTables.{ai_models}
use ops_pilot_be.Migrations.Phase10Tables.{phase_10_models}
use ops_pilot_be.Migrations.InvoicesIndex.{index_to_invoices_business_id}

-- A database as the creations that made it.
abbrev takes_back : Operation → Operation → Bool
takes_back (drop_table n) (create_table t) = t.name == n
takes_back (drop_index n on) (create_index m table _ _) = m == n && table == on
takes_back (drop_column on n) (add_column table c) = table == on && column_name c == n
takes_back _ _ = false

abbrev history : Operation → List Operation → Result String (List Operation)
history o [] = ok (o ∷ [])
history o (p ∷ s) = ok (if takes_back o p then s else o ∷ p ∷ s)

self : (t : String) → (t == t) ≡ true
self t = (eq_iff t t).1 refl

history-table :
    (t : Table) (s s' : List Operation)
    → history (create_table t) s ≡ ok s'
    → history (drop_table t.name) s' ≡ ok s
history-table t [] s' e = let made : s' ≡ create_table t ∷ [] = cc in rw (made, self t.name) refl
history-table t (p ∷ s) s' e =
    let made : s' ≡ create_table t ∷ p ∷ s = cc in rw (made, self t.name) refl

history-index :
    (name on : String) (columns : List String) (unique : Bool) (s s' : List Operation)
    → history (create_index name on columns unique) s ≡ ok s'
    → history (drop_index name on) s' ≡ ok s
history-index n on cs u [] s' e =
    let made : s' ≡ create_index n on cs u ∷ [] = cc in rw (made, self n, self on) refl
history-index n on cs u (p ∷ s) s' e =
    let made : s' ≡ create_index n on cs u ∷ p ∷ s = cc in rw (made, self n, self on) refl

history-column :
    (on : String) (c : Column) (s s' : List Operation)
    → history (add_column on c) s ≡ ok s'
    → history (drop_column on (column_name c)) s' ≡ ok s
history-column on c [] s' e =
    let made : s' ≡ add_column on c ∷ [] = cc in rw (made, self on, self (column_name c)) refl
history-column on c (p ∷ s) s' e =
    let made : s' ≡ add_column on c ∷ p ∷ s = cc in rw (made, self on, self (column_name c)) refl

history-Restoring : Restoring history
history-Restoring = record {
  table = λ t s s' _ e. history-table t s s' e;
  index = history-index;
  new_column = λ on c s s' _ e. history-column on c s s' e;
}

downgrade-Restores_example :
    Restores history (workflows_tables ∷ []) []
    × Restores history (update_auditlog ∷ []) []
    × Restores history (ai_models ∷ phase_10_models ∷ index_to_invoices_business_id ∷ []) []
downgrade-Restores_example = downgrade-Restores history history-Restoring []

-- A database that only knows its tables, and drops none.
abbrev tables_only : Operation → List String → Result String (List String)
tables_only (create_table t) s = ok (t.name ∷ s)
tables_only (drop_table _) s = err "permission denied"
tables_only _ s = ok s

tables_only-Tracks : TracksTables tables_only (λ s x. contains x s)
tables_only-Tracks x (create_table t) s s' h d e = let made : s' ≡ t.name ∷ s = cc in rw made refl
tables_only-Tracks x (drop_table _) s s' h d e = cc
tables_only-Tracks x (create_index _ _ _ _) s s' h d e = let same : s' ≡ s = cc in rw same refl
tables_only-Tracks x (drop_index _ _) s s' h d e = let same : s' ≡ s = cc in rw same refl
tables_only-Tracks x (add_column _ _) s s' h d e = let same : s' ≡ s = cc in rw same refl
tables_only-Tracks x (drop_column _ _) s s' h d e = let same : s' ≡ s = cc in rw same refl
tables_only-Tracks x (create_foreign_key _ _ _ _ _ _) s s' h d e =
    let same : s' ≡ s = cc in rw same refl
tables_only-Tracks x (execute _) s s' h d e = let same : s' ≡ s = cc in rw same refl

abbrev migrated : List String
migrated =
    "invoices" ∷ "business_feature_flags" ∷ "usage_meters" ∷ "subscriptions" ∷ "feature_flags"
    ∷ "subscription_tiers" ∷ "prompt_templates" ∷ "ai_memories" ∷ "workflow_execution_logs"
    ∷ "workflows" ∷ "payments" ∷ "orders" ∷ "notifications" ∷ "customers" ∷ "ai_logs" ∷ "users"
    ∷ "businesses" ∷ "audit_logs" ∷ []

upgrade_path-tables_example :
    (contains api_keys_tablename migrated ≡ contains api_keys_tablename [])
    × All (λ x. contains x migrated ≡ true) other_tablenames
unfolding upgrade_path
upgrade_path-tables_example =
    upgrade_path-tables tables_only (λ s x. contains x s) tables_only-Tracks [] migrated refl

-- A database as its foreign keys, each from the first table to the second.
abbrev Keys : Type 0
Keys = List (String × String)

abbrev refers : Keys → String → String → Bool
refers s t u = any (λ (k : String × String). k.0 == t && k.1 == u) s

abbrev is_held : String → Keys → Bool
is_held u s = any (λ (k : String × String). k.1 == u && not (k.0 == u)) s

abbrev without : String → Keys → Keys
without u s = filter (λ (k : String × String). not (k.0 == u)) s

abbrev keys_only : Operation → Keys → Result String Keys
keys_only (create_foreign_key _ t u _ _ _) s = ok ((t, u) ∷ s)
keys_only (drop_table u) s =
    if is_held u s then err "other objects depend on it" else ok (without u s)
keys_only _ s = ok s

refers-without :
    (t u x : String) (s : Keys)
    → (x == t) ≡ false
    → refers s t u ≡ true
    → refers (without x s) t u ≡ true
refers-without t u x [] ne r = cc
refers-without t u x ((a, b) ∷ s) ne r = elim (Bool-cases (a == x)) [
  | inl here ↦
      let same : a ≡ x = (eq_iff a x).0 here in
      let apart : (a == t) ≡ false = rw same ne in
      rw here (refers-without t u x s ne (ground (arith, apart)))
  | inr other ↦ elim (Bool-cases (a == t && b == u)) [
    | inl found ↦ rw (other, found) refl
    | inr not_it ↦ rw (other, not_it) (refers-without t u x s ne (ground (arith, not_it)))
  ]
]

refers-is_held :
    (t u : String) (s : Keys) → (u == t) ≡ false → refers s t u ≡ true → is_held u s ≡ true
refers-is_held t u [] ne r = cc
refers-is_held t u ((a, b) ∷ s) ne r = elim (Bool-cases (a == t && b == u)) [
  | inl found ↦ elim (Bool-cases (a == u)) [
    | inl bad ↦
        let au : a ≡ u = (eq_iff a u).0 bad in
        let at_ : a ≡ t = (eq_iff a t).0 (ground arith) in
        let loop : (u == t) ≡ true = (eq_iff u t).1 (cc) in cc
    | inr apart ↦ rw apart (ground (arith, found))
  ]
  | inr not_it ↦ let rest = refers-is_held t u s ne (ground (arith, not_it)) in ground (arith, rest)
]

keys_only-made :
    (t u : String) (o : Operation) (s s' : Keys)
    → makes_key t u o ≡ true
    → keys_only o s ≡ ok s'
    → refers s' t u ≡ true
keys_only-made t u (create_foreign_key _ a b _ _ _) s s' h e =
    let made : s' ≡ (a, b) ∷ s = cc in rw (made, h) refl
keys_only-made t u (create_table _) s s' h e = cc
keys_only-made t u (drop_table _) s s' h e = cc
keys_only-made t u (create_index _ _ _ _) s s' h e = cc
keys_only-made t u (drop_index _ _) s s' h e = cc
keys_only-made t u (add_column _ _) s s' h e = cc
keys_only-made t u (drop_column _ _) s s' h e = cc
keys_only-made t u (execute _) s s' h e = cc

keys_only-kept :
    (t u : String) (o : Operation) (s s' : Keys)
    → may_free t o ≡ false
    → keys_only o s ≡ ok s'
    → refers s t u ≡ true
    → refers s' t u ≡ true
keys_only-kept t u (drop_table x) s s' h e r = elim (Bool-cases (is_held x s)) [
  | inl held ↦ cc (rw held at e)
  | inr free ↦
      let left : s' ≡ without x s = cc (rw free at e) in rw left (refers-without t u x s h r)
]
keys_only-kept t u (create_foreign_key _ a b _ _ _) s s' h e r =
    let made : s' ≡ (a, b) ∷ s = cc in rw (made) (ground (arith, r))
keys_only-kept t u (create_table _) s s' h e r = let same : s' ≡ s = cc in rw same r
keys_only-kept t u (create_index _ _ _ _) s s' h e r = let same : s' ≡ s = cc in rw same r
keys_only-kept t u (drop_index _ _) s s' h e r = let same : s' ≡ s = cc in rw same r
keys_only-kept t u (add_column _ _) s s' h e r = let same : s' ≡ s = cc in rw same r
keys_only-kept t u (drop_column _ _) s s' h e r = let same : s' ≡ s = cc in rw same r
keys_only-kept t u (execute _) s s' h e r = let same : s' ≡ s = cc in rw same r

keys_only-guarded :
    (t u : String) (o : Operation) (s : Keys)
    → (u == t) ≡ false
    → drops u o ≡ true
    → refers s t u ≡ true
    → (e : String) × (keys_only o s ≡ err e)
keys_only-guarded t u (drop_table x) s ne h r =
    let same : x ≡ u = (eq_iff x u).0 h in
    ("other objects depend on it", rw (same, refers-is_held t u s ne r) refl)
keys_only-guarded t u (create_foreign_key _ _ _ _ _ _) s ne h r = cc
keys_only-guarded t u (create_table _) s ne h r = cc
keys_only-guarded t u (create_index _ _ _ _) s ne h r = cc
keys_only-guarded t u (drop_index _ _) s ne h r = cc
keys_only-guarded t u (add_column _ _) s ne h r = cc
keys_only-guarded t u (drop_column _ _) s ne h r = cc
keys_only-guarded t u (execute _) s ne h r = cc

initial_downgrade-fails_example :
    (e : String) × (run keys_only phase_3_tables.downgrade (("businesses", "users") ∷ []) ≡ err e)
unfolding run
initial_downgrade-fails_example =
    initial_downgrade-fails keys_only refers
      (record { made = keys_only-made; kept = keys_only-kept; guarded = keys_only-guarded }) []
      (("businesses", "users") ∷ []) refl

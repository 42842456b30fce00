-- ===== src/Migrations/Dependencies.antt =====
-- On the downgrade of migrations/versions/3a528661ceea_add_phase_3_tables.py.
use ops_pilot_be.Prelude.{
  ◌≡◌, refl, inl, inr, Bool, true, false, ◌&&◌, ◌||◌, not, List, [], ◌∷◌, String, ◌==◌, string_eq,
  Result, ok, err, bind-ok, bind-err, result-cases, Bool-cases, arith, all,
}
use ops_pilot_be.Migrations.Operations.{
  drop_table, drop_column, create_foreign_key, execute, Operation, run,
}
use ops_pilot_be.Migrations.Phase3Tables.{phase_3_tables}

-- The operation gives table `t` a foreign key to table `u`.
abbrev pub makes_key : String → String → Operation → Bool
makes_key t u (create_foreign_key _ t' u' _ _ _) = t' == t && u' == u
makes_key t u _ = false

abbrev pub drops : String → Operation → Bool
drops u (drop_table t) = t == u
drops u _ = false

-- The operation may take a foreign key of table `t` away.
abbrev pub may_free : String → Operation → Bool
may_free t (drop_column t' _) = t' == t
may_free t (execute _) = true
may_free t o = drops t o

-- `refers s t u`: table `t` has a foreign key to table `u`. It is there once it is made and stays until
-- it or its table is dropped, and no other table can be dropped while one refers to it.
pub record ForeignKeys {S E : Type 0} (apply : Operation → S → Result E S)
    (refers : S → String → String → Bool) : Type 0 where
  pub made :
      (t u : String) (o : Operation) (s s' : S)
      → makes_key t u o ≡ true
      → apply o s ≡ ok s'
      → refers s' t u ≡ true
  pub kept :
      (t u : String) (o : Operation) (s s' : S)
      → may_free t o ≡ false
      → apply o s ≡ ok s'
      → refers s t u ≡ true
      → refers s' t u ≡ true
  pub guarded :
      (t u : String) (o : Operation) (s : S)
      → (u == t) ≡ false
      → drops u o ≡ true
      → refers s t u ≡ true
      → (e : E) × (apply o s ≡ err e)

abbrev holds_on : String → List Operation → Bool
holds_on t os = all (λ o. not (may_free t o)) os

-- Some operation makes the foreign key and none after it may take it away.
abbrev leaves_key : String → String → List Operation → Bool
leaves_key t u [] = false
leaves_key t u (o ∷ os) = (makes_key t u o && holds_on t os) || leaves_key t u os

-- Table `u` is dropped before any operation may take the foreign key away.
abbrev runs_into : String → String → List Operation → Bool
runs_into t u [] = false
runs_into t u (o ∷ os) = drops u o || (not (may_free t o) && runs_into t u os)

module _ {S E : Type 0} (apply : Operation → S → Result E S) (refers : S → String → String → Bool)
    (keys : ForeignKeys apply refers) where
  run-kept :
      (t u : String) (os : List Operation) (s s' : S)
      → holds_on t os ≡ true
      → run apply os s ≡ ok s'
      → refers s t u ≡ true
      → refers s' t u ≡ true
  unfolding run
  run-kept t u [] s s' h e r = let same : s ≡ s' = cc in rw (← same) r
  run-kept t u (o ∷ os) s s' h e r =
      let (m, first, rest) = bind-ok (apply o s) (run apply os) s' e in
      run-kept t u os m s' (ground arith) rest (keys.kept t u o s m (ground arith) first r)

  run-leaves :
      (t u : String) (os : List Operation) (s s' : S)
      → leaves_key t u os ≡ true
      → run apply os s ≡ ok s'
      → refers s' t u ≡ true
  unfolding run
  run-leaves t u [] s s' h e = cc
  run-leaves t u (o ∷ os) s s' h e =
      let (m, first, rest) = bind-ok (apply o s) (run apply os) s' e in
      elim (Bool-cases (makes_key t u o && holds_on t os)) [
        | inl here ↦
            run-kept t u os m s' (ground arith) rest (keys.made t u o s m (ground arith) first)
        | inr later ↦ run-leaves t u os m s' (ground arith) rest
      ]

  run-err :
      (t u : String) (os : List Operation) (s : S)
      → (u == t) ≡ false
      → runs_into t u os ≡ true
      → refers s t u ≡ true
      → (e : E) × (run apply os s ≡ err e)
  unfolding run
  run-err t u [] s ne h r = cc
  run-err t u (o ∷ os) s ne h r = elim (Bool-cases (drops u o)) [
    | inl here ↦ bind-err (apply o s) (run apply os) (keys.guarded t u o s ne here r)
    | inr later ↦ elim (result-cases (apply o s)) [
      | inl (x, e) ↦ (x, rw e refl)
      | inr (m, e) ↦
          rw e (run-err t u os m ne (ground arith) (keys.kept t u o s m (ground arith) e r))
    ]
  ]

  -- If a foreign key lasts until it or its table is dropped and no other table can be dropped while
  -- one refers to it, then the first revision's downgrade raises on every database to which its
  -- upgrade has led.
  pub initial_downgrade-fails :
      (s s' : S)
      → run apply phase_3_tables.upgrade s ≡ ok s'
      → (e : E) × (run apply phase_3_tables.downgrade s' ≡ err e)
  initial_downgrade-fails s s' e =
      run-err "businesses" "users" phase_3_tables.downgrade s' refl refl
        (run-leaves "businesses" "users" phase_3_tables.upgrade s s' refl e)

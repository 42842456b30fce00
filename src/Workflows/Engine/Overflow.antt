-- ===== src/Workflows/Engine/Overflow.antt =====
-- On what `evaluate_condition` of app/modules/workflows/engine.py may raise.
use ops_pilot_be.Prelude.{
  ◌≡◌, refl, ◌⊎◌, inl, inr, Bool, true, false, List, [], ◌∷◌, String, Result, ok, err, contains,
  not, ◌&&◌, ◌==◌, string_eq, if◌then◌else◌,
}
use ops_pilot_be.Exceptions.{Error, overflow_error}
use ops_pilot_be.Workflows.Conditions.{
  Value, FloatCast, float, no_number, too_large, Python, Condition, numeric, test, is_null, text,
  truth, evaluate_condition, get_nested_value,
}
use ops_pilot_be.Workflows.Engine.{matches}

-- A Boolean, or an `OverflowError`.
abbrev pub Answers : Result Error Bool → Type 0
Answers r = ((b : Bool) × (r ≡ ok b)) ⊎ (r ≡ err overflow_error)

if-Answers :
    {x y : Result Error Bool} (c : Bool) → Answers x → Answers y → Answers (if c then x else y)
if-Answers true h k = h
if-Answers false h k = k

module _ (py : Python) where
  numeric-Answers : (op : String) (x y : FloatCast py.Float) → Answers (numeric py op x y)
  numeric-Answers op no_number y = inl (false, refl)
  numeric-Answers op too_large y = inr refl
  numeric-Answers op (float x) no_number = inl (false, refl)
  numeric-Answers op (float x) too_large = inr refl
  numeric-Answers op (float x) (float y) = inl (_, refl)

  test-Answers : (op : String) (val target : Value) → Answers (test py op val target)
  unfolding test
  test-Answers op val target =
      if-Answers (is_null val && not (contains op ("is_true" ∷ "is_false" ∷ "ne" ∷ [])))
        (inl (false, refl))
        (if-Answers (op == "eq") (inl (text py val == text py target, refl)) (
          if-Answers (op == "ne") (inl (not (text py val == text py target), refl)) (
            if-Answers (op == "is_true") (inl (truth py val, refl)) (
              if-Answers (op == "is_false") (inl (not (truth py val), refl)) (
                if-Answers (op == "contains")
                  (inl (py.occurs_in (text py target) (text py val), refl))
                  (if-Answers
                    (contains op ("gt" ∷ "ge" ∷ "lt" ∷ "le" ∷ [])
                      && (not (is_null val) && not (is_null target)))
                    (numeric-Answers op (py.to_float val) (py.to_float target))
                    (inl (false, refl))))))))

  pub matches-Answers :
      (payload : Value) (cs : List Condition) → Answers (matches (evaluate_condition py payload) cs)
  unfolding matches evaluate_condition
  matches-Answers payload [] = inl (true, refl)
  matches-Answers payload (c ∷ cs) =
      elim (test-Answers c.operator (get_nested_value py payload c.path) c.value) [
        | inr e ↦ inr (rw e refl)
        | inl (b, e) ↦ rw e (if-Answers b (matches-Answers payload cs) (inl (false, refl)))
      ]

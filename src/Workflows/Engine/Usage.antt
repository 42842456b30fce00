-- ===== src/Workflows/Engine/Usage.antt =====
-- On sequences of workflow runs and the usage limit (app/modules/workflows/engine.py).
use ops_pilot_be.Prelude.{
  inl, inr, ℕ, ◌≡◌, ◌⊎◌, refl, Option, none, some, List, [], ◌∷◌, String, Result, ok, err,
  Bool-cases, ap, ok_injective, nat_eq, ◌==◌, nat_beq_iff, bind-ok, result-cases, map, All, Bool,
}
use ops_pilot_be.Exceptions.{Error, ErrorClass, ops, overflow_error}
use ops_pilot_be.Workflows.Engine.Overflow.{matches-Answers}
use ops_pilot_be.Repository.{Uuid}
use ops_pilot_be.Metering.{
  MeterTables, check_usage_limit, increment_usage, tier_limit, get_business_tier,
}
use ops_pilot_be.Metering.Cycle.{DateTime, IsTime}
use ops_pilot_be.Metering.Usage.{IsValid, increment_usage-IsValid}
use ops_pilot_be.Metering.Limit.{
  Within, check_usage_limit-answers, check_usage_limit-metric, increment_usage-Within_unrelated,
  increment_usage-Within, increment_usage-Within_other,
}
use ops_pilot_be.Workflows.Conditions.{Value, Python, evaluate_condition}
use ops_pilot_be.Workflows.Engine.{
  Workflow, State, matches, failures_in, count_tokens, settle, run_actions, after_check, inc,
  is_all, logs_errors, evaluate_and_run_workflow,
}
use ops_pilot_be.Workflows.Engine.Accounts.{log_if-rest}

-- A run and its time.
pub record Run : Type 0 where
  pub now : DateTime
  pub workflow : Workflow
  pub payload : Value

module _ {W : Type 0} (gather : Workflow → Value → W → List (Option String) × List ℕ × W)
    (cut : String → String) (str_of : Error → String) (py : Python) where
  abbrev pub metric : String
  metric = "workflow_executions"

  -- What the evaluation of a run's conditions raises, if it raises.
  abbrev pub raised : Result Error Bool → Option Error
  raised (ok b) = none
  raised (err e) = some e

  abbrev pub raised_by : Run → Option Error
  raised_by r = raised (matches (evaluate_condition py r.payload) r.workflow.conditions)

  -- What a run raises, and the state that it leaves: one that raises has not changed anything.
  abbrev pub ended : State W → Result Error (State W) → Option Error × State W
  ended s (ok s') = (none, s')
  ended s (err e) = (some e, s)

  -- One run after the other, whether or not an earlier one raised.
  unfoldable pub run_all : List Run → State W → List (Option Error) × State W
  run_all [] s = ([], s)
  run_all (r ∷ rs) s =
      let (o, s') =
        ended s (evaluate_and_run_workflow gather cut str_of py r.now r.workflow r.payload s) in
      let (os, t) = run_all rs s' in (o ∷ os, t)

  -- A run either leaves the meters alone, or has passed the check: then its actions may count
  -- tokens, and the run is counted or not.
  abbrev CountsIfAllowed : DateTime → Workflow → State W → State W → Type 0
  CountsIfAllowed now w s s' =
      (s'.metering ≡ s.metering)
      ⊎ ((tokens : List ℕ) × (check_usage_limit w.business_id metric 1 now s.metering ≡ ok tt)
          × ((s'.metering ≡ count_tokens w.business_id now tokens s.metering)
              ⊎ (s'.metering
                  ≡ increment_usage w.business_id metric 1 now
                      (count_tokens w.business_id now tokens s.metering))))

  settle-metering :
      (now : DateTime) (w : Workflow) (failures : List String) (s : State W)
      → ((settle gather cut str_of py now w failures s).metering ≡ s.metering)
        ⊎ ((settle gather cut str_of py now w failures s).metering
            ≡ increment_usage w.business_id metric 1 now s.metering)
  unfolding settle
  settle-metering now w [] s = inr (
      ap (increment_usage w.business_id metric 1 now)
        (log_if-rest gather cut str_of py now w "success" none
          (inc gather cut str_of py now "success" s)
          (is_all gather cut str_of py now w.log_depth)).1)
  settle-metering now w (e ∷ es) s =
      inl
        (log_if-rest gather cut str_of py now w "failed" _ (inc gather cut str_of py now "failed" s)
          (logs_errors gather cut str_of py now w.log_depth)).1

  after_check-metering :
      (now : DateTime) (w : Workflow) (payload : Value) (s s' : State W)
      (checked : Result Error (Unit {0}))
      → check_usage_limit w.business_id metric 1 now s.metering ≡ checked
      → after_check gather cut str_of py now w payload checked s ≡ ok s'
      → CountsIfAllowed now w s s'
  unfolding after_check run_actions
  after_check-metering now w payload s s' (ok tt) allowed e = rw (← ok_injective e) (
      inr (
        (gather w payload s.world).1,
        allowed,
        settle-metering now w (failures_in (gather w payload s.world).0) (record s {
          world = (gather w payload s.world).2;
          metering = count_tokens w.business_id now (gather w payload s.world).1 s.metering;
        }),
      ))
  after_check-metering now w payload s s' (err (ops ErrorClass.forbidden d)) allowed e =
      rw (← ok_injective e) (
        inl
          (log_if-rest gather cut str_of py now w "failed" _
            (inc gather cut str_of py now "failed_limit" s)
            (logs_errors gather cut str_of py now w.log_depth)).1)
  after_check-metering now w payload s s' (err _) allowed e = cc

  run-CountsIfAllowed :
      (now : DateTime) (w : Workflow) (payload : Value) (s s' : State W)
      → evaluate_and_run_workflow gather cut str_of py now w payload s ≡ ok s'
      → CountsIfAllowed now w s s'
  unfolding evaluate_and_run_workflow
  run-CountsIfAllowed now w payload s s' e =
      let (matched, _, rest) =
        bind-ok (matches (evaluate_condition py payload) w.conditions) _ s' e in
      elim (Bool-cases matched) [
        | inl hold ↦ after_check-metering now w payload s s' _ refl (rw hold at rest)
        | inr fail ↦ rw (← ok_injective (rw fail at rest)) (
            inl
              (log_if-rest gather cut str_of py now w "skipped" _
                (inc gather cut str_of py now "skipped" s)
                (is_all gather cut str_of py now w.log_depth)).1)
      ]

  -- The meters are valid and within the limit that the business's subscriptions give it.
  pub record Metered (b : Uuid) (limit : ℕ) (db : MeterTables) : Type 0 where
    pub is_valid : IsValid db.meters
    pub tier : tier_limit (get_business_tier b db.subscriptions) metric ≡ some limit
    pub within : Within b metric limit db.meters

  abbrev pub AllAreTimes : List Run → Type 0
  AllAreTimes [] = Unit
  AllAreTimes (r ∷ rs) = IsTime r.now × AllAreTimes rs

  increment-Metered :
      (b : Uuid) (limit : ℕ) (now : DateTime) (w : Workflow) (db : MeterTables)
      → IsTime now
      → check_usage_limit w.business_id metric 1 now db ≡ ok tt
      → Metered b limit db
      → Metered b limit (increment_usage w.business_id metric 1 now db)
  unfolding increment_usage
  increment-Metered b limit now w db h checked m = record {
    is_valid = increment_usage-IsValid w.business_id metric 1 now db m.is_valid;
    tier = m.tier;
    within = elim (Bool-cases (w.business_id == b)) [
      | inl e ↦
          let same : w.business_id ≡ b = (nat_beq_iff _ _).0 e in
          rw same (
            increment_usage-Within b metric limit 1 now db m.is_valid h m.tier (rw same at checked)
              m.within)
      | inr apart ↦
          increment_usage-Within_other b w.business_id metric limit 1 now db apart m.within
    ];
  }

  -- Counting tokens keeps the meters metered, and keeps a passed check passed.
  count_tokens-Metered :
      (b : Uuid) (limit : ℕ) (now : DateTime) (w : Workflow) (tokens : List ℕ) (db : MeterTables)
      → IsTime now
      → check_usage_limit w.business_id metric 1 now db ≡ ok tt
      → Metered b limit db
      → Metered b limit (count_tokens w.business_id now tokens db)
        × (check_usage_limit w.business_id metric 1 now (count_tokens w.business_id now tokens db)
            ≡ ok tt)
  unfolding count_tokens
  count_tokens-Metered b limit now w [] db h checked m = (m, checked)
  count_tokens-Metered b limit now w (n ∷ ns) db h checked m =
      count_tokens-Metered b limit now w ns (increment_usage w.business_id "ai_tokens" n now db) h
        (check_usage_limit-metric w.business_id w.business_id metric "ai_tokens" n now db refl 1
          m.is_valid h checked)
        (record {
          is_valid = increment_usage-IsValid w.business_id "ai_tokens" n now db m.is_valid;
          tier = unfold increment_usage in m.tier;
          within =
              increment_usage-Within_unrelated b w.business_id metric "ai_tokens" n now db refl
                limit m.within;
        })

  CountsIfAllowed-Metered :
      (b : Uuid) (limit : ℕ) (now : DateTime) (w : Workflow) (s s' : State W)
      → IsTime now
      → Metered b limit s.metering
      → CountsIfAllowed now w s s'
      → Metered b limit s'.metering
  CountsIfAllowed-Metered b limit now w s s' h m (inl same) = rw same m
  CountsIfAllowed-Metered b limit now w s s' h m (inr (tokens, allowed, inl kept)) =
      rw kept (count_tokens-Metered b limit now w tokens s.metering h allowed m).0
  CountsIfAllowed-Metered b limit now w s s' h m (inr (tokens, allowed, inr counted)) =
      let (m', allowed') = count_tokens-Metered b limit now w tokens s.metering h allowed m in
      rw counted (
        increment-Metered b limit now w (count_tokens w.business_id now tokens s.metering) h
          allowed' m')

  -- On valid meters a run raises where its conditions do, and nowhere else.
  run-ended :
      (now : DateTime) (w : Workflow) (payload : Value) (s : State W)
      → IsValid s.metering.meters
      → IsTime now
      → (ended s (evaluate_and_run_workflow gather cut str_of py now w payload s)).0
        ≡ raised (matches (evaluate_condition py payload) w.conditions)
  unfolding evaluate_and_run_workflow after_check
  run-ended now w payload s v h =
      elim (result-cases (matches (evaluate_condition py payload) w.conditions)) [
        | inl (x, h1) ↦ rw h1 refl
        | inr (matched, h1) ↦ elim (Bool-cases matched) [
          | inr fail ↦ rw (h1, fail) refl
          | inl hold ↦ elim (check_usage_limit-answers w.business_id metric 1 now s.metering v h) [
            | inl passed ↦ rw (h1, hold, passed) refl
            | inr (detail, over) ↦ rw (h1, hold, over) refl
          ]
        ]
      ]

  ended-Metered :
      (b : Uuid) (limit : ℕ) (r : Run) (s : State W)
      → IsTime r.now
      → Metered b limit s.metering
      → Metered b limit
          (ended s (
            evaluate_and_run_workflow gather cut str_of py r.now r.workflow r.payload s)).1.metering
  ended-Metered b limit r s h m =
      elim (result-cases
        (evaluate_and_run_workflow gather cut str_of py r.now r.workflow r.payload s)) [
          | inl (x, e) ↦ rw e m
          | inr (s', e) ↦ rw e (
              CountsIfAllowed-Metered b limit r.now r.workflow s s' h m
                (run-CountsIfAllowed r.now r.workflow r.payload s s' e))
        ]

  -- If the meters are valid and no month's usage of a business exceeds its tier's limit of workflow
  -- runs, then any sequence of workflow runs, of any businesses and at any times, one after the
  -- other, whether or not an earlier one raised, and with actions that may count AI tokens, leaves
  -- the meters valid and the business within its limit; each run raises exactly what the evaluation
  -- of its conditions raises, and that is nothing or an OverflowError.
  pub run_all-Metered :
      (b : Uuid) (limit : ℕ) (runs : List Run) (s : State W)
      → AllAreTimes runs
      → Metered b limit s.metering
      → Metered b limit (run_all runs s).1.metering
        × ((run_all runs s).0 ≡ map raised_by runs)
        × All (λ o. (o ≡ none) ⊎ (o ≡ some overflow_error)) (map raised_by runs)
  unfolding run_all
  run_all-Metered b limit [] s times m = (m, refl, tt)
  run_all-Metered b limit (r ∷ rs) s (time, times) m =
      let (m', same, only) =
        run_all-Metered b limit rs _ times (ended-Metered b limit r s time m) in
      (
        m',
        rw (run-ended r.now r.workflow r.payload s m.is_valid time, same) refl,
        (
          elim (matches-Answers py r.payload r.workflow.conditions) [
            | inl (x, e) ↦ inl (rw e refl)
            | inr e ↦ inr (rw e refl)
          ],
          only,
        ),
      )

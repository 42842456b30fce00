-- ===== src/Workflows/Engine/Accounts.antt =====
-- On one run of `evaluate_and_run_workflow` (app/modules/workflows/engine.py): counter, log and usage.
use ops_pilot_be.Prelude.{
  ℕ, inl, inr, ◌≡◌, refl, Bool, true, false, Option, none, List, [], ◌∷◌, ◌++◌, append-nil, String,
  Result, ok, err, Bool-cases, bind-ok, sym, ap, ◌∙◌, ok_injective, if◌then◌else◌,
}
use ops_pilot_be.Exceptions.{Error, ErrorClass, ops}
use ops_pilot_be.Metering.{MeterTables, increment_usage}
use ops_pilot_be.Metering.Cycle.{DateTime}
use ops_pilot_be.Workflows.Conditions.{Value, Python, evaluate_condition}
use ops_pilot_be.Workflows.Engine.{
  count_tokens, LogDepth, all, errors_only, none_, Workflow, WorkflowExecutionLog, State, matches,
  settle, run_actions, log_if, inc, is_all, logs_errors, after_check, evaluate_and_run_workflow,
}

-- How a run ends.
pub data Outcome : Type 0 where
  skipped over_limit failed success : Outcome

-- The label of the counter, and the status of the log entry.
abbrev pub label : Outcome → String
label skipped = "skipped"
label over_limit = "failed_limit"
label failed = "failed"
label success = "success"

abbrev pub status_of : Outcome → String
status_of skipped = "skipped"
status_of over_limit = "failed"
status_of failed = "failed"
status_of success = "success"

-- Which outcomes a log depth writes down.
abbrev pub wants : LogDepth → Outcome → Bool
wants all o = true
wants errors_only failed = true
wants errors_only over_limit = true
wants errors_only o = false
wants none_ o = false

abbrev pub entries : Workflow → Outcome → Option String → List WorkflowExecutionLog
entries w o message =
    if wants w.log_depth o
    then record {
      workflow_id = w.id;
      business_id = w.business_id;
      status = status_of o;
      error_message = message;
    }
      ∷ []
    else []

module _ {W : Type 0} (gather : Workflow → Value → W → List (Option String) × List ℕ × W)
    (cut : String → String) (str_of : Error → String) (py : Python) (now : DateTime) where
  -- What an outcome does to the metering and to the rest of the database.
  abbrev pub metered : Workflow → Value → Outcome → W → MeterTables → MeterTables
  metered w payload success x db =
      increment_usage w.business_id "workflow_executions" 1 now
        (count_tokens w.business_id now (gather w payload x).1 db)
  metered w payload failed x db = count_tokens w.business_id now (gather w payload x).1 db
  metered w payload _ x db = db

  abbrev pub acted : Workflow → Value → Outcome → W → W
  acted w payload skipped x = x
  acted w payload over_limit x = x
  acted w payload _ x = (gather w payload x).2

  pub record Accounts (w : Workflow) (payload : Value) (s s' : State W) : Type 0 where
    pub outcome : Outcome
    pub message : Option String
    pub counted : s'.executions ≡ s.executions ++ label outcome ∷ []
    pub logged : s'.logs ≡ s.logs ++ entries w outcome message
    pub metering : s'.metering ≡ metered w payload outcome s.world s.metering
    pub world : s'.world ≡ acted w payload outcome s.world

  module _ (w : Workflow) (status : String) (message : Option String) (s : State W) where
    log_if-logs :
        (b : Bool)
        → (log_if gather cut str_of py now b w status message s).logs
          ≡ s.logs
            ++ (if b
                then record {
                  workflow_id = w.id;
                  business_id = w.business_id;
                  status = status;
                  error_message = message;
                }
                  ∷ []
                else [])
    log_if-logs true = refl
    log_if-logs false = sym (append-nil s.logs)

    pub log_if-rest :
        (b : Bool)
        → ((log_if gather cut str_of py now b w status message s).executions ≡ s.executions)
          × ((log_if gather cut str_of py now b w status message s).metering ≡ s.metering)
          × ((log_if gather cut str_of py now b w status message s).world ≡ s.world)
    log_if-rest true = (refl, refl, refl)
    log_if-rest false = (refl, refl, refl)

  is_all-wants :
      (d : LogDepth)
      → (is_all gather cut str_of py now d ≡ wants d success)
        × (is_all gather cut str_of py now d ≡ wants d skipped)
  is_all-wants all = (refl, refl)
  is_all-wants errors_only = (refl, refl)
  is_all-wants none_ = (refl, refl)

  logs_errors-wants :
      (d : LogDepth)
      → (logs_errors gather cut str_of py now d ≡ wants d failed)
        × (logs_errors gather cut str_of py now d ≡ wants d over_limit)
  logs_errors-wants all = (refl, refl)
  logs_errors-wants errors_only = (refl, refl)
  logs_errors-wants none_ = (refl, refl)

  -- A state that was counted and logged as the outcome says, from one with the outcome's effects.
  logged-Accounts :
      (w : Workflow) (payload : Value) (s middle : State W) (o : Outcome) (message : Option String)
      (b : Bool)
      → b ≡ wants w.log_depth o
      → middle.executions ≡ s.executions ++ label o ∷ []
      → middle.logs ≡ s.logs
      → middle.metering ≡ metered w payload o s.world s.metering
      → middle.world ≡ acted w payload o s.world
      → Accounts w payload s (log_if gather cut str_of py now b w (status_of o) message middle)
  logged-Accounts w payload s middle o message b e counted kept metering world =
      let (r1, r2, r3) = log_if-rest w (status_of o) message middle b in
      record {
        outcome = o;
        message = message;
        counted = r1 ∙ counted;
        logged = log_if-logs w (status_of o) message middle b ∙ rw (e, kept) refl;
        metering = r2 ∙ metering;
        world = r3 ∙ world;
      }

  settle-Accounts :
      (w : Workflow) (payload : Value) (s : State W) (failures : List String)
      → Accounts w payload s (
          settle gather cut str_of py now w failures (record s {
            world = (gather w payload s.world).2;
            metering = count_tokens w.business_id now (gather w payload s.world).1 s.metering;
          }))
  unfolding settle
  settle-Accounts w payload s (e ∷ es) =
      logged-Accounts w payload s _ failed _ _ (logs_errors-wants w.log_depth).0 refl refl refl refl
  settle-Accounts w payload s [] =
      let middle = inc gather cut str_of py now "success" (record s {
        world = (gather w payload s.world).2;
        metering = count_tokens w.business_id now (gather w payload s.world).1 s.metering;
      }) in
      let b = is_all gather cut str_of py now w.log_depth in
      let (r1, r2, r3) = log_if-rest w "success" none middle b in
      record {
        outcome = success;
        message = none;
        counted = r1;
        logged = log_if-logs w "success" none middle b ∙ rw (is_all-wants w.log_depth).0 refl;
        metering = ap (increment_usage w.business_id "workflow_executions" 1 now) r2;
        world = r3;
      }

  after_check-Accounts :
      (w : Workflow) (payload : Value) (s s' : State W) (checked : Result Error (Unit {0}))
      → after_check gather cut str_of py now w payload checked s ≡ ok s'
      → Accounts w payload s s'
  unfolding after_check run_actions
  after_check-Accounts w payload s s' (ok u) e =
      rw (← ok_injective e) (settle-Accounts w payload s _)
  after_check-Accounts w payload s s' (err (ops ErrorClass.forbidden d)) e = rw (← ok_injective e) (
      logged-Accounts w payload s _ over_limit _ _ (logs_errors-wants w.log_depth).1 refl refl refl
        refl)
  after_check-Accounts w payload s s' (err _) e = cc

  -- A workflow run that returns has one of four outcomes (skipped, over the limit, failed, success):
  -- it adds that outcome's label to the execution counter, adds the one log entry that the log depth
  -- wants for the outcome or none, lets the actions count tokens and change the database exactly if
  -- they ran, and counts the run itself once exactly on success.
  pub evaluate_and_run_workflow-Accounts :
      (w : Workflow) (payload : Value) (s s' : State W)
      → evaluate_and_run_workflow gather cut str_of py now w payload s ≡ ok s'
      → Accounts w payload s s'
  unfolding evaluate_and_run_workflow
  evaluate_and_run_workflow-Accounts w payload s s' e =
      let (matched, _, rest) =
        bind-ok (matches (evaluate_condition py payload) w.conditions) _ s' e in
      elim (Bool-cases matched) [
        | inl hold ↦ after_check-Accounts w payload s s' _ (rw hold at rest)
        | inr fail ↦ rw (← ok_injective (rw fail at rest)) (
            logged-Accounts w payload s _ skipped _ _ (is_all-wants w.log_depth).1 refl refl refl
              refl)
      ]

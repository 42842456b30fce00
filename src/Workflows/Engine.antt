-- ===== src/Workflows/Engine.antt =====
-- `evaluate_and_run_workflow` of app/modules/workflows/engine.py, with the tables of
-- app/modules/workflows/models.py. The actions run concurrently under `asyncio.gather`; what they
-- answer, the amounts of `ai_tokens` that they count, and what they do to the rest of the database
-- are the parameter `gather`.
pub mod Overflow
pub mod Accounts
pub mod Usage
use Prim.Native.String
use ops_pilot_be.Prelude.{
  ℕ, ◌+◌, Bool, true, false, not, Option, none, some, List, [], ◌∷◌, ◌++◌, String, string_eq,
  Result, ok, err, ◌>>=◌, if◌then◌else◌,
}
use ops_pilot_be.Exceptions.{Error, ErrorClass, ops}
use ops_pilot_be.Repository.{Uuid}
use ops_pilot_be.Metering.{MeterTables, check_usage_limit, increment_usage}
use ops_pilot_be.Metering.Cycle.{DateTime}
use ops_pilot_be.Workflows.Conditions.{Value, Condition, Python, evaluate_condition}

pub data LogDepth : Type 0 where
  all errors_only none_ : LogDepth

pub record Action : Type 0 where
  pub type : String
  pub params : Value

pub record Workflow : Type 0 where
  pub id : Uuid
  pub business_id : Uuid
  pub name : String
  pub description : Option String
  pub trigger_type : String
  pub is_active : Bool
  pub conditions : List Condition
  pub actions : List Action
  pub log_depth : LogDepth

pub record WorkflowExecutionLog : Type 0 where
  pub workflow_id : Uuid
  pub business_id : Uuid
  pub status : String
  pub error_message : Option String

-- `W` is the rest of the database, which actions may change.
pub record State (W : Type 0) : Type 0 where
  pub world : W
  pub metering : MeterTables
  pub logs : List WorkflowExecutionLog
  -- the labels that `workflow_executions_total` was counted up with, oldest first
  pub executions : List String

-- The loop over the conditions, which stops at the first that does not hold.
unfoldable pub matches : (Condition → Result Error Bool) → List Condition → Result Error Bool
matches holds [] = ok true
matches holds (c ∷ cs) =
    let rest = matches holds cs in do hold ← holds c; if hold then rest else ok false

-- `"; ".join(...)`
abbrev pub join_errors : List String → String
join_errors [] = ""
join_errors (e ∷ []) = e
join_errors (e ∷ es) = String.◌++◌ e (String.◌++◌ "; " (join_errors es))

-- The exceptions among the results of the actions.
abbrev pub failures_in : List (Option String) → List String
failures_in [] = []
failures_in (none ∷ rs) = failures_in rs
failures_in (some e ∷ rs) = e ∷ failures_in rs

-- What the actions count of the metric `ai_tokens`, one amount after the other.
unfoldable pub count_tokens : Uuid → DateTime → List ℕ → MeterTables → MeterTables
count_tokens b now [] db = db
count_tokens b now (n ∷ ns) db = count_tokens b now ns (increment_usage b "ai_tokens" n now db)

module _ {W : Type 0} (gather : Workflow → Value → W → List (Option String) × List ℕ × W)
    (cut : String → String) (str_of : Error → String) (py : Python) (now : DateTime) where
  -- A log entry, where `depth in depths`.
  abbrev pub log_if : Bool → Workflow → String → Option String → State W → State W
  log_if false w status message s = s
  log_if true w status message s = record s {
    logs =
        s.logs
        ++ record {
          workflow_id = w.id;
          business_id = w.business_id;
          status = status;
          error_message = message;
        }
          ∷ [];
  }

  abbrev pub is_all : LogDepth → Bool
  is_all all = true
  is_all _ = false

  abbrev pub logs_errors : LogDepth → Bool
  logs_errors none_ = false
  logs_errors _ = true

  abbrev pub inc : String → State W → State W
  inc label s = record s { executions = s.executions ++ label ∷ [] }

  -- After the actions: the failures, or the success and its count.
  unfoldable pub settle : Workflow → List String → State W → State W
  settle w [] s =
      let s' = log_if (is_all w.log_depth) w "success" none (inc "success" s) in
      record s' { metering = increment_usage w.business_id "workflow_executions" 1 now s'.metering }
  settle w (e ∷ es) s =
      log_if (logs_errors w.log_depth) w "failed" (some (cut (join_errors (e ∷ es))))
        (inc "failed" s)

  unfoldable pub run_actions : Workflow → Value → State W → State W
  unfolding settle
  run_actions w payload s =
      let done = gather w payload s.world in
      settle w (failures_in done.0)
        (record s { world = done.2; metering = count_tokens w.business_id now done.1 s.metering })

  -- The metering check: only a `ForbiddenError` is caught.
  unfoldable pub after_check :
      Workflow → Value → Result Error (Unit {0}) → State W → Result Error (State W)
  unfolding run_actions
  after_check w payload (ok _) s = ok (run_actions w payload s)
  after_check w payload (err (ops ErrorClass.forbidden detail)) s = ok (
      log_if (logs_errors w.log_depth) w "failed" (some (str_of (ops ErrorClass.forbidden detail)))
        (inc "failed_limit" s))
  after_check w payload (err e) s = err e

  unfoldable pub evaluate_and_run_workflow : Workflow → Value → State W → Result Error (State W)
  unfolding matches after_check
  evaluate_and_run_workflow w payload s = do
    matched ← matches (evaluate_condition py payload) w.conditions
    if matched
        then after_check w payload
            (check_usage_limit w.business_id "workflow_executions" 1 now s.metering) s
        else ok (
            log_if (is_all w.log_depth) w "skipped" (some "Trigger conditions not met.")
              (inc "skipped" s))

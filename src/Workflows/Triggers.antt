-- ===== src/Workflows/Triggers.antt =====
-- `handle_system_workflow_trigger` of app/modules/workflows/triggers.py as it runs in testing mode:
-- the rules one after the other.
use ops_pilot_be.Prelude.{ℕ, Bool, Option, none, some, List, [], ◌∷◌, String, ok, err}
use ops_pilot_be.Exceptions.{Error}
use ops_pilot_be.Repository.{Uuid}
use ops_pilot_be.Auth.Models.{Time}
use ops_pilot_be.Metering.Cycle.{DateTime}
use ops_pilot_be.Workflows.Conditions.{Value, Python}
use ops_pilot_be.Workflows.Engine.{Workflow, State, evaluate_and_run_workflow}
use ops_pilot_be.Workflows.Rules.{RuleStore, get_active_workflows_cached}

module _ {W : Type 0} (gather : Workflow → Value → W → List (Option String) × List ℕ × W)
    (cut : String → String) (str_of : Error → String) (py : Python) (now : DateTime) where
  -- An exception ends the loop, and is only logged.
  unfoldable pub run_rules : List Workflow → Value → State W → State W
  run_rules [] payload s = s
  run_rules (w ∷ ws) payload s =
      elim (evaluate_and_run_workflow gather cut str_of py now w payload s) [
        | err e ↦ s
        | ok s' ↦ run_rules ws payload s'
      ]

  -- `business_id` is the one of the payload, if it is there and a UUID; `at_` is the time of the read.
  unfoldable pub handle_system_workflow_trigger :
      Bool → Bool → Time → Option Uuid → String → Value → RuleStore × State W → RuleStore × State W
  unfolding run_rules get_active_workflows_cached
  handle_system_workflow_trigger reads writes at_ none event_type payload (store, s) = (store, s)
  handle_system_workflow_trigger reads writes at_ (some b) event_type payload (store, s) =
      let (rules, store') = get_active_workflows_cached reads writes at_ b event_type store in
      (store', run_rules rules payload s)

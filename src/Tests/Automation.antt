-- ===== src/Tests/Automation.antt =====
-- Metering and workflows, on concrete inputs.
use ops_pilot_be.Prelude.{
  ℕ, ◌≡◌, ◌+◌, refl, true, ◌⊎◌, Option, none, some, map, All, List, [], ◌∷◌, String, ok, arith,
  string_eq, nat_eq, ◌==◌, ltb,
}
use ops_pilot_be.Exceptions.{Error, overflow_error}
use ops_pilot_be.Repository.{get_one_by, scalar_one_or_none}
use ops_pilot_be.Metering.{
  MeterTables, current_usage, get_current_meter, check_limit, check_usage_limit, increment_usage,
  tier_limit, get_business_tier,
}
use ops_pilot_be.Metering.Cycle.{DateTime, IsTime, days_in_month}
use ops_pilot_be.Metering.Usage.{IsValid, increment_usage-adds}
use ops_pilot_be.Workflows.Conditions.{
  Value, dict, field, end, str, num, null, Python, too_large, evaluate_condition, get_nested_value,
  test, walk, split_from, get,
}
use ops_pilot_be.Workflows.Templates.{resolve_string, substitute, match_at, replacer, value_text}
use ops_pilot_be.Workflows.Engine.{
  count_tokens, all, Workflow, State, evaluate_and_run_workflow, matches, after_check, run_actions,
  settle,
}
use ops_pilot_be.Workflows.Engine.Accounts.{Accounts, evaluate_and_run_workflow-Accounts}
use ops_pilot_be.Workflows.Engine.Usage.{Run, Metered, raised_by, run_all, run_all-Metered}

-- January of the year 2026, its first second.
abbrev pub january : DateTime
january = record { month = 24312; instant = 1000000 }

pub january-IsTime : IsTime january
unfolding days_in_month
january-IsTime = omega arith

abbrev pub no_meters : MeterTables
no_meters = record { subscriptions = []; meters = [] }

pub no_meters-IsValid : IsValid no_meters.meters
no_meters-IsValid = record { monthly = tt; one = λ b metric start. omega arith }

increment_usage-adds_example :
    current_usage 5 "workflow_executions" january
      (increment_usage 5 "workflow_executions" 3 january no_meters).meters
    ≡ ok (0 + 3)
unfolding current_usage get_current_meter get_one_by scalar_one_or_none
increment_usage-adds_example =
    increment_usage-adds 5 "workflow_executions" 3 january january no_meters 0 no_meters-IsValid
      january-IsTime january-IsTime refl refl

-- A Python whose texts are compared as they stand and that has no floats.
abbrev text_of : Value → String
text_of (str s) = s
text_of _ = ""

abbrev pub plain : Python
plain = record {
  Float = ℕ;
  to_str = text_of;
  lower = λ s. s;
  strip = λ s. s;
  occurs_in = λ a b. a == b;
  num_truth = λ s. true;
  to_float = λ v. too_large;
  float_lt = λ x y. ltb x y;
  float_eq = λ x y. x == y;
}

abbrev pub on_lagos : Workflow
on_lagos = record {
  id = 11;
  business_id = 5;
  name = "Lagos";
  description = none;
  trigger_type = "order.created";
  is_active = true;
  conditions = record { path = "customer.city"; operator = "eq"; value = str "Lagos" } ∷ [];
  actions = record { type = "send_notification"; params = null } ∷ [];
  log_depth = all;
}

abbrev payload : Value
payload = dict (field "customer" (dict (field "city" (str "Lagos") end)) end)

-- The action succeeds, counts 40 tokens and adds one to the state.
abbrev succeeding : Workflow → Value → ℕ → List (Option String) × List ℕ × ℕ
succeeding w p n = (none ∷ [], 40 ∷ [], n + 1)

abbrev start : State ℕ
start = record { world = 0; metering = no_meters; logs = []; executions = [] }

abbrev keep : String → String
keep s = s

abbrev no_text : Error → String
no_text e = ""

abbrev after : State ℕ
after = record {
  world = 1;
  metering =
      increment_usage 5 "workflow_executions" 1 january
        (increment_usage 5 "ai_tokens" 40 january no_meters);
  logs =
      record { workflow_id = 11; business_id = 5; status = "success"; error_message = none } ∷ [];
  executions = "success" ∷ [];
}

evaluate_and_run_workflow-Accounts_example :
    Accounts succeeding keep no_text plain january on_lagos payload start after
unfolding evaluate_and_run_workflow matches evaluate_condition get_nested_value test walk split_from
    get after_check run_actions settle count_tokens check_usage_limit check_limit current_usage
    get_current_meter get_one_by scalar_one_or_none tier_limit get_business_tier
evaluate_and_run_workflow-Accounts_example =
    evaluate_and_run_workflow-Accounts succeeding keep no_text plain january on_lagos payload start
      after refl

start-Metered : Metered succeeding keep no_text plain 5 50 no_meters
unfolding tier_limit get_business_tier
start-Metered = record { is_valid = no_meters-IsValid; tier = refl; within = tt }

-- The same rule with a condition on a number that no float holds.
abbrev on_number : Workflow
on_number = record on_lagos {
  conditions = record { path = "customer.city"; operator = "gt"; value = num "1" } ∷ [];
}

abbrev both_rules : List Run
both_rules =
    record { now = january; workflow = on_number; payload = payload }
    ∷ record { now = january; workflow = on_lagos; payload = payload }
    ∷ []

abbrev both_ended : List (Option Error) × State ℕ
both_ended = run_all succeeding keep no_text plain both_rules start

run_all-Metered_example :
    Metered succeeding keep no_text plain 5 50 both_ended.1.metering
    × (both_ended.0 ≡ map (raised_by succeeding keep no_text plain) both_rules)
    × All
        (λ o. (o ≡ none) ⊎ (o ≡ some overflow_error))
        (map (raised_by succeeding keep no_text plain) both_rules)
run_all-Metered_example =
    run_all-Metered succeeding keep no_text plain 5 50 both_rules start
      (january-IsTime, (january-IsTime, tt)) start-Metered

-- The first run raises, the second is counted.
both_rules-raise : both_ended.0 ≡ some overflow_error ∷ none ∷ []
unfolding run_all evaluate_and_run_workflow matches evaluate_condition get_nested_value test walk
    split_from get after_check run_actions settle count_tokens check_usage_limit check_limit
    current_usage get_current_meter get_one_by scalar_one_or_none tier_limit get_business_tier
both_rules-raise = refl

-- A key in braces gives way to the value at its path.
greets_city : resolve_string plain "Hi {{customer.city}}!" payload ≡ "Hi Lagos!"
unfolding resolve_string substitute match_at replacer value_text get_nested_value walk split_from
    get
greets_city = refl

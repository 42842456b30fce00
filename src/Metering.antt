-- ===== src/Metering.antt =====
-- app/modules/metering (service.py, repository.py, models.py): usage per business and metric in the
-- current calendar month, against the limits of the business's tier.
pub mod Cycle
pub mod Usage
pub mod Limit
use Prim.Native.String
use ops_pilot_be.Prelude.{
  ℕ, ◌+◌, Bool, ◌&&◌, Option, none, some, List, [], ◌∷◌, ◌++◌, String, string_eq, nat_eq, ◌==◌,
  Result, ok, ◌>>=◌, raise_if, if◌then◌else◌, ltb, find,
}
use ops_pilot_be.Exceptions.{Error, ops, ErrorClass}
use ops_pilot_be.Repository.{Uuid, get_one_by}
use ops_pilot_be.Metering.Cycle.{DateTime, le_time, get_current_cycle, same_time}

pub record Subscription : Type 0 where
  pub business_id : Uuid
  pub tier_id : String
  pub status : String

pub record UsageMeter : Type 0 where
  pub business_id : Uuid
  pub metric_name : String
  pub cycle_start : DateTime
  pub cycle_end : DateTime
  pub current_usage : ℕ

pub record MeterTables : Type 0 where
  pub subscriptions : List Subscription
  pub meters : List UsageMeter

-- `TIER_LIMITS.get(tier, {}).get(metric_name)`
abbrev of_metric : ℕ → ℕ → String → Option ℕ
of_metric ai_tokens workflow_executions metric =
    if metric == "ai_tokens"
    then some ai_tokens
    else if metric == "workflow_executions"
    then some workflow_executions
    else none

unfoldable pub tier_limit : String → String → Option ℕ
tier_limit tier metric =
    if tier == "free"
    then of_metric 10000 50 metric
    else if tier == "pro"
    then of_metric 100000 500 metric
    else if tier == "enterprise"
    then of_metric 1000000 5000 metric
    else none

abbrev tier_of : Option Subscription → String
tier_of none = "free"
tier_of (some s) = s.tier_id

-- `_get_business_tier`: the first row of the query.
unfoldable pub get_business_tier : Uuid → List Subscription → String
get_business_tier b t =
    tier_of (find (λ (s : Subscription). s.business_id == b && s.status == "active") t)

-- The `where` clause of `get_current_meter`.
abbrev pub is_current : Uuid → String → DateTime → UsageMeter → Bool
is_current b metric now m =
    (m.business_id == b && m.metric_name == metric)
    && (le_time m.cycle_start now && le_time now m.cycle_end)

unfoldable pub get_current_meter :
    Uuid → String → DateTime → List UsageMeter → Result Error (Option UsageMeter)
get_current_meter b metric now t = get_one_by (is_current b metric now) t

abbrev pub usage_of : Option UsageMeter → ℕ
usage_of none = 0
usage_of (some m) = m.current_usage

-- `current` in `check_usage_limit`
unfoldable pub current_usage : Uuid → String → DateTime → List UsageMeter → Result Error ℕ
unfolding get_current_meter
current_usage b metric now t = do m ← get_current_meter b metric now t; ok (usage_of m)

unfoldable pub check_limit :
    Option ℕ → Uuid → String → ℕ → DateTime → List UsageMeter → Result Error (Unit {0})
unfolding current_usage
check_limit none b metric amount now t = ok tt
check_limit (some limit) b metric amount now t = do
  current ← current_usage b metric now t
  raise_if (ltb limit (current + amount)) (
      ops ErrorClass.forbidden
        (String.◌++◌ "Usage limit exceeded for " (String.◌++◌ metric ". Upgrade your plan.")))

unfoldable pub check_usage_limit :
    Uuid → String → ℕ → DateTime → MeterTables → Result Error (Unit {0})
unfolding check_limit get_business_tier tier_limit
check_usage_limit b metric amount now db =
    check_limit (tier_limit (get_business_tier b db.subscriptions) metric) b metric amount now
      db.meters

-- The unique constraint `uq_business_metric_cycle`.
abbrev pub has_key : Uuid → String → DateTime → UsageMeter → Bool
has_key b metric start m =
    (m.business_id == b && m.metric_name == metric) && same_time m.cycle_start start

abbrev pub add_usage : ℕ → UsageMeter → UsageMeter
add_usage amount m = record m { current_usage = m.current_usage + amount }

abbrev pub new_meter : Uuid → String → ℕ → DateTime × DateTime → UsageMeter
new_meter b metric amount (start, end) = record {
  business_id = b;
  metric_name = metric;
  cycle_start = start;
  cycle_end = end;
  current_usage = amount;
}

-- `INSERT … ON CONFLICT DO UPDATE`: the row with the key grows, or a new row is added.
unfoldable pub upsert : Uuid → String → ℕ → DateTime × DateTime → List UsageMeter → List UsageMeter
upsert b metric amount (start, end) [] = new_meter b metric amount (start, end) ∷ []
upsert b metric amount (start, end) (m ∷ t) =
    let rest = upsert b metric amount (start, end) t in
    if has_key b metric start m then add_usage amount m ∷ t else m ∷ rest

unfoldable pub increment_usage : Uuid → String → ℕ → DateTime → MeterTables → MeterTables
unfolding upsert get_current_cycle
increment_usage b metric amount now db = record db {
  meters = upsert b metric amount (get_current_cycle now) db.meters;
}

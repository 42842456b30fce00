-- ===== src/FeatureFlags.antt =====
-- app/modules/feature_flags: whether a feature is enabled for a business.
use ops_pilot_be.Prelude.{
  ℕ, Bool, true, false, ◌&&◌, Option, none, some, List, String, Result, ok, ◌>>=◌, ◌>>◌, raise_if,
  not, ◌==◌, nat_eq, string_eq, if◌then◌else◌, leb,
}
use ops_pilot_be.Exceptions.{Error, ErrorClass, init}
use ops_pilot_be.Repository.{Uuid, get_one_by}
use ops_pilot_be.Metering.{Subscription, get_business_tier}

pub record FeatureFlag : Type 0 where
  pub id : String
  pub is_global_active : Bool
  pub minimum_tier : Option String

pub record BusinessFeatureFlag : Type 0 where
  pub business_id : Uuid
  pub flag_id : String
  pub is_active : Bool

pub record FlagTables : Type 0 where
  pub flags : List FeatureFlag
  pub overrides : List BusinessFeatureFlag

unfoldable pub get_flag : String → List FeatureFlag → Result Error (Option FeatureFlag)
get_flag flag_id t = get_one_by (λ (f : FeatureFlag). f.id == flag_id) t

unfoldable pub get_business_override :
    Uuid → String → List BusinessFeatureFlag → Result Error (Option BusinessFeatureFlag)
get_business_override b flag_id t =
    get_one_by (λ (o : BusinessFeatureFlag). o.business_id == b && o.flag_id == flag_id) t

-- `hierarchy.get(tier, 0)`
abbrev pub tier_level : String → ℕ
tier_level tier = if tier == "pro" then 1 else if tier == "enterprise" then 2 else 0

abbrev pub meets : Option String → String → Bool
meets none current_tier_id = false
meets (some minimum_tier) current_tier_id =
    if minimum_tier == "" then false else leb (tier_level minimum_tier) (tier_level current_tier_id)

abbrev pub flag_allows : Option FeatureFlag → String → Bool
flag_allows none current_tier_id = false
flag_allows (some f) current_tier_id =
    if f.is_global_active then true else meets f.minimum_tier current_tier_id

abbrev pub or_flag : String → String → FlagTables → Option BusinessFeatureFlag → Result Error Bool
or_flag flag_id current_tier_id t (some override) = ok override.is_active
or_flag flag_id current_tier_id t none = do
  flag ← get_flag flag_id t.flags
  ok (flag_allows flag current_tier_id)

unfoldable pub is_feature_enabled_for_business :
    Uuid → String → String → FlagTables → Result Error Bool
unfolding get_flag get_business_override
is_feature_enabled_for_business b flag_id current_tier_id t = do
  override ← get_business_override b flag_id t.overrides
  or_flag flag_id current_tier_id t override

-- `refusal` is the detail, which names the feature. The tier is the first active subscription's.
unfoldable pub require_feature :
    String → String → Uuid → List Subscription → FlagTables → Result Error Uuid
unfolding is_feature_enabled_for_business
require_feature flag_id refusal b subscriptions t = do
  is_enabled ← is_feature_enabled_for_business b flag_id (get_business_tier b subscriptions) t
  raise_if (not is_enabled) (init ErrorClass.forbidden (some refusal))
  ok b

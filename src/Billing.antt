-- ===== src/Billing.antt =====
-- `BillingService.get_or_create_subscription` and `generate_checkout_session` of
-- app/modules/billing/service.py, on the columns of a subscription that the program reads.
use ops_pilot_be.Prelude.{
  ℕ, Bool, Option, none, some, List, String, Result, ok, ◌>>=◌, or_raise, ◌==◌, nat_eq, string_eq,
  if◌then◌else◌,
}
use ops_pilot_be.Exceptions.{Error, value_error}
use ops_pilot_be.Repository.{Uuid, get_one_by, get_by_id, create}
use ops_pilot_be.Metering.{Subscription}
use ops_pilot_be.Auth.Models.{User}
use ops_pilot_be.Auth.Service.{user_model, Tables}
use ops_pilot_be.Businesses.Models.{business_model}

unfoldable pub get_subscription : Uuid → List Subscription → Result Error (Option Subscription)
get_subscription b t = get_one_by (λ (s : Subscription). s.business_id == b) t

-- The unique column `business_id`.
abbrev subscription_clash : Subscription → Subscription → Bool
subscription_clash a b = b.business_id == a.business_id

-- `merge` of an object with no id, which is an insertion.
unfoldable pub upsert_subscription :
    Subscription → List Subscription → Result Error (Subscription × List Subscription)
upsert_subscription s t = create subscription_clash s t

abbrev pub or_new :
    Uuid → List Subscription → Option Subscription → Result Error (Subscription × List Subscription)
or_new b t (some s) = ok (s, t)
or_new b t none =
    upsert_subscription (record { business_id = b; tier_id = "free"; status = "active" }) t

unfoldable pub get_or_create_subscription :
    Uuid → List Subscription → Result Error (Subscription × List Subscription)
unfolding get_subscription upsert_subscription
get_or_create_subscription b t = do found ← get_subscription b t; or_new b t found

-- In kobo.
abbrev pub checkout_amount : String → ℕ
checkout_amount tier_id = if tier_id == "pro" then 1000000 else 5000000

abbrev pub email_of : Option User → String
email_of none = "billing@opspilot.app"
email_of (some owner) = owner.email

abbrev pub owner_of : Option Uuid → List User → Result Error (Option User)
owner_of none users = ok none
owner_of (some i) users = get_by_id i users

-- The email and the amount with which Paystack is asked for a checkout.
unfoldable pub generate_checkout_session : Uuid → String → Tables → Result Error (String × ℕ)
generate_checkout_session b tier_id t = do
  found ← get_by_id b t.businesses
  business ← or_raise found (value_error "Business not found")
  owner ← owner_of business.owner_id t.users
  ok (email_of owner, checkout_amount tier_id)

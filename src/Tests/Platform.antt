-- ===== src/Tests/Platform.antt =====
-- Accounts, registration, rules and gateways, on concrete inputs.
use ops_pilot_be.Prelude.{
  ◌≡◌, ◌≢◌, refl, true, false, none, some, [], ◌∷◌, ok, err, string_eq, nat_eq,
}
use ops_pilot_be.Exceptions.{ErrorClass, init}
use ops_pilot_be.Repository.{get_one_by, get_by_id, scalar_one_or_none, update, create, exists}
use ops_pilot_be.Auth.Service.{
  Tables, get_current_user, login, generate_tokens, business_of, user_model,
}
use ops_pilot_be.Auth.Sessions.{MayAct}
use ops_pilot_be.Auth.Slug.{CharClasses}
use ops_pilot_be.Auth.Registration.{RegisterRequest, Fresh, Registered, register}
use ops_pilot_be.Auth.Registering.{register-login, outcome}
use ops_pilot_be.Businesses.Models.{Business, SubscriptionPlan, business_model}
use ops_pilot_be.Admin.Accounts.{
  find_row, flip_user, flip_business, toggle_user_status, toggle_business_status,
}
use ops_pilot_be.Admin.Lockout.{suspended, Lockout-refuses}
use ops_pilot_be.Admin.Suspension.{toggle_business_status-admits}
use ops_pilot_be.Tests.Access.{two_tokens, olu, tables}

abbrev suspended_olu : Tables
suspended_olu = record tables { users = flip_user olu ∷ [] }

Lockout-refuses_example : get_current_user two_tokens 5000000 "access" suspended_olu ≢ ok olu
unfolding toggle_user_status find_row get_by_id get_one_by scalar_one_or_none update
Lockout-refuses_example =
    Lockout-refuses two_tokens 0 5000000 tables suspended_olu 4 "access"
      (record {
        sub = "4";
        email = "o@x.io";
        role = "owner";
        business_id = none;
        exp = 900;
        type = "access";
      })
      olu (suspended 4 refl) refl refl

abbrev shop : Business
shop = record {
  id = 9;
  name = "Shop";
  slug = "shop-1a2b3c";
  description = none;
  industry = none;
  logo_url = none;
  email = none;
  phone = none;
  address = none;
  subscription_plan = SubscriptionPlan.free;
  is_active = true;
  deleted_at = none;
  owner_id = some 4;
}

abbrev with_shop : Tables
with_shop = record {
  users = record olu { business_id = some 9 } ∷ [];
  businesses = shop ∷ [];
  redis = some [];
}

abbrev with_closed_shop : Tables
with_closed_shop = record with_shop { businesses = flip_business shop ∷ [] }

toggle_business_status-admits_example :
    get_current_user two_tokens 0 "access" with_closed_shop
    ≡ get_current_user two_tokens 0 "access" with_shop
unfolding toggle_business_status find_row get_by_id get_one_by scalar_one_or_none update
toggle_business_status-admits_example =
    toggle_business_status-admits two_tokens 0 "access" 9 with_shop with_closed_shop (9, false) refl

abbrev no_classes : CharClasses
no_classes = record { is_word = λ c. true; is_space = λ c. false }

abbrev ada : RegisterRequest
ada = record {
  email = "ada@x.io";
  password = "Secret12";
  first_name = "Ada";
  last_name = "L";
  phone = none;
  business_name = "Looms";
  industry = none;
}

abbrev first_ids : Fresh
first_ids = record { business_id = 1; user_id = 2; suffix = "1a2b3c" }

abbrev no_tables : Tables
no_tables = record { users = []; businesses = []; redis = none }

abbrev registered_ada : Registered
registered_ada = outcome two_tokens no_classes first_ids 0 ada no_tables

register-login_example :
    (login two_tokens 5 "ada@x.io" "Secret12" registered_ada.tables
      ≡ ok (registered_ada.user, generate_tokens two_tokens 5 registered_ada.user))
    × MayAct registered_ada.tables registered_ada.user
    × ((b : Business) × (business_of registered_ada.tables registered_ada.user ≡ some b)
        × (b.owner_id ≡ some registered_ada.user.id))
    × (register two_tokens no_classes first_ids 5 ada registered_ada.tables
        ≡ err (init ErrorClass.duplicate_email none))
unfolding register exists create
register-login_example =
    register-login two_tokens no_classes first_ids first_ids 0 5 ada ada no_tables registered_ada
      refl refl refl refl

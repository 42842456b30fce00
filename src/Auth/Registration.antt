-- ===== src/Auth/Registration.antt =====
-- `register` of app/modules/auth/service.py, with its request in app/modules/auth/schemas.py. The
-- new ids and the suffix of the slug are arguments, as they are drawn at random.
use Prim.Native.String.{[] as «empty», ◌∷◌ as ◌∷ₜ◌}
use Prim.Native.Char.{Char}
use ops_pilot_be.Prelude.{
  Bool, true, false, ◌&&◌, ◌||◌, Option, none, some, List, String, Result, ok, ◌>>=◌, ◌>>◌,
  raise_if, ◌==◌, nat_eq, string_eq,
}
use ops_pilot_be.Exceptions.{Error, ErrorClass, init}
use ops_pilot_be.Repository.{create, exists, update}
use ops_pilot_be.Auth.Models.{Uuid, Time, User, UserRole}
use ops_pilot_be.Auth.Tokens.{Security}
use ops_pilot_be.Auth.Slug.{CharClasses, generate_slug}
use ops_pilot_be.Auth.Service.{user_model, Tables, TokenResponse, generate_tokens}
use ops_pilot_be.Businesses.Models.{Business, SubscriptionPlan, business_model, business_clash}

pub record RegisterRequest : Type 0 where
  pub email : String
  pub password : String
  pub first_name : String
  pub last_name : String
  pub phone : Option String
  pub business_name : String
  pub industry : Option String

-- What is drawn at random: the ids of the two rows and the suffix of the slug.
pub record Fresh : Type 0 where
  pub business_id : Uuid
  pub user_id : Uuid
  pub suffix : String

-- The event user.registered.
pub record UserRegistered : Type 0 where
  pub user_id : String
  pub email : String
  pub business_id : String

pub record Registered : Type 0 where
  pub user : User
  pub tokens : TokenResponse
  pub tables : Tables
  pub emitted : UserRegistered

-- The primary key and the unique column `email`.
abbrev pub user_clash : User → User → Bool
user_clash a b = b.id == a.id || b.email == a.email

abbrev any_char : (Char → Bool) → String → Bool
any_char p «empty» = false
any_char p (c ∷ₜ s) = p c || any_char p s

-- The validator of the password, which FastAPI runs before the service; `is_upper` and `is_digit`
-- are Python's.
unfoldable pub password_strength : (Char → Bool) → (Char → Bool) → String → Bool
password_strength is_upper is_digit v = any_char is_upper v && any_char is_digit v

unfoldable pub email_exists : Security → String → List User → Bool
email_exists s email users = exists (λ (u : User). s.sql_lower u.email == s.lower email) users

module _ (s : Security) (k : CharClasses) where
  abbrev pub new_business : Fresh → RegisterRequest → Business
  new_business f p = record {
    id = f.business_id;
    name = p.business_name;
    slug = generate_slug k s.lower f.suffix p.business_name;
    description = none;
    industry = p.industry;
    logo_url = none;
    email = none;
    phone = none;
    address = none;
    subscription_plan = SubscriptionPlan.free;
    is_active = true;
    deleted_at = none;
    owner_id = none;
  }

  abbrev pub new_user : Fresh → RegisterRequest → User
  new_user f p = record {
    id = f.user_id;
    email = s.lower p.email;
    password_hash = s.hashpw p.password;
    first_name = p.first_name;
    last_name = p.last_name;
    phone = p.phone;
    role = UserRole.owner;
    is_active = true;
    is_verified = false;
    deleted_at = none;
    business_id = some f.business_id;
  }

  abbrev pub with_owner : Uuid → Business → Business
  with_owner i b = record b { owner_id = some i }

  unfoldable pub register : Fresh → Time → RegisterRequest → Tables → Result Error Registered
  unfolding email_exists generate_tokens
  register f now p t = do
    raise_if (email_exists s p.email t.users) (init ErrorClass.duplicate_email none)
    (business, businesses) ← create business_clash (new_business f p) t.businesses
    (user, users) ← create user_clash (new_user f p) t.users
    ok (record {
      user = user;
      tokens = generate_tokens s now user;
      tables = record t {
        users = users;
        businesses = update business.id (with_owner user.id) businesses;
      };
      emitted = record {
        user_id = s.uuid_str user.id;
        email = user.email;
        business_id = s.uuid_str business.id;
      };
    })

-- ===== src/Tests/Access.antt =====
-- Tokens, permissions and API keys, on concrete inputs.
use ops_pilot_be.Prelude.{
  ◌≡◌, refl, true, false, Option, none, some, [], ◌∷◌, String, ok, err, arith, All, contains,
  string_eq, nat_eq, ◌==◌, if◌then◌else◌,
}
use ops_pilot_be.Prelude.Dict.{lookup}
use ops_pilot_be.Exceptions.{Error}
use ops_pilot_be.Repository.{get_one_by, get_by_id, scalar_one_or_none}
use ops_pilot_be.Auth.Models.{User, UserRole}
use ops_pilot_be.Auth.Tokens.{Security, Claims, is_token_blacklisted, blacklist_token}
use ops_pilot_be.Auth.Service.{
  Tables, user_model, refresh_tokens, renew, admit, generate_tokens, get_current_user,
}
use ops_pilot_be.Auth.Revocation.{IsRevoked, refresh_tokens-once}
use ops_pilot_be.Auth.Sessions.{MayAct, get_current_user-MayAct, access_token-admits}
use ops_pilot_be.Auth.Dependencies.{
  get_current_principal, require_permission, get_current_active_user, current_user,
  check_permissions,
}
use ops_pilot_be.Auth.Access.{Entitled, get_current_principal-active, require_permission-All}
use ops_pilot_be.Permissions.{orders_read, permission_eq, get_role_permissions}
use ops_pilot_be.ApiKeys.{ApiKey, starts_with, touch, authenticate_api_key, revoke, revoke_key}
use ops_pilot_be.ApiKeys.Laws.{revoke_key-refuses}

-- A token library that knows two tokens, of the user with id 4.
abbrev pub claims_of : String → Option Claims
claims_of token =
    if token == "access"
    then some (record {
      sub = "4";
      email = "o@x.io";
      role = "owner";
      business_id = none;
      exp = 900;
      type = "access";
    })
    else if token == "refresh"
    then some (record {
      sub = "4";
      email = "o@x.io";
      role = "owner";
      business_id = none;
      exp = 100;
      type = "refresh";
    })
    else none

abbrev pub two_tokens : Security
two_tokens = record {
  encode = λ c. c.type;
  decode = λ now token. claims_of token;
  checkpw = λ p h. p == h;
  hashpw = λ p. p;
  uuid_str = λ i. "4";
  parse_uuid = λ text. if text == "4" then some 4 else none;
  lower = λ text. text;
  sql_lower = λ text. text;
  access_minutes = 15;
  refresh_days = 7;
}

abbrev pub olu : User
olu = record {
  id = 4;
  email = "o@x.io";
  password_hash = "h";
  first_name = "Olu";
  last_name = "A";
  phone = none;
  role = UserRole.owner;
  is_active = true;
  is_verified = true;
  deleted_at = none;
  business_id = none;
}

abbrev pub tables : Tables
tables = record { users = olu ∷ []; businesses = []; redis = some [] }

abbrev refreshed : Tables
refreshed = record tables {
  redis =
      blacklist_token 0 "refresh"
        (record {
          sub = "4";
          email = "o@x.io";
          role = "owner";
          business_id = none;
          exp = 100;
          type = "refresh";
        })
        (some []);
}

refresh_tokens-once_example : IsRevoked two_tokens 5000000 "refresh" refreshed
unfolding refresh_tokens renew get_by_id get_one_by scalar_one_or_none is_token_blacklisted lookup
    generate_tokens
refresh_tokens-once_example =
    refresh_tokens-once two_tokens 0 5000000 "refresh"
      (record {
        sub = "4";
        email = "o@x.io";
        role = "owner";
        business_id = none;
        exp = 100;
        type = "refresh";
      })
      [] tables (generate_tokens two_tokens 0 olu) refreshed refreshed refl (omega arith)
      (omega arith) refl refl refl

get_current_user-MayAct_example :
    (c : Claims) × (two_tokens.decode 0 "access" ≡ some c)
    × (c.type ≡ "access")
    × (two_tokens.parse_uuid c.sub ≡ some 4)
    × (is_token_blacklisted tables.redis 0 "access" ≡ false)
    × MayAct tables olu
unfolding get_current_user admit get_by_id get_one_by scalar_one_or_none is_token_blacklisted lookup
get_current_user-MayAct_example = get_current_user-MayAct two_tokens 0 "access" tables olu refl

require_permission-All_example :
    MayAct tables olu
    × All (λ p. contains p (get_role_permissions "owner") ≡ true) (orders_read ∷ [])
unfolding require_permission get_current_active_user current_user check_permissions
    get_role_permissions get_current_user admit get_by_id get_one_by scalar_one_or_none
    is_token_blacklisted lookup
require_permission-All_example =
    require_permission-All two_tokens 0 (orders_read ∷ []) (some "access") tables olu refl

abbrev a_key : ApiKey
a_key = record {
  id = 6;
  name = "ci";
  description = none;
  key_prefix = "opk_";
  key_hash = "opk_secret";
  key_hint = "cret";
  business_id = 5;
  created_by = 4;
  is_active = true;
  last_used_at = none;
  expires_at = some 50;
}

olu-MayAct : MayAct tables olu
unfolding get_by_id get_one_by scalar_one_or_none
olu-MayAct = record { stored = refl; kept = refl; active = refl; workspace = refl }

access_token-admits_example :
    get_current_user two_tokens 7000000 (generate_tokens two_tokens 0 olu).access_token tables
    ≡ ok olu
unfolding is_token_blacklisted lookup generate_tokens
access_token-admits_example =
    access_token-admits two_tokens 0 7000000 tables olu (λ h. refl) refl refl olu-MayAct
      (omega arith) refl

-- The digest and the last four characters, taken to be the text itself.
abbrev same_text : String → String
same_text text = text

revoke_key-refuses_example :
    (e : Error) × (authenticate_api_key same_text same_text 9 "opk_secret"
        (olu ∷ [])
        (record a_key { is_active = false } ∷ [])
      ≡ err e)
unfolding revoke_key revoke
revoke_key-refuses_example =
    revoke_key-refuses same_text same_text 6 5 9 "opk_secret" (olu ∷ []) (a_key ∷ [])
      (record a_key { is_active = false } ∷ []) (λ h. refl, tt) refl

-- The owner of the key, by the key alone.
get_current_principal-active_example :
    (olu.is_active ≡ true)
    × Entitled same_text same_text 9 none
        (some "opk_secret")
        tables
        (a_key ∷ [])
        (record a_key { last_used_at = some 9 } ∷ [])
        olu
unfolding get_current_principal authenticate_api_key starts_with get_one_by scalar_one_or_none touch
get_current_principal-active_example =
    get_current_principal-active two_tokens 9 same_text same_text none (some "opk_secret") tables
      (a_key ∷ []) (record a_key { last_used_at = some 9 } ∷ []) olu refl

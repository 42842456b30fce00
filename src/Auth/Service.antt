-- ===== src/Auth/Service.antt =====
-- `AuthService` of app/modules/auth/service.py: login, refresh, logout, the current user and the
-- change of password; Registration has the rest. An operation answers with the stores it leaves.
use ops_pilot_be.Prelude.{
  if◌then◌else◌, Bool, false, not, Option, none, some, List, String, string_eq, Result, ok, err,
  ◌>>=◌, ◌>>◌, raise_if, or_raise, ◌==◌, nat_eq, is_some, find,
}
use mathlib.Core.Option
use ops_pilot_be.Exceptions.{Error, ErrorClass, init, value_error}
use ops_pilot_be.Repository.{Model, get_by_id, get_one_by, update}
use ops_pilot_be.Auth.Models.{Uuid, Time, User, role_value}
use ops_pilot_be.Businesses.Models.{Business}
use ops_pilot_be.Auth.Tokens.{
  Security, Claims, Blacklist, create_access_token, create_refresh_token, is_token_blacklisted,
  blacklist_token,
}

instance abbrev pub user_model : Model User
user_model = record { id_of = λ (u : User). u.id }

pub record Tables : Type 0 where
  pub users : List User
  pub businesses : List Business
  -- `none`: the service was built without a Redis client
  pub redis : Option Blacklist

pub record TokenResponse : Type 0 where
  pub access_token : String
  pub refresh_token : String

-- `raise C(detail)`
abbrev pub raise : {A : Type 0} → ErrorClass → Option String → Result Error A
raise c detail = err (init c detail)

-- `uuid.UUID(text)`, which raises `ValueError`
abbrev pub uuid_or_raise : Option Uuid → Result Error Uuid
uuid_or_raise none = err (value_error "badly formed hexadecimal UUID string")
uuid_or_raise (some i) = ok i

-- `user.business`: the row that `business_id` refers to.
abbrev pub business_with : List Business → Option Uuid → Option Business
business_with businesses none = none
business_with businesses (some i) = find (λ b. b.id == i) businesses

abbrev pub business_of : Tables → User → Option Business
business_of t u = business_with t.businesses u.business_id

abbrev pub is_deleted : Option Business → Bool
is_deleted none = false
is_deleted (some b) = is_some b.deleted_at

module _ (s : Security) where
  unfoldable pub get_by_email : String → List User → Result Error (Option User)
  get_by_email email users = get_one_by (λ u. s.sql_lower u.email == s.lower email) users

  -- `token_data`; `exp` and `type` are set by `create_access_token` and `create_refresh_token`
  abbrev pub token_data : User → Claims
  token_data u = record {
    sub = s.uuid_str u.id;
    email = u.email;
    role = role_value u.role;
    business_id = Option.map s.uuid_str u.business_id;
    exp = 0;
    type = "";
  }

  unfoldable pub generate_tokens : Time → User → TokenResponse
  generate_tokens now u = record {
    access_token = create_access_token s now (token_data u);
    refresh_token = create_refresh_token s now (token_data u);
  }

  unfoldable pub login : Time → String → String → Tables → Result Error (User × TokenResponse)
  unfolding get_by_email generate_tokens
  login now email password t = do
    found ← get_by_email email t.users
    u ← or_raise found (init ErrorClass.invalid_credentials none)
    raise_if (is_some u.deleted_at) (init ErrorClass.invalid_credentials none)
    raise_if (not (s.checkpw password u.password_hash)) (init ErrorClass.invalid_credentials none)
    raise_if (not u.is_active)
        (init ErrorClass.unauthorized (some "Your account has been deactivated."))
    ok (u, generate_tokens now u)

  -- The checks that `refresh_tokens` and `get_current_user` share: the type, the blacklist, the subject.
  abbrev pub subject : Time → String → String → String → Tables → Result Error (Claims × Uuid)
  subject now type refusal token t = do
    payload ← or_raise (s.decode now token) (init ErrorClass.invalid_token none)
    raise_if (not (payload.type == type)) (init ErrorClass.invalid_token (some refusal))
    raise_if (is_token_blacklisted t.redis now token)
        (init ErrorClass.invalid_token (some "Token has been revoked."))
    raise_if (payload.sub == "") (init ErrorClass.invalid_token none)
    i ← uuid_or_raise (s.parse_uuid payload.sub)
    ok (payload, i)

  -- The rest of `refresh_tokens`, and of `get_current_user`, once the token is accepted.
  unfoldable pub renew :
      Time → String → Tables → Claims × Uuid → Result Error (TokenResponse × Tables)
  unfolding generate_tokens blacklist_token
  renew now token t (payload, i) = do
    found ← get_by_id i t.users
    u ← or_raise found (init ErrorClass.unauthorized none)
    raise_if (not u.is_active) (init ErrorClass.unauthorized none)
    ok (generate_tokens now u, record t { redis = blacklist_token now token payload t.redis })

  unfoldable pub admit : Tables → Claims × Uuid → Result Error User
  admit t (payload, i) = do
    found ← get_by_id i t.users
    u ← or_raise found (init ErrorClass.not_found (some "User not found."))
    raise_if (is_some u.deleted_at) (init ErrorClass.not_found (some "User not found."))
    raise_if (not u.is_active) (init ErrorClass.unauthorized (some "Account deactivated."))
    raise_if (is_deleted (business_of t u))
        (init ErrorClass.unauthorized (some "Business workspace has been deleted."))
    ok u

  unfoldable pub refresh_tokens : Time → String → Tables → Result Error (TokenResponse × Tables)
  unfolding renew
  refresh_tokens now token t =
      subject now "refresh" "Expected a refresh token." token t >>= renew now token t

  -- One `try … except JWTError: pass` of `logout`.
  abbrev pub revoke_decoded : Time → String → Option Claims → Tables → Tables
  revoke_decoded now token none t = t
  revoke_decoded now token (some payload) t = record t {
    redis = blacklist_token now token payload t.redis;
  }

  abbrev pub revoke : Time → String → Tables → Tables
  revoke now token t = revoke_decoded now token (s.decode now token) t

  unfoldable pub logout : Time → String → Option String → Tables → Tables
  logout now access none t = revoke now access t
  logout now access (some refresh) t =
      let t' = revoke now access t in if refresh == "" then t' else revoke now refresh t'

  unfoldable pub get_current_user : Time → String → Tables → Result Error User
  unfolding admit
  get_current_user now token t =
      subject now "access" "Expected an access token." token t >>= admit t

  unfoldable pub change_password :
      User → String → String → Tables → Result Error (Unit {0} × Tables)
  change_password u current_password new_password t = do
    raise_if (not (s.checkpw current_password u.password_hash))
        (init ErrorClass.invalid_credentials (some "Current password is incorrect."))
    ok (
      tt,
      record t {
        users = update u.id (λ row. record row { password_hash = s.hashpw new_password }) t.users;
      },
    )

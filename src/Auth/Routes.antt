-- ===== src/Auth/Routes.antt =====
-- app/modules/auth/routes.py, with the public form of a user (app/modules/auth/schemas.py), less the
-- times of the row. FastAPI has validated the bodies.
pub mod Logout
use Prim.Native.String
use Prim.Native.Char.{Char}
use ops_pilot_be.Prelude.{ℕ, zero, suc, Bool, true, false, Option, String, Result, ok, ◌>>=◌}
use ops_pilot_be.Exceptions.{Error}
use ops_pilot_be.RateLimit.Dispatch.{lstrip, rstrip}
use ops_pilot_be.ApiKeys.{starts_with}
use ops_pilot_be.Auth.Models.{Uuid, Time, User, UserRole}
use ops_pilot_be.Auth.Tokens.{Security}
use ops_pilot_be.Auth.Slug.{CharClasses}
use ops_pilot_be.Auth.Service.{
  Tables, TokenResponse, login, refresh_tokens, logout, change_password,
}
use ops_pilot_be.Auth.Registration.{RegisterRequest, Fresh, register}
use ops_pilot_be.Auth.Dependencies.{get_current_active_user}

pub record UserResponse : Type 0 where
  pub id : Uuid
  pub email : String
  pub first_name : String
  pub last_name : String
  pub phone : Option String
  pub role : UserRole
  pub is_active : Bool
  pub is_verified : Bool
  pub business_id : Option Uuid

-- `UserResponse.model_validate`
abbrev pub user_response : User → UserResponse
user_response u = record {
  id = u.id;
  email = u.email;
  first_name = u.first_name;
  last_name = u.last_name;
  phone = u.phone;
  role = u.role;
  is_active = u.is_active;
  is_verified = u.is_verified;
  business_id = u.business_id;
}

-- `data` of the envelope.
pub data AuthPayload : Type 0 where
  session : UserResponse → TokenResponse → AuthPayload
  tokens : TokenResponse → AuthPayload
  profile : UserResponse → AuthPayload
  no_data : AuthPayload

pub record AuthEnvelope : Type 0 where
  pub payload : AuthPayload
  pub message : String

abbrev pub answer : AuthPayload → String → AuthEnvelope
answer payload message = record { payload = payload; message = message }

-- `text.replace("Bearer ", "")`; the number counts the characters of a match that are left to skip.
unfoldable pub remove_bearer : ℕ → String → String
unfolding starts_with
remove_bearer n String.[] = String.[]
remove_bearer (suc n) (String.◌∷◌ c s) = remove_bearer n s
remove_bearer zero (String.◌∷◌ c s) = elim (starts_with "Bearer " (String.◌∷◌ c s)) [
  | true ↦ remove_bearer 6 s
  | false ↦ String.◌∷◌ c (remove_bearer 0 s)
]

-- `authorization.replace("Bearer ", "").strip()`
unfoldable pub token_of_header : String → String
unfolding remove_bearer lstrip rstrip
token_of_header authorization = rstrip (lstrip (remove_bearer 0 authorization))

module _ (s : Security) (now : Time) where
  unfoldable pub register_route :
      CharClasses → Fresh → RegisterRequest → Tables → Result Error (AuthEnvelope × Tables)
  register_route k f p t = do
    r ← register s k f now p t
    ok (answer (session (user_response r.user) r.tokens) "Registration successful.", r.tables)

  unfoldable pub login_route : String → String → Tables → Result Error AuthEnvelope
  login_route email password t = do
    (u, pair) ← login s now email password t
    ok (answer (session (user_response u) pair) "Login successful.")

  unfoldable pub refresh_token : String → Tables → Result Error (AuthEnvelope × Tables)
  refresh_token token t = do
    (pair, t') ← refresh_tokens s now token t
    ok (answer (tokens pair) "Tokens refreshed.", t')

  -- `body` is the refresh token of the payload, if there is a payload.
  unfoldable pub logout_route : String → Option String → Tables → AuthEnvelope × Tables
  unfolding token_of_header
  logout_route authorization body t = (
    answer no_data "Logged out successfully.",
    logout s now (token_of_header authorization) body t,
  )

  unfoldable pub get_me : Option String → Tables → Result Error AuthEnvelope
  get_me credentials t = do
    u ← get_current_active_user s now credentials t
    ok (answer (profile (user_response u)) "Request successful.")

  unfoldable pub change_password_route :
      Option String → String → String → Tables → Result Error (AuthEnvelope × Tables)
  change_password_route credentials current_password new_password t = do
    u ← get_current_active_user s now credentials t
    (_, t') ← change_password s u current_password new_password t
    ok (answer no_data "Password changed successfully.", t')

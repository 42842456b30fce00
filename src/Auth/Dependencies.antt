-- ===== src/Auth/Dependencies.antt =====
-- app/modules/auth/dependencies.py: who may call a route. `get_current_user` of the service has
-- answered with the user; each dependency adds its own test.
use Prim.Native.String
use ops_pilot_be.Prelude.{
  string_eq, if◌then◌else◌, not, Option, none, some, List, [], ◌∷◌, String, Result, ok, err, ◌>>=◌,
  ◌>>◌, raise_if, or_raise, contains, ◌==◌,
}
use ops_pilot_be.Exceptions.{Error, ErrorClass, init}
use ops_pilot_be.Auth.Models.{Uuid, Time, User, UserRole, role_value, role_eq}
use ops_pilot_be.Auth.Tokens.{Security}
use ops_pilot_be.Auth.Service.{Tables, get_current_user}
use ops_pilot_be.ApiKeys.{ApiKey, authenticate_api_key}
use ops_pilot_be.Permissions.{Permission, permission_eq, permission_value, get_role_permissions}

abbrev pub refusal_of : Permission → String
refusal_of p =
    String.◌++◌ "Permission denied: '"
      (String.◌++◌ (permission_value p) "' is required for this action.")

-- The loop over the permissions of a route.
unfoldable pub check_permissions : List Permission → List Permission → Result Error (Unit {0})
check_permissions [] granted = ok tt
check_permissions (p ∷ ps) granted = do
  raise_if (not (contains p granted)) (init ErrorClass.forbidden (some (refusal_of p)))
  check_permissions ps granted

module _ (s : Security) (now : Time) where
  -- `credentials` is the bearer token of the request, if it has one.
  unfoldable pub current_user : Option String → Tables → Result Error User
  current_user none t = err (init ErrorClass.unauthorized (some "Missing authentication token."))
  current_user (some token) t = get_current_user s now token t

  unfoldable pub get_current_active_user : Option String → Tables → Result Error User
  get_current_active_user credentials t = do
    u ← current_user credentials t
    raise_if (not u.is_active)
        (init ErrorClass.forbidden (some "Your account has been deactivated."))
    ok u

  -- `refusal` is the detail, which lists the roles.
  unfoldable pub require_role : List UserRole → String → Option String → Tables → Result Error User
  require_role roles refusal credentials t = do
    u ← get_current_active_user credentials t
    raise_if (not (contains u.role roles)) (init ErrorClass.forbidden (some refusal))
    ok u

  unfoldable pub get_current_super_admin : Option String → Tables → Result Error User
  get_current_super_admin credentials t = do
    u ← get_current_active_user credentials t
    raise_if (not (u.role == UserRole.super_admin))
        (init ErrorClass.forbidden (some "This endpoint requires super administrative privileges."))
    ok u

  unfoldable pub get_current_business_id : Option String → Tables → Result Error Uuid
  get_current_business_id credentials t = do
    u ← get_current_active_user credentials t
    or_raise u.business_id (
        init ErrorClass.forbidden
          (some "You must be assigned to a business to perform this action."))

  unfoldable pub require_permission : List Permission → Option String → Tables → Result Error User
  unfolding check_permissions
  require_permission permissions credentials t = do
    u ← get_current_active_user credentials t
    check_permissions permissions (get_role_permissions (role_value u.role))
    ok u

  -- `get_current_principal`: a bearer token is tried first, and an empty API key counts as none. The
  -- answer has the table of keys as it is left.
  unfoldable pub get_current_principal :
      (sha256 last_four : String → String)
      → Option String
      → Option String
      → Tables
      → List ApiKey
      → Result Error (User × List ApiKey)
  get_current_principal sha256 last_four (some token) x_api_key t keys = do
    u ← get_current_user s now token t
    ok (u, keys)
  get_current_principal sha256 last_four none none t keys = err (
      init ErrorClass.unauthorized
        (some "Authentication required: provide a Bearer token or X-API-Key."))
  get_current_principal sha256 last_four none (some api_key) t keys =
      if api_key == ""
      then err (
          init ErrorClass.unauthorized
            (some "Authentication required: provide a Bearer token or X-API-Key."))
      else authenticate_api_key sha256 last_four now api_key t.users keys

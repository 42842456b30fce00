-- ===== src/Tests/Requests.antt =====
-- The middleware stack, the routes of administrators and of accounts, and the seeding of the first
-- administrator, on concrete requests.
use Prim.Native.String
use mathlib.Core.List.{reverse, reverse-append}
use ops_pilot_be.Prelude.{ℕ, ◌+◌, ◌≡◌, refl, true, false, none, some, [], ◌∷◌, err, arith}
use ops_pilot_be.Prelude.Dict.{lookup, insert}
use ops_pilot_be.Exceptions.{Error}
use ops_pilot_be.Repository.{get_one_by, get_by_id, scalar_one_or_none, update}
use ops_pilot_be.RateLimit.{check_memory}
use ops_pilot_be.RateLimit.Dispatch.{limit_of, is_exempt, Limiter, dispatch}
use ops_pilot_be.Maintenance.{missing, dispatch_maintenance}
use ops_pilot_be.Application.{added, HttpRequest, World, Handler, Meets, serve}
use ops_pilot_be.Application.Refusals.{Wrapping, Answered, logging, serve-refusals}
use ops_pilot_be.Application.Tracing.{Traced, serve-Traced}
use ops_pilot_be.Auth.Models.{User, UserRole}
use ops_pilot_be.Auth.Tokens.{Claims, is_token_blacklisted}
use ops_pilot_be.Auth.Service.{get_current_user, admit}
use ops_pilot_be.Auth.Dependencies.{get_current_super_admin, get_current_active_user, current_user}
use ops_pilot_be.Auth.Routes.{logout_route, get_me, refresh_token}
use ops_pilot_be.Auth.Routes.Logout.{logout_route-ends_session}
use ops_pilot_be.RateLimit.Dispatch.{is_space}
use ops_pilot_be.Admin.Accounts.{find_row, soft_delete_user, remove_user}
use ops_pilot_be.Admin.Routes.{
  user_delete, users_list, deletion, Platform, Outside, Envelope, route, serve_admin,
}
use ops_pilot_be.Admin.Routes.Demotion.{dismissed-err}
use ops_pilot_be.Tests.Access.{two_tokens, olu, tables}

reverse-Wrapping : Wrapping reverse
reverse-Wrapping = record { none_added = refl; one_more = λ ms m. reverse-append ms (m ∷ []) }

-- Redis is down, and the limit of every request is zero or a hundred.
abbrev met : ℕ → Meets
met limit = record {
  config = record { default_limit = limit; auth_limit = limit; window_seconds = 60 };
  moment = record { now_ms = 1000; random = 5; redis_up = false };
  security = two_tokens;
  second_word = λ t. t;
  now = 0;
  flag = missing;
  new_id = "fresh";
  str = λ n. "60";
}

abbrev orders_request : HttpRequest
orders_request = record {
  source = record { path = "/api/v1/orders"; forwarded_for = none; client_host = some "10.0.0.1" };
  method = "GET";
  x_request_id = some "abc";
  authorization = none;
}

abbrev quiet : World ℕ
quiet = record {
  limiter = record { redis = []; buckets = [] };
  request_id_ctx = none;
  lines = [];
  rejections = 0;
  rest = 0;
}

abbrev routes : Handler ℕ
routes r w = (record { status_code = 200; headers = [] }, record w { rest = w.rest + 1 })

-- The limit is zero, so that the first request is over it.
serve-refusals_example :
    Answered
      (met 0)
      orders_request
      (logging (met 0) (λ h. h) routes orders_request quiet)
      quiet
      (dispatch (met 0).config (met 0).moment orders_request.source quiet.limiter).1
      true
      false
      (serve (met 0) (λ h. h) (reverse added) routes orders_request quiet)
unfolding is_exempt lookup limit_of
serve-refusals_example =
    serve-refusals (met 0) (λ h. h) routes orders_request quiet reverse reverse-Wrapping

abbrev counted_once : Limiter
counted_once = record { redis = []; buckets = ("ratelimit:10.0.0.1", 1000 ∷ []) ∷ [] }

serve-Traced_example :
    Traced
      (met 100)
      (λ h. h)
      routes
      orders_request
      quiet
      counted_once
      (serve (met 100) (λ h. h) (reverse added) routes orders_request quiet)
unfolding dispatch dispatch_maintenance check_memory lookup insert
serve-Traced_example =
    serve-Traced (met 100) (λ h. h) routes orders_request quiet counted_once reverse
      reverse-Wrapping refl refl refl

abbrev access_claims : Claims
access_claims = record {
  sub = "4";
  email = "o@x.io";
  role = "owner";
  business_id = none;
  exp = 900;
  type = "access";
}

logout_route-ends_session_example :
    ((x : Error) × (get_me two_tokens 5000000
          (some "access")
          (logout_route two_tokens 0 (String.◌++◌ "Bearer " "access") (some "refresh") tables).1
        ≡ err x))
    × ((x : Error) × (refresh_token two_tokens 5000000 "refresh"
            (logout_route two_tokens 0 (String.◌++◌ "Bearer " "access") (some "refresh") tables).1
          ≡ err x))
unfolding is_space
logout_route-ends_session_example =
    logout_route-ends_session two_tokens 0 5000000 "access" "refresh" access_claims
      (record access_claims { exp = 100; type = "refresh" }) [] tables refl refl refl refl
      (omega arith) (omega arith) (omega arith) refl

-- The only administrator deletes the own account.
abbrev root_user : User
root_user = record olu { role = UserRole.super_admin }

abbrev platform : User → Platform
platform u = record {
  tables = record tables { users = u ∷ [] };
  logs = [];
  rules = [];
  redis = [];
  manager = record { connections = []; presence = []; gauges = [] };
  alerts = [];
}

abbrev quiet_outside : Outside
quiet_outside = record {
  db_ok = true;
  redis_ok = true;
  newest_logs = λ t. t;
  newest_businesses = λ t. t;
  newest_users = λ t. t;
  newest_rules = λ t. t;
  host_of = λ i. none;
  alive = λ i. true;
}

abbrev deleted_root : Envelope
deleted_root = record {
  payload = deletion 4 7;
  message = "User account soft-deleted successfully.";
  meta = none;
}

dismissed-err_example :
    (x : Error) × (serve_admin quiet_outside
        (λ n. "n")
        5000000
        two_tokens
        (some "access")
        (users_list 50 0)
        (platform (remove_user 7 root_user))
      ≡ err x)
unfolding serve_admin route get_current_super_admin get_current_active_user current_user
    get_current_user admit get_by_id get_one_by scalar_one_or_none is_token_blacklisted lookup
    soft_delete_user find_row update
dismissed-err_example =
    dismissed-err quiet_outside (λ n. "n") two_tokens 7 5000000 (some "access") (user_delete 4)
      (users_list 50 0) (platform root_user) (platform (remove_user 7 root_user)) deleted_root 4
      "access" access_claims refl refl refl refl

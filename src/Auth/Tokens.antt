-- ===== src/Auth/Tokens.antt =====
-- app/core/security.py, and the token blacklist of app/modules/auth/service.py. `jose` and
-- `bcrypt` are third-party: a `Security` holds what they and Python's own functions do.
use Prim.Native.String
use ops_pilot_be.Prelude.{
  ℕ, ◌+◌, ◌*◌, ◌/◌, ◌-◌, Bool, false, Option, none, some, String, string_eq, ltb, if◌then◌else◌,
}
use ops_pilot_be.Prelude.Dict.{Dict, lookup, insert}
use ops_pilot_be.Auth.Models.{Uuid, Time}

-- What a token carries. A claim that is absent reads as an empty text, or 0.
pub record Claims : Type 0 where
  pub sub : String
  pub email : String
  pub role : String
  pub business_id : Option String
  pub exp : ℕ
  pub type : String

pub record Security : Type 0 where
  -- `jwt.encode` and `jwt.decode` with the program's secret; `none` is a `JWTError`
  pub encode : Claims → String
  pub decode : Time → String → Option Claims
  -- `bcrypt.checkpw` and `bcrypt.hashpw` with a new salt
  pub checkpw : String → String → Bool
  pub hashpw : String → String
  -- `str(uuid)` and `uuid.UUID(text)`
  pub uuid_str : Uuid → String
  pub parse_uuid : String → Option Uuid
  -- `str.lower` in Python and `lower` in SQL
  pub lower : String → String
  pub sql_lower : String → String
  -- the settings ACCESS_TOKEN_EXPIRE_MINUTES and REFRESH_TOKEN_EXPIRE_DAYS
  pub access_minutes : ℕ
  pub refresh_days : ℕ

-- Times are in microseconds, `exp` and Redis's TTL in seconds.
abbrev pub second : ℕ
second = 1000000

abbrev pub create_access_token : Security → Time → Claims → String
create_access_token s now claims =
    s.encode (record claims { exp = now / second + s.access_minutes * 60; type = "access" })

abbrev pub create_refresh_token : Security → Time → Claims → String
create_refresh_token s now claims =
    s.encode (record claims { exp = now / second + s.refresh_days * 86400; type = "refresh" })

-- The keys of the blacklist in Redis, each with the time at which it expires.
abbrev pub Blacklist : Type 0
Blacklist = Dict String Time

abbrev pub blacklist_key : String → String
blacklist_key token = String.◌++◌ "blacklist:" token

-- `GET`: whether the key is there and has not expired.
abbrev pub is_alive : Time → Option Time → Bool
is_alive now none = false
is_alive now (some until) = ltb now until

unfoldable pub is_token_blacklisted : Option Blacklist → Time → String → Bool
is_token_blacklisted none now token = false
is_token_blacklisted (some redis) now token = is_alive now (lookup (blacklist_key token) redis)

-- `max(int(exp - time.time()), 0)`
abbrev pub ttl_of : ℕ → Time → ℕ
ttl_of exp now = (exp * second - now) / second

unfoldable pub blacklist_token : Time → String → Claims → Option Blacklist → Option Blacklist
blacklist_token now token payload none = none
blacklist_token now token payload (some redis) =
    let ttl = ttl_of payload.exp now in
    if ltb 0 ttl then some (insert (blacklist_key token) (now + ttl * second) redis) else some redis

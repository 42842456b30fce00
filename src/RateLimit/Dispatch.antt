-- ===== src/RateLimit/Dispatch.antt =====
-- The middleware's `dispatch`: which requests are counted, in which bucket, and the fallback when
-- Redis does not answer. Both stores count milliseconds.
use Prim.Native.Char.{Char, code}
use Prim.Native.String
use text.Mathlib.Text.{starts_with}
use ops_pilot_be.Prelude.{
  ℕ, ◌*◌, ◌≡◌, ◌≢◌, ◌⊎◌, refl, List, [], ◌∷◌, Bool, true, String, contains, string_eq, nat_eq,
  if◌then◌else◌, Option, none, some, Bool-cases, inl, inr, nat_beq, ◌==◌, any,
}
use ops_pilot_be.Prelude.Dict.{Dict, lookup, insert, lookup-insert_ne}
use ops_pilot_be.RateLimit.{check_memory}
use ops_pilot_be.RateLimit.Script.{SortedSet, sliding_window}

pub record Config : Type 0 where
  pub default_limit : ℕ
  pub auth_limit : ℕ
  pub window_seconds : ℕ

-- The parts of a request that the limiter reads.
pub record Request : Type 0 where
  pub path : String
  pub forwarded_for : Option String
  pub client_host : Option String

pub record Limiter : Type 0 where
  pub redis : Dict String SortedSet
  pub buckets : Dict String (List ℕ)

-- What a request meets: the time, the script's draw, and whether Redis answers.
pub record Moment : Type 0 where
  pub now_ms : ℕ
  pub random : ℕ
  pub redis_up : Bool

unfoldable pub is_exempt : String → Bool
is_exempt path = contains path ("/health" ∷ "/healthz" ∷ "/" ∷ "/metrics" ∷ "/api/v1/ws" ∷ [])

unfoldable pub is_auth : String → Bool
is_auth path = any (starts_with path) ("/api/v1/auth/login" ∷ "/api/v1/auth/register" ∷ [])

-- `s.split(",")[0]`
unfoldable pub before_comma : String → String
before_comma String.[] = String.[]
before_comma (String.◌∷◌ c s) =
    let rest = before_comma s in if nat_beq (code c) b',' then String.[] else String.◌∷◌ c rest

-- `str.isspace` of one character, below U+0100
unfoldable pub is_space : ℕ → Bool
is_space c = contains c (9 ∷ 10 ∷ 11 ∷ 12 ∷ 13 ∷ 28 ∷ 29 ∷ 30 ∷ 31 ∷ 32 ∷ 133 ∷ 160 ∷ [])

unfoldable pub lstrip : String → String
unfolding is_space
lstrip String.[] = String.[]
lstrip (String.◌∷◌ c s) = let rest = lstrip s in if is_space (code c) then rest else String.◌∷◌ c s

-- A character before a stripped rest, which is dropped if it is a space and nothing follows.
unfoldable pub keep_unless_last : Char → String → String
unfolding is_space
keep_unless_last c String.[] = if is_space (code c) then String.[] else String.◌∷◌ c String.[]
keep_unless_last c (String.◌∷◌ d s) = String.◌∷◌ c (String.◌∷◌ d s)

unfoldable pub rstrip : String → String
unfolding keep_unless_last
rstrip String.[] = String.[]
rstrip (String.◌∷◌ c s) = keep_unless_last c (rstrip s)

-- `request.client.host if request.client else "unknown"`
abbrev client_or_unknown : Option String → String
client_or_unknown none = "unknown"
client_or_unknown (some host) = host

-- `_get_client_ip`: an empty header counts as none.
unfoldable pub get_client_ip : Request → String
unfolding before_comma lstrip rstrip
get_client_ip r = elim r.forwarded_for [
  | some forwarded ↦
      if forwarded == ""
      then client_or_unknown r.client_host
      else rstrip (lstrip (before_comma forwarded))
  | none ↦ client_or_unknown r.client_host
]

unfoldable pub bucket_key : Request → String
unfolding is_auth get_client_ip
bucket_key r =
    if is_auth r.path
    then String.◌++◌ (get_client_ip r) (String.◌++◌ ":" r.path)
    else get_client_ip r

-- `redis_key`
unfoldable pub limiter_key : Request → String
unfolding bucket_key
limiter_key r = String.◌++◌ "ratelimit:" (bucket_key r)

unfoldable pub limit_of : Config → Request → ℕ
unfolding is_auth
limit_of c r = if is_auth r.path then c.auth_limit else c.default_limit

-- A key that is not there holds the empty set.
abbrev pub stored : Option SortedSet → SortedSet
stored none = record { entries = []; deadline = none }
stored (some z) = z

-- `defaultdict(list)`
abbrev pub bucket_of : Option (List ℕ) → List ℕ
bucket_of none = []
bucket_of (some b) = b

-- `_check_memory` on the dict of buckets
unfoldable pub check_bucket : Config → Moment → String → ℕ → Limiter → Bool × Limiter
check_bucket c m key limit l =
    let (passed, b) =
      check_memory (c.window_seconds * 1000) limit m.now_ms (bucket_of (lookup key l.buckets)) in
    (passed, record l { buckets = insert key b l.buckets })

-- The script on the key's sorted set.
unfoldable pub check_script : Config → Moment → String → ℕ → Limiter → Bool × Limiter
check_script c m key limit l =
    let (passed, z) =
      sliding_window (c.window_seconds * 1000) limit m.now_ms m.random
        (stored (lookup key l.redis)) in
    (passed, record l { redis = insert key z l.redis })

-- `_check_redis`: the script, or the bucket if Redis raises.
unfoldable pub check_redis : Config → Moment → String → ℕ → Limiter → Bool × Limiter
unfolding check_bucket check_script
check_redis c m key limit l =
    if m.redis_up then check_script c m key limit l else check_bucket c m key limit l

pub data Verdict : Type 0 where
  -- `call_next(request)`
  served : Verdict
  -- status 429 with the header `Retry-After`
  too_many_requests : ℕ → Verdict

unfoldable pub dispatch : Config → Moment → Request → Limiter → Verdict × Limiter
unfolding check_redis limiter_key limit_of is_exempt
dispatch c m r l =
    if is_exempt r.path
    then (served, l)
    else let (allowed, l') = check_redis c m (limiter_key r) (limit_of c r) l in
      (if allowed then served else too_many_requests c.window_seconds, l')

-- What a check on one key does to the others.
abbrev pub Untouched : String → Limiter → Limiter → Type 0
Untouched key l l' =
    (lookup key l'.redis ≡ lookup key l.redis) × (lookup key l'.buckets ≡ lookup key l.buckets)

check_redis-Untouched :
    (c : Config) (m : Moment) (own key : String) (limit : ℕ) (l : Limiter)
    → own ≢ key
    → Untouched key l (check_redis c m own limit l).1
unfolding check_redis
check_redis-Untouched c m own key limit l ne = elim (Bool-cases m.redis_up) [
  | inl up ↦ rw up (lookup-insert_ne own key _ l.redis ne, refl)
  | inr down ↦ rw down (refl, lookup-insert_ne own key _ l.buckets ne)
]

-- A request whose path is exempt, or whose limiter key is another, leaves the Redis set and the
-- in-memory bucket of a key as they were.
pub dispatch-Untouched :
    (c : Config) (m : Moment) (r : Request) (l : Limiter) (key : String)
    → ((is_exempt r.path ≡ true) ⊎ (limiter_key r ≢ key))
    → Untouched key l (dispatch c m r l).1
unfolding dispatch
dispatch-Untouched c m r l key (inl exempt) = rw exempt (refl, refl)
dispatch-Untouched c m r l key (inr other) = elim (Bool-cases (is_exempt r.path)) [
  | inl exempt ↦ rw exempt (refl, refl)
  | inr counted ↦ rw counted (check_redis-Untouched c m (limiter_key r) key (limit_of c r) l other)
]

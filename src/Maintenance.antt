-- ===== src/Maintenance.antt =====
-- app/middleware/maintenance.py, once the Redis client is resolved.
use ops_pilot_be.Prelude.{
  Bool, false, ◌||◌, Option, none, some, [], ◌∷◌, String, ◌==◌, string_eq, contains, if◌then◌else◌,
}
use text.Mathlib.Text.{starts_with}
use ops_pilot_be.Auth.Models.{Time}
use ops_pilot_be.Auth.Tokens.{Security, Claims}

-- The request passes on, or is answered with 503.
pub data Passage : Type 0 where
  passed blocked : Passage

abbrev pub bypasses : String → Bool
bypasses path =
    contains path ("/health" ∷ "/healthz" ∷ "/" ∷ "/docs" ∷ "/redoc" ∷ "/openapi.json" ∷ [])
    || starts_with path "/api/v1/admin"

-- What Redis gives for the flag: it raises, or there is no value, or a text, or bytes.
pub data Stored : Type 0 where
  unavailable missing : Stored
  as_text as_bytes : String → Stored

-- `is_maintenance == b"true"`: a text is never equal to bytes.
abbrev pub is_on : Stored → Bool
is_on unavailable = false
is_on missing = false
is_on (as_text t) = false
is_on (as_bytes t) = t == "true"

abbrev pub has_role : Option Claims → Bool
has_role none = false
has_role (some payload) = payload.role == "super_admin"

-- `second_word` is `auth_header.split(" ")[1]`.
abbrev pub is_super_admin : (String → String) → Security → Time → Option String → Bool
is_super_admin second_word s now none = false
is_super_admin second_word s now (some auth_header) =
    if starts_with auth_header "Bearer "
    then has_role (s.decode now (second_word auth_header))
    else false

unfoldable pub dispatch_maintenance :
    (String → String) → Security → Time → String → Option String → Stored → Passage
dispatch_maintenance second_word s now path auth_header flag =
    if bypasses path
    then passed
    else if is_on flag
    then (if is_super_admin second_word s now auth_header then passed else blocked)
    else passed

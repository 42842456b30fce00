-- ===== src/Auth/Routes/Logout.antt =====
-- On the logout route of app/modules/auth/routes.py.
use Prim.Native.String
use Prim.Native.Char.{Char, code}
use text.Mathlib.TextLemmas.{cons-append, nil-append}
use ops_pilot_be.Prelude.{
  ◌+◌, ◌*◌, ◌≤◌, ◌≡◌, refl, Bool, true, false, ◌&&◌, not, some, String, string_eq, ◌==◌, err, arith,
  Bool-cases, inl, inr, bind-err, nat_beq, nat_beq_iff, ap, ◌∙◌,
}
use ops_pilot_be.Exceptions.{Error}
use ops_pilot_be.RateLimit.Dispatch.{is_space, lstrip, rstrip, keep_unless_last}
use ops_pilot_be.ApiKeys.{starts_with}
use ops_pilot_be.Auth.Models.{Time}
use ops_pilot_be.Auth.Tokens.{Security, Claims, Blacklist, second}
use ops_pilot_be.Auth.Service.{Tables, logout, refresh_tokens, get_current_user}
use ops_pilot_be.Auth.Revocation.{logout-ends_both}
use ops_pilot_be.Auth.Dependencies.{current_user, get_current_active_user}
use ops_pilot_be.Auth.Routes.{remove_bearer, token_of_header, logout_route, refresh_token, get_me}

-- No character is white space, as in the text of a token.
abbrev pub is_solid : String → Bool
is_solid String.[] = true
is_solid (String.◌∷◌ c s) = not (is_space (code c)) && is_solid s

solid_head : (c : Char) (s : String) → is_solid (String.◌∷◌ c s) ≡ true → is_space (code c) ≡ false
solid_head c s h = ground arith

solid_tail : (c : Char) (s : String) → is_solid (String.◌∷◌ c s) ≡ true → is_solid s ≡ true
solid_tail c s h = ground arith

blank_tail :
    (c : Char) (s : String)
    → is_space (code c) ≡ false
    → is_solid (String.◌∷◌ c s) ≡ false
    → is_solid s ≡ false
blank_tail c s k h = ground arith

-- A text with white space is no beginning of a solid one.
starts_with-solid :
    (p s : String) → is_solid p ≡ false → is_solid s ≡ true → starts_with p s ≡ false
unfolding starts_with
starts_with-solid String.[] s h k = cc
starts_with-solid (String.◌∷◌ c p) String.[] h k = refl
starts_with-solid (String.◌∷◌ c p) (String.◌∷◌ d s) h k =
    elim (Bool-cases (nat_beq (code c) (code d))) [
      | inr apart ↦ rw apart refl
      | inl same ↦
          let codes : code c ≡ code d = (nat_beq_iff (code c) (code d)).0 same in
          rw
            (
              same,
              starts_with-solid p s (blank_tail c p (ap is_space codes ∙ solid_head d s k) h)
                  (solid_tail d s k),
            )
            refl
    ]

bearer_blank : is_solid "Bearer " ≡ false
unfolding is_space
bearer_blank = refl

remove_bearer-solid : (s : String) → is_solid s ≡ true → remove_bearer 0 s ≡ s
unfolding remove_bearer
remove_bearer-solid String.[] h = refl
remove_bearer-solid (String.◌∷◌ c s) h =
    rw (starts_with-solid "Bearer " (String.◌∷◌ c s) bearer_blank h, remove_bearer)
      (rw (remove_bearer-solid s (solid_tail c s h)) refl)

lstrip-solid : (s : String) → is_solid s ≡ true → lstrip s ≡ s
unfolding lstrip
lstrip-solid String.[] h = refl
lstrip-solid (String.◌∷◌ c s) h = rw (solid_head c s h) refl

rstrip-solid : (s : String) → is_solid s ≡ true → rstrip s ≡ s
unfolding rstrip keep_unless_last
rstrip-solid String.[] h = refl
rstrip-solid (String.◌∷◌ c String.[]) h = rw (solid_head c String.[] h) refl
rstrip-solid (String.◌∷◌ c (String.◌∷◌ d s)) h =
    rw (rstrip-solid (String.◌∷◌ d s) (solid_tail c (String.◌∷◌ d s) h)) refl

remove_bearer-prefix :
    (token : String) → is_solid token ≡ true → remove_bearer 0 (String.◌++◌ "Bearer " token) ≡ token
unfolding remove_bearer
remove_bearer-prefix token h =
    rw
      (
        cons-append "B" "earer " token,
        cons-append "e" "arer " token,
        cons-append "a" "rer " token,
        cons-append "r" "er " token,
        cons-append "e" "r " token,
        cons-append "r" " " token,
        cons-append " " "" token,
        nil-append token,
      )
      (remove_bearer-solid token h)

token_of_header-bearer :
    (token : String) → is_solid token ≡ true → token_of_header (String.◌++◌ "Bearer " token) ≡ token
unfolding token_of_header
token_of_header-bearer token h =
    rw (remove_bearer-prefix token h, lstrip-solid token h, rstrip-solid token h) refl

get_me-err :
    (s : Security) (now : Time) (token : String) (t : Tables)
    → (x : Error) × (get_current_user s now token t ≡ err x)
    → (x : Error) × (get_me s now (some token) t ≡ err x)
unfolding get_me get_current_active_user current_user
get_me-err s now token t (x, e) = (x, rw e refl)

-- With Redis configured, a call of the logout route with the header `Bearer ` and an access token
-- without white space, and with a non-empty refresh token, both of which decode, makes the route of
-- the profile refuse the access token and the route of the refresh refuse the refresh token, at
-- every later time that is at least a second before both expiries.
pub logout_route-ends_session :
    (s : Security) (now later : Time) (access refresh : String) (a r : Claims) (redis : Blacklist)
    (t : Tables)
    → is_solid access ≡ true
    → s.decode now access ≡ some a
    → s.decode now refresh ≡ some r
    → (refresh == "") ≡ false
    → now ≤ later
    → later + second ≤ a.exp * second
    → later + second ≤ r.exp * second
    → t.redis ≡ some redis
    → ((x : Error) × (get_me s later
            (some access)
            (logout_route s now (String.◌++◌ "Bearer " access) (some refresh) t).1
          ≡ err x))
      × ((x : Error) × (refresh_token s later refresh
              (logout_route s now (String.◌++◌ "Bearer " access) (some refresh) t).1
            ≡ err x))
unfolding logout_route
logout_route-ends_session s now later access refresh a r redis t solid da dr full h ka kr e =
    let (first, other) =
      logout-ends_both s now later access refresh a r redis t (logout s now access (some refresh) t)
        da dr full h ka kr e refl in
    rw (token_of_header-bearer access solid) (
      get_me-err s later access (logout s now access (some refresh) t) first.1,
      unfold refresh_token in bind-err (refresh_tokens s later refresh _) _ other.0,
    )

-- ===== src/Auth/Revocation.antt =====
-- On the token blacklist of app/modules/auth/service.py, through refresh and logout.
use ops_pilot_be.Prelude.{
  inl, inr, ℕ, ◌+◌, ◌*◌, ◌≤◌, ◌<◌, ◌≡◌, refl, true, false, Option, none, some, String, string_eq,
  ltb, ◌==◌, Result, ok, err, arith, Bool-cases, Option-cases, result-cases, bind-ok, bind-err,
  eq_iff, lt→ltb, sym, ◌∙◌,
}
use mathlib.Core.Option
use ops_pilot_be.Prelude.Dict.{insert, lookup-insert, lookup-insert_self}
use ops_pilot_be.Exceptions.{Error, ErrorClass, init}
use ops_pilot_be.Auth.Models.{Uuid, Time}
use ops_pilot_be.Auth.Tokens.{
  Security, Claims, Blacklist, second, blacklist_key, is_token_blacklisted, ttl_of, blacklist_token,
}
use ops_pilot_be.Auth.Service.{
  user_model, Tables, TokenResponse, subject, refresh_tokens, logout, get_current_user, renew,
}
use ops_pilot_be.Repository.{get_by_id}

-- The entry lives until less than a second before the token expires.
until_after :
    (exp : ℕ) (now later : Time)
    → now ≤ later
    → later + second ≤ exp * second
    → (0 < ttl_of exp now) × (later < now + ttl_of exp now * second)
until_after exp now later h k = (omega arith, omega arith)

blacklist_token-revokes :
    (now later : Time) (token : String) (c : Claims) (redis : Blacklist)
    → now ≤ later
    → later + second ≤ c.exp * second
    → is_token_blacklisted (blacklist_token now token c (some redis)) later token ≡ true
unfolding is_token_blacklisted blacklist_token
blacklist_token-revokes now later token c redis h k =
    let (positive, alive) = until_after c.exp now later h k in
    rw
      (
        lt→ltb _ _ positive,
        lookup-insert_self (blacklist_key token) (now + ttl_of c.exp now * second) redis,
      )
      (lt→ltb _ _ alive)

blacklist_token-some :
    (now : Time) (token : String) (c : Claims) (redis : Blacklist)
    → (redis' : Blacklist) × (blacklist_token now token c (some redis) ≡ some redis')
unfolding blacklist_token
blacklist_token-some now token c redis = elim (Bool-cases (ltb 0 (ttl_of c.exp now))) [
  | inl positive ↦
      (insert (blacklist_key token) (now + ttl_of c.exp now * second) redis, rw positive refl)
  | inr zero_ ↦ (redis, rw zero_ refl)
]

blacklist_token-keeps :
    (now later : Time) (token other : String) (c : Claims) (redis : Option Blacklist)
    → now ≤ later
    → later + second ≤ c.exp * second
    → is_token_blacklisted redis later other ≡ true
    → is_token_blacklisted (blacklist_token now token c redis) later other ≡ true
unfolding is_token_blacklisted blacklist_token
blacklist_token-keeps now later token other c none h k e = e
blacklist_token-keeps now later token other c (some redis) h k e =
    let (positive, alive) = until_after c.exp now later h k in
    rw
      (
        lt→ltb _ _ positive,
        lookup-insert (blacklist_key token) (blacklist_key other) (now + ttl_of c.exp now * second)
            redis,
      )
      (elim (Bool-cases (blacklist_key token == blacklist_key other)) [
        | inl same ↦ rw same (lt→ltb _ _ alive)
        | inr apart ↦ rw apart e
      ])

abbrev pub Refused : {A : Type 0} → Result Error A → Type 0
Refused r = (e : Error) × (r ≡ err e)

-- No service accepts a token that the blacklist has.
subject-Refused :
    (s : Security) (now : Time) (type refusal token : String) (t : Tables)
    → is_token_blacklisted t.redis now token ≡ true
    → Refused (subject s now type refusal token t)
subject-Refused s now type refusal token t e = elim (Option-cases (s.decode now token)) [
  | inl none_ ↦ (init ErrorClass.invalid_token none, rw none_ refl)
  | inr (c, some_) ↦ elim (Bool-cases (c.type == type)) [
    | inl same ↦
        (init ErrorClass.invalid_token (some "Token has been revoked."), rw (some_, same, e) refl)
    | inr other ↦ (init ErrorClass.invalid_token (some refusal), rw (some_, other) refl)
  ]
]

abbrev pub IsRevoked : Security → Time → String → Tables → Type 0
IsRevoked s now token t =
    Refused (refresh_tokens s now token t) × Refused (get_current_user s now token t)

blacklisted-IsRevoked :
    (s : Security) (now : Time) (token : String) (t : Tables)
    → is_token_blacklisted t.redis now token ≡ true
    → IsRevoked s now token t
unfolding refresh_tokens get_current_user
blacklisted-IsRevoked s now token t e = (
  bind-err _ _ (subject-Refused s now "refresh" "Expected a refresh token." token t e),
  bind-err _ _ (subject-Refused s now "access" "Expected an access token." token t e),
)

-- What an accepted token says.
pub subject-ok :
    (s : Security) (now : Time) (type refusal token : String) (t : Tables) (who : Claims × Uuid)
    → subject s now type refusal token t ≡ ok who
    → (s.decode now token ≡ some who.0)
      × (who.0.type ≡ type)
      × (is_token_blacklisted t.redis now token ≡ false)
      × (s.parse_uuid who.0.sub ≡ some who.1)
subject-ok s now type refusal token t who e = elim (Option-cases (s.decode now token)) [
  | inl none_ ↦ cc (rw none_ at e)
  | inr (c, some_) ↦ elim (Bool-cases (c.type == type)) [
    | inr other ↦ cc (rw (some_, other) at e)
    | inl same ↦ elim (Bool-cases (is_token_blacklisted t.redis now token)) [
      | inl revoked ↦ cc (rw (some_, same, revoked) at e)
      | inr live ↦ elim (Bool-cases (c.sub == "")) [
        | inl empty_ ↦ cc (rw (some_, same, live, empty_) at e)
        | inr full ↦ elim (Option-cases (s.parse_uuid c.sub)) [
          | inl bad ↦ cc (rw (some_, same, live, full, bad) at e)
          | inr (i, good) ↦
              let accepted : who ≡ (c, i) = cc (rw (some_, same, live, full, good) at e) in
              rw accepted (some_, (eq_iff c.type type).0 same, live, good)
        ]
      ]
    ]
  ]
]

renew-redis :
    (s : Security) (now : Time) (token : String) (t : Tables) (who : Claims × Uuid)
    (pair : TokenResponse) (t' : Tables)
    → renew s now token t who ≡ ok (pair, t')
    → t'.redis ≡ blacklist_token now token who.0 t.redis
unfolding renew
renew-redis s now token t (c, i) pair t' e = elim (result-cases (get_by_id i t.users)) [
  | inl (x, h) ↦ cc (rw h at e)
  | inr (none, h) ↦ cc (rw h at e)
  | inr (some u, h) ↦ elim (Bool-cases u.is_active) [
    | inl active ↦ cc (rw (h, active) at e)
    | inr inactive ↦ cc (rw (h, inactive) at e)
  ]
]

-- With Redis configured, a refresh token that was exchanged is refused by both `refresh_tokens` and
-- `get_current_user` at every later time that is at least a second before its expiry, whatever has
-- become of users and businesses, if the blacklist is as the exchange left it.
pub refresh_tokens-once :
    (s : Security) (now later : Time) (token : String) (c : Claims) (redis : Blacklist) (t : Tables)
    (pair : TokenResponse) (t' u : Tables)
    → s.decode now token ≡ some c
    → now ≤ later
    → later + second ≤ c.exp * second
    → t.redis ≡ some redis
    → refresh_tokens s now token t ≡ ok (pair, t')
    → u.redis ≡ t'.redis
    → IsRevoked s later token u
unfolding refresh_tokens
refresh_tokens-once s now later token c redis t pair t' u d h k r e same =
    let (who, accepted, renewed) =
      bind-ok (subject s now "refresh" "Expected a refresh token." token t) (renew s now token t)
        (pair, t') e in
    let (decoded, _, _, _) =
      subject-ok s now "refresh" "Expected a refresh token." token t who accepted in
    let claims : who.0 ≡ c = Option.some-injective _ _ (sym decoded ∙ d) in
    let left = renew-redis s now token t who pair t' renewed in
    blacklisted-IsRevoked s later token u
      (rw (same, left, claims, r) (blacklist_token-revokes now later token c redis h k))

-- With Redis configured, a logout with an access token and a non-empty refresh token that both
-- decode makes `refresh_tokens` and `get_current_user` refuse both tokens at every later time that
-- is at least a second before either expiry, if the blacklist is as the logout left it.
pub logout-ends_both :
    (s : Security) (now later : Time) (access refresh : String) (a r : Claims) (redis : Blacklist)
    (t u : Tables)
    → s.decode now access ≡ some a
    → s.decode now refresh ≡ some r
    → (refresh == "") ≡ false
    → now ≤ later
    → later + second ≤ a.exp * second
    → later + second ≤ r.exp * second
    → t.redis ≡ some redis
    → u.redis ≡ (logout s now access (some refresh) t).redis
    → IsRevoked s later access u × IsRevoked s later refresh u
unfolding logout
logout-ends_both s now later access refresh a r redis t u da dr full h ka kr e same =
    let first = blacklist_token now access a (some redis) in
    let left : u.redis ≡ blacklist_token now refresh r first = rw (same, da, full, dr, e) refl in
    let (redis', is_first) = blacklist_token-some now access a redis in
    (
      blacklisted-IsRevoked s later access u (
          rw left (
            blacklist_token-keeps now later refresh access r first h kr
              (blacklist_token-revokes now later access a redis h ka))),
      blacklisted-IsRevoked s later refresh u
          (rw (left, is_first) (blacklist_token-revokes now later refresh r redis' h kr)),
    )

-- ===== src/Auth/Access.antt =====
-- On the permission dependency of app/modules/auth/dependencies.py.
use ops_pilot_be.Prelude.{
  ◌==◌, string_eq, inl, inr, ◌≡◌, true, Option, none, some, List, [], ◌∷◌, String, ok, All,
  contains, Bool-cases, result-cases,
}
use ops_pilot_be.Auth.Models.{Time, User, role_value}
use ops_pilot_be.Auth.Tokens.{Security}
use ops_pilot_be.Auth.Service.{Tables, get_current_user}
use ops_pilot_be.Auth.Sessions.{MayAct, get_current_user-MayAct}
use ops_pilot_be.Auth.Dependencies.{
  get_current_principal, current_user, get_current_active_user, check_permissions,
  require_permission,
}
use ops_pilot_be.ApiKeys.{ApiKey, active_with_hash, touch}
use ops_pilot_be.Repository.{get_one_by}
use ops_pilot_be.ApiKeys.Laws.{authenticate_api_key-owner}
use ops_pilot_be.Permissions.{Permission, permission_eq, get_role_permissions}

check_permissions-All :
    (ps granted : List Permission)
    → check_permissions ps granted ≡ ok tt
    → All (λ p. contains p granted ≡ true) ps
unfolding check_permissions
check_permissions-All [] granted e = tt
check_permissions-All (p ∷ ps) granted e = elim (Bool-cases (contains p granted)) [
  | inl has ↦ (has, check_permissions-All ps granted (rw has at e))
  | inr lacks ↦ cc (rw lacks at e)
]

-- What entitles the principal `u` of a request, and what becomes of the keys.
abbrev pub Entitled :
    (String → String)
    → (String → String)
    → Time
    → Option String
    → Option String
    → Tables
    → List ApiKey
    → List ApiKey
    → User
    → Type 0
Entitled sha256 last_four now (some _) _ t keys keys' u = MayAct t u × (keys' ≡ keys)
Entitled sha256 last_four now none none t keys keys' u = ⊥
Entitled sha256 last_four now none (some raw) t keys keys' u =
    (k : ApiKey) × (get_one_by (active_with_hash sha256 last_four (sha256 raw)) keys ≡ ok (some k))
    × (u.id ≡ k.created_by)
    × (keys' ≡ touch sha256 last_four k.id now keys)

module _ (s : Security) (now : Time) where
  pub active-MayAct :
      (credentials : Option String) (t : Tables) (u : User)
      → get_current_active_user s now credentials t ≡ ok u
      → MayAct t u
  unfolding get_current_active_user current_user
  active-MayAct none t u e = cc
  active-MayAct (some token) t u e = elim (result-cases (get_current_user s now token t)) [
    | inl (x, h) ↦ cc (rw h at e)
    | inr (v, h) ↦ elim (Bool-cases v.is_active) [
      | inr inactive ↦ cc (rw (h, inactive) at e)
      | inl active ↦
          let same : v ≡ u = cc (rw (h, active) at e) in
          let (c, _, _, _, _, may) = get_current_user-MayAct s now token t v h in rw (← same) may
    ]
  ]

  -- If `require_permission` lets a request through, its user is stored, active and not deleted, with
  -- no deleted business, and the user's role has every permission that the route lists.
  pub require_permission-All :
      (permissions : List Permission) (credentials : Option String) (t : Tables) (u : User)
      → require_permission s now permissions credentials t ≡ ok u
      → MayAct t u
        × All (λ p. contains p (get_role_permissions (role_value u.role)) ≡ true) permissions
  unfolding require_permission
  require_permission-All permissions credentials t u e =
      elim (result-cases (get_current_active_user s now credentials t)) [
        | inl (x, h) ↦ cc (rw h at e)
        | inr (v, h) ↦
            elim (result-cases
              (check_permissions permissions (get_role_permissions (role_value v.role)))) [
                | inl (x, h') ↦ cc (rw (h, h') at e)
                | inr (tt, h') ↦
                    let same : v ≡ u = cc (rw (h, h') at e) in
                    rw (← same)
                      (active-MayAct credentials t v h, check_permissions-All permissions _ h')
              ]
      ]

  -- A user that `get_current_principal` returns is active. With a bearer token the user may act and
  -- the keys are left as they are; without one, the given API key's digest selects one active key,
  -- which the user created, and that key's time of last use alone is changed.
  pub get_current_principal-active :
      (sha256 last_four : String → String) (credentials x_api_key : Option String) (t : Tables)
      (keys keys' : List ApiKey) (u : User)
      → get_current_principal s now sha256 last_four credentials x_api_key t keys ≡ ok (u, keys')
      → (u.is_active ≡ true) × Entitled sha256 last_four now credentials x_api_key t keys keys' u
  unfolding get_current_principal
  get_current_principal-active sha256 last_four (some token) x_api_key t keys keys' u e =
      elim (result-cases (get_current_user s now token t)) [
        | inl (x, h) ↦ cc (rw h at e)
        | inr (v, h) ↦
            let same : v ≡ u = cc (rw h at e) in
            let (c, _, _, _, _, may) = get_current_user-MayAct s now token t v h in
            rw (← same) (may.active, (may, cc (rw h at e)))
      ]
  get_current_principal-active sha256 last_four none none t keys keys' u e = cc
  get_current_principal-active sha256 last_four none (some api_key) t keys keys' u e =
      elim (Bool-cases (api_key == "")) [
        | inl empty_ ↦ cc (rw empty_ at e)
        | inr full ↦
            let (k, selected, _, mine, acts, _, touched) =
              authenticate_api_key-owner sha256 last_four now api_key t.users keys keys' u
                (rw full at e) in
            (acts, (k, selected, mine, touched))
      ]

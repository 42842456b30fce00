-- ===== src/Admin/Routes/Guard.antt =====
-- On who may call the routes of app/modules/admin/routes.py.
use ops_pilot_be.Prelude.{
  ◌≡◌, Option, some, String, ok, ℕ, ◌==◌, bind-ok, result-cases, inl, inr, Bool-cases, true,
}
use ops_pilot_be.Auth.Models.{Time, User, UserRole, role_eq}
use ops_pilot_be.Auth.Tokens.{Security}
use ops_pilot_be.Auth.Service.{Tables, get_current_user}
use ops_pilot_be.Auth.Sessions.{MayAct}
use ops_pilot_be.Auth.Access.{active-MayAct}
use ops_pilot_be.Auth.Dependencies.{current_user, get_current_active_user, get_current_super_admin}
use ops_pilot_be.Admin.Routes.{AdminRequest, Platform, Outside, Envelope, route, serve_admin}

pub active-current :
    (s : Security) (now : Time) (token : String) (t : Tables) (u : User)
    → get_current_active_user s now (some token) t ≡ ok u
    → get_current_user s now token t ≡ ok u
unfolding get_current_active_user current_user
active-current s now token t u e = elim (result-cases (get_current_user s now token t)) [
  | inl (x, h) ↦ cc (rw h at e)
  | inr (v, h) ↦ elim (Bool-cases v.is_active) [
    | inl on ↦ let same : v ≡ u = cc (rw (h, on) at e) in rw (← same) h
    | inr off ↦ cc (rw (h, off) at e)
  ]
]

module _ (s : Security) (now : Time) (credentials : Option String) where
  pub super_admin-ok :
      (t : Tables) (u : User)
      → get_current_super_admin s now credentials t ≡ ok u
      → (get_current_active_user s now credentials t ≡ ok u)
        × ((u.role == UserRole.super_admin) ≡ true)
  unfolding get_current_super_admin
  super_admin-ok t u e = elim (result-cases (get_current_active_user s now credentials t)) [
    | inl (x, h) ↦ cc (rw h at e)
    | inr (v, h) ↦ elim (Bool-cases (v.role == UserRole.super_admin)) [
      | inl is_admin ↦ let same : v ≡ u = cc (rw (h, is_admin) at e) in rw (← same) (h, is_admin)
      | inr other ↦ cc (rw (h, other) at e)
    ]
  ]

  pub serve_admin-MayAct :
      (out : Outside) (str : ℕ → String) (request : AdminRequest) (p p' : Platform)
      (answer : Envelope)
      → serve_admin out str now s credentials request p ≡ ok (answer, p')
      → (u : User) × MayAct p.tables u
        × (u.role ≡ UserRole.super_admin)
        × (route out str now request p ≡ ok (answer, p'))
  unfolding serve_admin
  serve_admin-MayAct out str request p p' answer e =
      let (u, admitted, done) =
        bind-ok (get_current_super_admin s now credentials p.tables)
          (λ _. route out str now request p) (answer, p') e in
      let (active, is_admin) = super_admin-ok p.tables u admitted in
      (
        u,
        active-MayAct s now credentials p.tables u active,
        (role_eq.equal_iff u.role UserRole.super_admin).0 is_admin,
        done,
      )

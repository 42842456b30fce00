-- ===== src/Auth/Seeding/Seeded.antt =====
-- On `seed_super_admin` of app/main.py and the login of app/modules/auth/service.py.
use ops_pilot_be.Prelude.{
  ◌≡◌, refl, true, false, ◌||◌, some, List, [], ◌∷◌, ◌++◌, String, ok, ◌==◌, nat_eq, string_eq,
  eq_iff, nat_beq_iff, any, arith, Bool-cases, inl, inr,
}
use ops_pilot_be.Repository.{get_one_by, get_by_id, create, has_id, scalar_one_or_none}
use ops_pilot_be.Repository.Rows.{filter-nil-of_any, any-implied}
use ops_pilot_be.Auth.Models.{Uuid, Time, User, UserRole}
use ops_pilot_be.Auth.Tokens.{Security}
use ops_pilot_be.Auth.Service.{user_model, Tables, generate_tokens, login, get_by_email}
use ops_pilot_be.Auth.Sessions.{MayAct}
use ops_pilot_be.Auth.Registration.{user_clash}
use ops_pilot_be.Auth.Registering.{get_one_by-new}
use ops_pilot_be.Auth.Seeding.{new_admin, seed_super_admin}

module _ (s : Security) (email password : String) (new_id : Uuid) where
  -- No user has the id, or the e-mail in whatever case.
  abbrev pub IsUnused : List User → Type 0
  IsUnused users =
      any (λ (u : User). u.id == new_id || s.sql_lower u.email == s.lower email) users ≡ false

  abbrev admin : User
  admin = new_admin s email password new_id

  module _ (users : List User) (unused : IsUnused users)
      (lowered : s.sql_lower email ≡ s.lower email) where
    no_email : any (λ (u : User). u.email == email) users ≡ false
    no_email =
        any-implied (λ (u : User). u.email == email)
          (λ (u : User). u.id == new_id || s.sql_lower u.email == s.lower email) users
          (λ u h.
            let same : u.email ≡ email = (eq_iff u.email email).0 h in
            let found = (eq_iff (s.sql_lower u.email) (s.lower email)).1 (rw same lowered) in
            ground (arith, found))
          unused

    no_clash : any (user_clash admin) users ≡ false
    no_clash =
        any-implied (user_clash admin)
          (λ (u : User). u.id == new_id || s.sql_lower u.email == s.lower email) users
          (λ u h. elim (Bool-cases (u.id == new_id)) [
            | inl here ↦ rw here refl
            | inr other ↦
                let mail : (u.email == email) ≡ true = ground (arith, other) in
                let same : u.email ≡ email = (eq_iff u.email email).0 mail in
                let found = (eq_iff (s.sql_lower u.email) (s.lower email)).1 (rw same lowered) in
                ground (arith, found)
          ])
          unused

    seeded : seed_super_admin s email password new_id users ≡ users ++ admin ∷ []
    unfolding seed_super_admin get_one_by scalar_one_or_none create
    seeded = rw (filter-nil-of_any (λ (u : User). u.email == email) users no_email, no_clash) refl

    by_id : get_by_id new_id (users ++ admin ∷ []) ≡ ok (some admin)
    unfolding get_by_id
    by_id =
        get_one_by-new (has_id new_id) users admin
          (any-implied (has_id new_id)
            (λ (u : User). u.id == new_id || s.sql_lower u.email == s.lower email) users
            (λ u h. rw h refl) unused)
          ((nat_beq_iff new_id new_id).1 refl)

    by_email : get_by_email s email (users ++ admin ∷ []) ≡ ok (some admin)
    unfolding get_by_email
    by_email =
        get_one_by-new (λ (u : User). s.sql_lower u.email == s.lower email) users admin
          (any-implied (λ (u : User). s.sql_lower u.email == s.lower email)
            (λ (u : User). u.id == new_id || s.sql_lower u.email == s.lower email) users
            (λ u h. ground (arith, h)) unused)
          ((eq_iff (s.sql_lower email) (s.lower email)).1 lowered)

    again :
        (other : Uuid)
        → seed_super_admin s email password other (users ++ admin ∷ []) ≡ users ++ admin ∷ []
    unfolding seed_super_admin
    again other =
        rw
          (get_one_by-new (λ (u : User). u.email == email) users admin no_email
            ((eq_iff email email).1 refl))
          refl

pub seed_super_admin-login :
    (s : Security) (email password : String) (new_id other : Uuid) (later : Time) (t t' : Tables)
    → IsUnused s email password new_id t.users
    → s.sql_lower email ≡ s.lower email
    → s.checkpw password (s.hashpw password) ≡ true
    → t' ≡ record t { users = seed_super_admin s email password new_id t.users }
    → (u : User) × (login s later email password t' ≡ ok (u, generate_tokens s later u))
      × (u.role ≡ UserRole.super_admin)
      × MayAct t' u
      × (seed_super_admin s email password other t'.users ≡ t'.users)
unfolding login
seed_super_admin-login s email password new_id other later t t' unused lowered checks after =
    let users = seeded s email password new_id t.users unused lowered in
    rw (after, users)
      (
        new_admin s email password new_id,
        rw (by_email s email password new_id t.users unused lowered, checks) refl,
        refl,
        record {
          stored = by_id s email password new_id t.users unused lowered;
          kept = refl;
          active = refl;
          workspace = refl;
        },
        again s email password new_id t.users unused lowered other,
      )

-- ===== src/Auth/Seeding.antt =====
-- `seed_super_admin` of app/main.py, with the e-mail and the password of the settings.
pub mod Seeded
use ops_pilot_be.Prelude.{true, Option, none, some, List, String, Result, ok, err, ◌==◌, string_eq}
use ops_pilot_be.Exceptions.{Error}
use ops_pilot_be.Repository.{get_one_by, create}
use ops_pilot_be.Auth.Models.{Uuid, User, UserRole}
use ops_pilot_be.Auth.Tokens.{Security}
use ops_pilot_be.Auth.Registration.{user_clash}

module _ (s : Security) (email password : String) where
  -- `new_id` is the UUID that the flush gives.
  abbrev pub new_admin : Uuid → User
  new_admin new_id = record {
    id = new_id;
    email = email;
    password_hash = s.hashpw password;
    first_name = "Original";
    last_name = "Super Admin";
    phone = none;
    role = UserRole.super_admin;
    is_active = true;
    is_verified = true;
    deleted_at = none;
    business_id = none;
  }

  -- An exception of the commit is logged, and nothing is stored.
  abbrev pub stored_or : List User → Result Error (User × List User) → List User
  stored_or users (ok (_, users')) = users'
  stored_or users (err _) = users

  abbrev pub seed_unless : Uuid → List User → Result Error (Option User) → List User
  seed_unless new_id users (ok none) = stored_or users (create user_clash (new_admin new_id) users)
  seed_unless new_id users (ok (some _)) = users
  seed_unless new_id users (err _) = users

  unfoldable pub seed_super_admin : Uuid → List User → List User
  seed_super_admin new_id users =
      seed_unless new_id users (get_one_by (λ (u : User). u.email == email) users)

-- ===== src/Auth/Models.antt =====
-- The `users` table of app/modules/auth/models.py.
use ops_pilot_be.Prelude.{ℕ, String, Option, Bool, true, false, ◌≡◌, ◌↔◌, Eq, arith}

-- Primary keys are UUIDs, which the program only compares; times are whole microseconds.
abbrev pub Uuid : Type 0
Uuid = ℕ

abbrev pub Time : Type 0
Time = ℕ

pub data UserRole : Type 0 where
  super_admin owner manager cashier sales_rep : UserRole

-- `UserRole.value`
abbrev pub role_value : UserRole → String
role_value UserRole.super_admin = "super_admin"
role_value UserRole.owner = "owner"
role_value UserRole.manager = "manager"
role_value UserRole.cashier = "cashier"
role_value UserRole.sales_rep = "sales_rep"

abbrev role_beq : UserRole → UserRole → Bool
role_beq UserRole.super_admin UserRole.super_admin = true
role_beq UserRole.owner UserRole.owner = true
role_beq UserRole.manager UserRole.manager = true
role_beq UserRole.cashier UserRole.cashier = true
role_beq UserRole.sales_rep UserRole.sales_rep = true
role_beq _ _ = false

pub role_beq_iff : (a b : UserRole) → (role_beq a b ≡ true) ↔ (a ≡ b)
role_beq_iff UserRole.super_admin b = ground arith
role_beq_iff UserRole.owner b = ground arith
role_beq_iff UserRole.manager b = ground arith
role_beq_iff UserRole.cashier b = ground arith
role_beq_iff UserRole.sales_rep b = ground arith

instance abbrev pub role_eq : Eq UserRole
role_eq = record { equal = role_beq; equal_iff = role_beq_iff }

pub record User : Type 0 where
  pub id : Uuid
  pub email : String
  pub password_hash : String
  pub first_name : String
  pub last_name : String
  pub phone : Option String
  pub role : UserRole
  pub is_active : Bool
  pub is_verified : Bool
  pub deleted_at : Option Time
  pub business_id : Option Uuid

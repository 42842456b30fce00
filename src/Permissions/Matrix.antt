-- ===== src/Permissions/Matrix.antt =====
-- On the role matrix of app/core/permissions.py.
use ops_pilot_be.Prelude.{String, Bool, true, not, ◌||◌, ◌≡◌, arith, contains}
use ops_pilot_be.Permissions.{Permission, permission_eq, get_role_permissions}

-- If role `s` holds a permission, so does role `r`.
abbrev pub covers : String → String → Permission → Bool
covers r s p = not (contains p (get_role_permissions s)) || contains p (get_role_permissions r)

-- Every permission of an owner is a super administrator's, every one of a manager or a cashier is an
-- owner's, and every one of a sales representative is a manager's.
pub hierarchy :
    (p : Permission)
    → (covers "super_admin" "owner" p ≡ true)
      × (covers "owner" "manager" p ≡ true)
      × (covers "owner" "cashier" p ≡ true)
      × (covers "manager" "sales_rep" p ≡ true)
unfolding get_role_permissions
hierarchy p = ground arith

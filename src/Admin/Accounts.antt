-- ===== src/Admin/Accounts.antt =====
-- The overrides of `AdminService` on the tables of users and workspaces. A deleted user leaves no
-- owner, as the foreign key `businesses.owner_id` says; the rows of other tables that refer to a
-- deleted one are the database's.
use ops_pilot_be.Prelude.{
  ◌&&◌, Bool, not, Option, none, some, List, String, Result, ok, ◌>>=◌, or_raise, ◌==◌, nat_eq,
  option_eq, is_some, filter, any, map, if◌then◌else◌,
}
use ops_pilot_be.Exceptions.{Error, ErrorClass, init}
use ops_pilot_be.Repository.{Model, get_by_id, update, delete}
use ops_pilot_be.Auth.Models.{Uuid, Time, User, UserRole, role_value, role_eq}
use ops_pilot_be.Businesses.Models.{Business, business_model}
use ops_pilot_be.Auth.Service.{user_model, Tables}

-- The row, or `NotFoundError(detail)`.
unfoldable pub find_row : {A : Type 0} ⦃m : Model A⦄ → Uuid → String → List A → Result Error A
find_row i detail t = do
  found ← get_by_id i t
  or_raise found (init ErrorClass.not_found (some detail))

abbrev pub find_business : Uuid → Tables → Result Error Business
find_business i t = find_row i "Business workspace not found." t.businesses

abbrev pub find_user : Uuid → Tables → Result Error User
find_user i t = find_row i "User account not found." t.users

abbrev pub flip_business : Business → Business
flip_business b = record b { is_active = not b.is_active }

unfoldable pub toggle_business_status : Uuid → Tables → Result Error ((Uuid × Bool) × Tables)
toggle_business_status i t = do
  biz ← find_business i t
  ok (
    (biz.id, not biz.is_active),
    record t { businesses = update biz.id flip_business t.businesses },
  )

-- `deleted_at` is stamped once.
abbrev pub stamp : Time → Option Time → Time
stamp now none = now
stamp now (some at_) = at_

abbrev pub close_business : Time → Business → Business
close_business now b = record b { deleted_at = some (stamp now b.deleted_at) }

unfoldable pub soft_delete_business : Time → Uuid → Tables → Result Error ((Uuid × Time) × Tables)
soft_delete_business now i t = do
  biz ← find_business i t
  ok (
    (biz.id, stamp now biz.deleted_at),
    if is_some biz.deleted_at
        then t
        else record t { businesses = update biz.id (close_business now) t.businesses },
  )

-- `ON DELETE SET NULL` of `businesses.owner_id`, for the users that a test selects.
abbrev is_owned_by : (User → Bool) → List User → Business → Bool
is_owned_by gone users b = any (λ (u : User). gone u && b.owner_id == some u.id) users

abbrev pub disown : (User → Bool) → List User → Business → Business
disown gone users b = if is_owned_by gone users b then record b { owner_id = none } else b

abbrev pub works_for : Uuid → User → Bool
works_for i u = u.business_id == some i

unfoldable pub hard_purge_business : Uuid → Tables → Result Error (Unit {0} × Tables)
hard_purge_business i t = do
  biz ← find_business i t
  ok (
    tt,
    record t {
      users = filter (λ (u : User). not (works_for i u)) t.users;
      businesses = delete i (map (disown (works_for i) t.users) t.businesses);
    },
  )

abbrev pub with_role : UserRole → User → User
with_role role u = record u {
  role = role;
  business_id = if role == UserRole.super_admin then none else u.business_id;
}

unfoldable pub update_user_role :
    Uuid → UserRole → Tables → Result Error ((Uuid × String × Option Uuid) × Tables)
update_user_role i role t = do
  user ← find_user i t
  ok (
    (user.id, role_value role, (with_role role user).business_id),
    record t { users = update user.id (with_role role) t.users },
  )

abbrev pub flip_user : User → User
flip_user u = record u { is_active = not u.is_active }

unfoldable pub toggle_user_status : Uuid → Tables → Result Error ((Uuid × Bool) × Tables)
toggle_user_status i t = do
  user ← find_user i t
  ok ((user.id, not user.is_active), record t { users = update user.id flip_user t.users })

abbrev pub remove_user : Time → User → User
remove_user now u = record u { deleted_at = some (stamp now u.deleted_at) }

unfoldable pub soft_delete_user : Time → Uuid → Tables → Result Error ((Uuid × Time) × Tables)
soft_delete_user now i t = do
  user ← find_user i t
  ok (
    (user.id, stamp now user.deleted_at),
    if is_some user.deleted_at
        then t
        else record t { users = update user.id (remove_user now) t.users },
  )

unfoldable pub hard_purge_user : Uuid → Tables → Result Error (Unit {0} × Tables)
hard_purge_user i t = do
  user ← find_user i t
  ok (
    tt,
    record t {
      users = delete i t.users;
      businesses = map (disown (λ (u : User). u.id == i) t.users) t.businesses;
    },
  )

-- ===== src/Businesses.antt =====
-- `BusinessService` of app/modules/businesses/service.py, on the table of workspaces.
pub mod Models
use ops_pilot_be.Prelude.{
  Bool, not, Option, some, List, [], ◌∷◌, ◌++◌, String, string_eq, nat_eq, option_eq, ◌==◌, Result,
  ok, err, ◌>>=◌, ◌>>◌, raise_if, or_raise, contains,
}
use ops_pilot_be.Exceptions.{Error, ErrorClass, ops, integrity_error}
use ops_pilot_be.Repository.{get_by_id, get_one_by, exists, update}
use ops_pilot_be.Repository.Partial.{Given, unset, given, set_text, set_nullable, is_null_given}
use ops_pilot_be.Auth.Models.{Uuid, User, UserRole, role_eq}
use ops_pilot_be.Businesses.Models.{Business, business_model}

pub record UpdateBusinessRequest : Type 0 where
  pub name : Given
  pub description : Given
  pub industry : Given
  pub email : Given
  pub phone : Given
  pub address : Given
  pub logo_url : Given

abbrev pub has_slug : String → Business → Bool
has_slug slug b = b.slug == slug

unfoldable pub get_by_slug : String → List Business → Result Error (Option Business)
get_by_slug slug t = get_one_by (has_slug slug) t

unfoldable pub slug_exists : String → List Business → Bool
slug_exists slug t = exists (has_slug slug) t

unfoldable pub get_business : Uuid → List Business → Result Error Business
get_business i t = do
  found ← get_by_id i t
  or_raise found (ops ErrorClass.not_found "Business not found.")

unfoldable pub get_current_business : User → List Business → Result Error Business
unfolding get_business
get_current_business u t = do
  i ← or_raise u.business_id (ops ErrorClass.not_found "No business associated with this account.")
  get_business i t

unfoldable pub get_business_by_slug : String → List Business → Result Error Business
unfolding get_by_slug
get_business_by_slug slug t = do
  found ← get_by_slug slug t
  or_raise found (ops ErrorClass.not_found "Business not found.")

-- The loop of `setattr`.
abbrev pub with_details : UpdateBusinessRequest → Business → Business
with_details p b = record b {
  name = set_text p.name b.name;
  description = set_nullable p.description b.description;
  industry = set_nullable p.industry b.industry;
  email = set_nullable p.email b.email;
  phone = set_nullable p.phone b.phone;
  address = set_nullable p.address b.address;
  logo_url = set_nullable p.logo_url b.logo_url;
}

abbrev pub key_if_given : String → Given → List String
key_if_given key unset = []
key_if_given key (given _) = key ∷ []

-- `list(update_data.keys())`, in the order of the schema.
abbrev pub updated_fields : UpdateBusinessRequest → List String
updated_fields p =
    key_if_given "name" p.name
    ++ (key_if_given "description" p.description
        ++ (key_if_given "industry" p.industry
            ++ (key_if_given "email" p.email
                ++ (key_if_given "phone" p.phone
                    ++ (key_if_given "address" p.address ++ key_if_given "logo_url" p.logo_url)))))

-- The answer: the row, the table, and the fields that the event business.updated names. A null name
-- is refused by the database.
unfoldable pub update_business :
    Uuid
    → UpdateBusinessRequest
    → User
    → List Business
    → Result Error (Business × List Business × List String)
unfolding get_business
update_business i p u t = do
  b ← get_business i t
  raise_if (not (u.business_id == some b.id))
      (ops ErrorClass.forbidden "You do not belong to this business.")
  raise_if (not (contains u.role (UserRole.owner ∷ UserRole.manager ∷ [])))
      (ops ErrorClass.forbidden "Only owners and managers can update business details.")
  raise_if (is_null_given p.name) integrity_error
  ok (with_details p b, update b.id (with_details p) t, updated_fields p)

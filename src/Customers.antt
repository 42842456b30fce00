-- ===== src/Customers.antt =====
-- `CustomerService` of app/modules/customers/service.py, with the payloads of its schemas.
pub mod Laws
use ops_pilot_be.Prelude.{
  Bool, ◌&&◌, not, Option, some, [], ◌∷◌, ◌++◌, String, string_eq, nat_eq, ◌==◌, Result, ok, err,
  ◌>>=◌, ◌>>◌, raise_if, or_raise, is_some, if◌then◌else◌,
}
use ops_pilot_be.Exceptions.{Error, ops, ErrorClass, integrity_error}
use ops_pilot_be.Repository.{Uuid, get_one_by, create, update}
use ops_pilot_be.Repository.Partial.{Given, given, is_null_given, set_nullable, set_text}
use ops_pilot_be.Store.{Store, Customer, customer_model, customer_clash, customer_created}

pub record CustomerCreate : Type 0 where
  pub name : String
  pub phone : String
  pub email : Option String
  pub notes : Option String

pub record CustomerUpdate : Type 0 where
  pub name : Given
  pub phone : Given
  pub email : Given
  pub notes : Given

abbrev pub has_phone : Uuid → String → Customer → Bool
has_phone b phone c = c.business_id == b && c.phone == phone

abbrev pub of_business : Uuid → Uuid → Customer → Bool
of_business b i c = c.id == i && c.business_id == b

abbrev pub new_customer : Uuid → Uuid → CustomerCreate → Customer
new_customer new_id b p = record {
  id = new_id;
  name = p.name;
  phone = p.phone;
  email = p.email;
  notes = p.notes;
  business_id = b;
}

abbrev pub phone_taken : Error
phone_taken = ops ErrorClass.conflict "A customer with this phone number already exists."

unfoldable pub create_customer :
    Uuid → Uuid → CustomerCreate → Store → Result Error (Customer × Store)
create_customer new_id b p s = do
  existing ← get_one_by (has_phone b p.phone) s.customers
  raise_if (is_some existing) phone_taken
  (customer, customers') ← create customer_clash (new_customer new_id b p) s.customers
  ok (
    customer,
    record s {
      customers = customers';
      emitted = s.emitted ++ customer_created customer.id b customer.phone ∷ [];
    },
  )

unfoldable pub get_customer : Uuid → Uuid → Store → Result Error Customer
get_customer b i s = do
  found ← get_one_by (of_business b i) s.customers
  or_raise found (ops ErrorClass.not_found "Customer not found.")

abbrev pub with_changes : CustomerUpdate → Customer → Customer
with_changes p c = record c {
  name = set_text p.name c.name;
  phone = set_text p.phone c.phone;
  email = set_nullable p.email c.email;
  notes = set_nullable p.notes c.notes;
}

-- `payload.phone and payload.phone != customer.phone`, and then the query for another customer.
unfoldable pub check_phone : Uuid → Given → Customer → Store → Result Error (Unit {0})
check_phone b (given (some phone)) c s =
    if not (phone == "") && not (phone == c.phone)
    then (do
      existing ← get_one_by (has_phone b phone) s.customers
      raise_if (is_some existing) phone_taken)
    else ok tt
check_phone b _ c s = ok tt

unfoldable pub update_customer :
    Uuid → Uuid → CustomerUpdate → Store → Result Error (Customer × Store)
unfolding get_customer check_phone
update_customer b i p s = do
  customer ← get_customer b i s
  check_phone b p.phone customer s
  raise_if (is_null_given p.name) integrity_error
  raise_if (is_null_given p.phone) integrity_error
  ok (
    with_changes p customer,
    record s { customers = update customer.id (with_changes p) s.customers },
  )

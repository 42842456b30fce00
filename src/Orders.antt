-- ===== src/Orders.antt =====
-- app/modules/orders/service.py.
pub mod Laws
use ops_pilot_be.Prelude.{
  ℕ, Bool, ◌&&◌, Option, [], ◌∷◌, ◌++◌, String, nat_eq, ◌==◌, Result, ok, ◌>>=◌, or_raise,
  if◌then◌else◌,
}
use ops_pilot_be.Exceptions.{Error, ops, ErrorClass}
use ops_pilot_be.Repository.{Uuid, get_one_by, create, update}
use ops_pilot_be.Store.{
  Store, Order, OrderStatus, order_status_eq, Customer, order_model, order_clash, order_created,
  order_status_changed,
}

pub record OrderCreate : Type 0 where
  pub customer_id : Uuid
  pub total_amount : ℕ
  pub notes : Option String

-- `get_one_by(id=…, business_id=…)`
abbrev pub owned_customer : Uuid → Uuid → Customer → Bool
owned_customer i b c = c.id == i && c.business_id == b

abbrev pub owned_order : Uuid → Uuid → Order → Bool
owned_order i b o = o.id == i && o.business_id == b

-- The row that `create_order` adds.
abbrev pub new_order : Uuid → Uuid → OrderCreate → Order
new_order new_id business_id payload = record {
  id = new_id;
  status = OrderStatus.pending;
  total_amount = payload.total_amount;
  notes = payload.notes;
  customer_id = payload.customer_id;
  business_id = business_id;
}

-- `new_id` is the UUID that the flush gives to the new row.
unfoldable pub create_order : Uuid → Uuid → OrderCreate → Store → Result Error (Order × Store)
create_order new_id business_id payload s = do
  found ← get_one_by (owned_customer payload.customer_id business_id) s.customers
  customer ←
      or_raise found
        (ops ErrorClass.not_found "Customer not found or does not belong to your business.")
  (order', orders') ← create order_clash (new_order new_id business_id payload) s.orders
  ok (
    order',
    record s {
      orders = orders';
      emitted =
          s.emitted
          ++ order_created order'.id business_id order'.customer_id order'.total_amount ∷ [];
    },
  )

unfoldable pub get_order : Uuid → Uuid → Store → Result Error Order
get_order business_id order_id s = do
  found ← get_one_by (owned_order order_id business_id) s.orders
  or_raise found (ops ErrorClass.not_found "Order not found.")

abbrev pub with_status : OrderStatus → Order → Order
with_status status o = record o { status = status }

unfoldable pub update_status : Uuid → Uuid → OrderStatus → Store → Result Error (Order × Store)
unfolding get_order
update_status business_id order_id status s = do
  order ← get_order business_id order_id s
  if order.status == status
      then ok (order, s)
      else ok (
        with_status status order,
        record s {
          orders = update order.id (with_status status) s.orders;
          emitted = s.emitted ++ order_status_changed order.id business_id order.status status ∷ [];
        },
      )

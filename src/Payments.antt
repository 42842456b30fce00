-- ===== src/Payments.antt =====
-- app/modules/payments/service.py. The provider's answer is simulated by the code: a pending payment
-- that is looked up succeeds.
pub mod Laws
use Prim.Native.String
use ops_pilot_be.Prelude.{
  Bool, ◌&&◌, Option, none, some, List, [], ◌∷◌, ◌++◌, String, nat_eq, string_eq, ◌==◌, Result, ok,
  ◌>>=◌, or_raise, not, if◌then◌else◌,
}
use ops_pilot_be.Exceptions.{Error, ops, ErrorClass}
use ops_pilot_be.Repository.{Uuid, get_one_by, get_by_id, create, update}
use ops_pilot_be.Orders.{owned_order, with_status}
use ops_pilot_be.Store.{
  Store, Order, OrderStatus, Payment, PaymentProvider, PaymentStatus, payment_model, order_model,
  payment_clash, is_pending, payment_initialized, payment_successful,
}

-- The row that `initialize_payment` adds.
abbrev pub new_payment : Uuid → String → Uuid → PaymentProvider → Order → Payment
new_payment new_id suffix order_id provider order =
    let tx_ref = String.◌++◌ "tx-" suffix in
    record {
      id = new_id;
      order_id = order_id;
      provider = provider;
      tx_ref = tx_ref;
      status = PaymentStatus.pending;
      amount = order.total_amount;
      payment_url = some (String.◌++◌ "https://checkout.paystack.com/mock-" tx_ref);
    }

-- `new_id` is the new row's UUID, `suffix` the twelve random characters of the reference.
unfoldable pub initialize_payment :
    Uuid → String → Uuid → Uuid → PaymentProvider → Store → Result Error (Payment × Store)
initialize_payment new_id suffix business_id order_id provider s = do
  found ← get_one_by (owned_order order_id business_id) s.orders
  order ←
      or_raise found
        (ops ErrorClass.not_found "Order not found or does not belong to your business.")
  (payment', payments') ←
      create payment_clash (new_payment new_id suffix order_id provider order) s.payments
  ok (
    payment',
    record s {
      payments = payments';
      emitted = s.emitted ++ payment_initialized payment'.id payment'.order_id payment'.tx_ref ∷ [];
    },
  )

abbrev pub has_ref : String → Payment → Bool
has_ref tx_ref p = p.tx_ref == tx_ref

abbrev pub succeed : Payment → Payment
succeed p = record p { status = PaymentStatus.success }

-- `if order: order.status = COMPLETED`
abbrev pub complete : Option Order → List Order → List Order
complete none orders = orders
complete (some o) orders = update o.id (with_status OrderStatus.completed) orders

-- What follows once the payment is found.
unfoldable pub verify_found : Payment → Store → Result Error (Payment × Store)
verify_found payment s =
    if is_pending payment.status
    then (do
      order ← get_by_id payment.order_id s.orders
      ok (
        succeed payment,
        record s {
          payments = update payment.id succeed s.payments;
          orders = complete order s.orders;
          emitted = s.emitted ++ payment_successful payment.id payment.order_id payment.amount ∷ [];
        },
      ))
    else ok (payment, s)

unfoldable pub verify_payment : String → Store → Result Error (Payment × Store)
unfolding verify_found
verify_payment tx_ref s = do
  found ← get_one_by (has_ref tx_ref) s.payments
  payment ← or_raise found (ops ErrorClass.not_found "Transaction reference not found.")
  verify_found payment s

-- `handle_webhook`, with `data.get("reference")`; an empty reference counts as none.
unfoldable pub handle_webhook : String → Option String → Store → Result Error Store
unfolding verify_payment
handle_webhook event none s = ok s
handle_webhook event (some tx_ref) s =
    if event == "charge.success" && not (tx_ref == "")
    then (do done ← verify_payment tx_ref s; ok done.1)
    else ok s

-- ===== src/Commerce.antt =====
-- Calls of the services of customers, orders and payments (app/modules), one request after the other.
-- Each has a session of its own, which is rolled back where the service raises.
pub mod Sequences
use ops_pilot_be.Prelude.{List, [], ◌∷◌, Option, String, Result, ok, err}
use ops_pilot_be.Exceptions.{Error}
use ops_pilot_be.Repository.{Uuid}
use ops_pilot_be.Store.{Store, OrderStatus, PaymentProvider}
use ops_pilot_be.Customers.{CustomerCreate, CustomerUpdate, create_customer, update_customer}
use ops_pilot_be.Orders.{OrderCreate, create_order, update_status}
use ops_pilot_be.Payments.{initialize_payment, verify_payment, handle_webhook}

-- The arguments of a call; the first of a creation is the new id.
pub data Call : Type 0 where
  customer_created : Uuid → Uuid → CustomerCreate → Call
  customer_updated : Uuid → Uuid → CustomerUpdate → Call
  order_created : Uuid → Uuid → OrderCreate → Call
  status_updated : Uuid → Uuid → OrderStatus → Call
  payment_initialized : Uuid → String → Uuid → Uuid → PaymentProvider → Call
  payment_verified : String → Call
  webhook : String → Option String → Call

abbrev pub commit : {A : Type 0} → Store → Result Error (A × Store) → Store
commit s (ok (_, s')) = s'
commit s (err _) = s

abbrev pub commit_store : Store → Result Error Store → Store
commit_store s (ok s') = s'
commit_store s (err _) = s

unfoldable pub perform : Call → Store → Store
perform (customer_created new_id b p) s = commit s (create_customer new_id b p s)
perform (customer_updated b i p) s = commit s (update_customer b i p s)
perform (order_created new_id b p) s = commit s (create_order new_id b p s)
perform (status_updated b i status) s = commit s (update_status b i status s)
perform (payment_initialized new_id suffix b i provider) s =
    commit s (initialize_payment new_id suffix b i provider s)
perform (payment_verified tx_ref) s = commit s (verify_payment tx_ref s)
perform (webhook event tx_ref) s = commit_store s (handle_webhook event tx_ref s)

unfoldable pub perform_all : List Call → Store → Store
unfolding perform
perform_all [] s = s
perform_all (c ∷ cs) s = perform_all cs (perform c s)

-- ===== src/Commerce/Sequences.antt =====
-- On sequences of calls of the services of customers, orders and payments (app/modules).
use ops_pilot_be.Prelude.{
  List, [], ◌∷◌, Option, none, some, String, string_eq, ◌==◌, ◌&&◌, not, Result, ok, err,
  Bool-cases, inl, inr, result-cases, arith,
}
use ops_pilot_be.Exceptions.{Error}
use ops_pilot_be.Store.{Store}
use ops_pilot_be.Store.Valid.{IsValid, Keeps}
use ops_pilot_be.Customers.Laws.{create_customer-Keeps, update_customer-Keeps}
use ops_pilot_be.Orders.Laws.{create_order-Keeps, update_status-Keeps}
use ops_pilot_be.Payments.{verify_payment, handle_webhook}
use ops_pilot_be.Payments.Laws.{initialize_payment-Keeps, verify_payment-Keeps}
use ops_pilot_be.Commerce.{
  Call, customer_created, customer_updated, order_created, status_updated, payment_initialized,
  payment_verified, webhook, commit, commit_store, perform, perform_all,
}

abbrev pub empty_store : Store
empty_store = record { customers = []; orders = []; payments = []; emitted = [] }

commit-IsValid :
    {A : Type 0} (s : Store) (r : Result Error (A × Store))
    → IsValid s
    → Keeps r
    → IsValid (commit s r)
commit-IsValid s (ok (_, s')) v k = k
commit-IsValid s (err _) v k = v

webhook-IsValid :
    (event : String) (tx_ref : Option String) (s : Store)
    → ((r : String) → Keeps (verify_payment r s))
    → IsValid s
    → IsValid (commit_store s (handle_webhook event tx_ref s))
unfolding handle_webhook
webhook-IsValid event none s keeps v = v
webhook-IsValid event (some r) s keeps v =
    elim (Bool-cases (event == "charge.success" && not (r == ""))) [
      | inr other ↦ rw other v
      | inl charged ↦ elim (result-cases (verify_payment r s)) [
        | inl (x, h) ↦ rw (charged, h) v
        | inr ((q, s'), h) ↦ rw (charged, h) (rw h at (keeps r))
      ]
    ]

perform-IsValid : (c : Call) (s : Store) → IsValid s → IsValid (perform c s)
unfolding perform
perform-IsValid (customer_created new_id b p) s v =
    commit-IsValid s _ v (create_customer-Keeps new_id b p s v)
perform-IsValid (customer_updated b i p) s v =
    commit-IsValid s _ v (update_customer-Keeps b i p s v)
perform-IsValid (order_created new_id b p) s v =
    commit-IsValid s _ v (create_order-Keeps new_id b p s v)
perform-IsValid (status_updated b i status) s v =
    commit-IsValid s _ v (update_status-Keeps b i status s v)
perform-IsValid (payment_initialized new_id suffix b i provider) s v =
    commit-IsValid s _ v (initialize_payment-Keeps new_id suffix b i provider s v)
perform-IsValid (payment_verified r) s v = commit-IsValid s _ v (verify_payment-Keeps r s v)
perform-IsValid (webhook event tx_ref) s v =
    webhook-IsValid event tx_ref s (λ r. verify_payment-Keeps r s v) v

run-IsValid : (cs : List Call) (s : Store) → IsValid s → IsValid (perform_all cs s)
unfolding perform_all
run-IsValid [] s v = v
run-IsValid (c ∷ cs) s v = run-IsValid cs (perform c s) (perform-IsValid c s v)

-- After any sequence of calls on empty tables, creating and updating customers, placing orders,
-- changing their status, initializing and verifying payments and receiving webhooks, of any
-- businesses and each rolled back where it fails, the ids of customers, orders and payments and the
-- payment references are unique, every order names a customer of its own business, and every payment
-- names a stored order.
pub perform_all-IsValid : (cs : List Call) → IsValid (perform_all cs empty_store)
perform_all-IsValid cs = run-IsValid cs empty_store (record {
  one_customer = λ i. omega arith;
  one_order = λ i. omega arith;
  one_payment = λ i. omega arith;
  one_ref = λ r. omega arith;
  same_business = tt;
  known_order = tt;
})

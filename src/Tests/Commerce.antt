-- ===== src/Tests/Commerce.antt =====
-- Customers, orders, payments and metering, on concrete inputs.
use ops_pilot_be.Prelude.{
  ◌≡◌, refl, Bool, none, [], ◌∷◌, ok, inl, inr, arith, string_eq, nat_eq, Bool-cases, ◌>>=◌,
  or_raise, ◌==◌,
}
use ops_pilot_be.Repository.{get_one_by, get_by_id, scalar_one_or_none, update, has_id}
use ops_pilot_be.Repository.Rows.{AtMostOne, kept_if}
use ops_pilot_be.Exceptions.{ErrorClass, ops}
use ops_pilot_be.Store.{
  Store, Customer, Order, Payment, OrderStatus, PaymentStatus, PaymentProvider, customer_model,
  order_model, payment_model, payment_successful,
}
use ops_pilot_be.Store.Valid.{IsValid}
use ops_pilot_be.Customers.{CustomerCreate, has_phone, create_customer}
use ops_pilot_be.Customers.Laws.{KeepsPhones, create_customer-KeepsPhones}
use ops_pilot_be.Orders.{OrderCreate, get_order}
use ops_pilot_be.Orders.Laws.{get_order-hides}
use ops_pilot_be.Payments.{verify_payment, has_ref, verify_found, succeed}
use ops_pilot_be.Payments.Laws.{Settled, verify_payment-settles, verify_payment-idempotent}

abbrev ada : Customer
ada = record {
  id = 1;
  name = "Ada";
  phone = "+2348000000001";
  email = none;
  notes = none;
  business_id = 5;
}

abbrev her_order : Order
her_order = record {
  id = 2;
  status = OrderStatus.pending;
  total_amount = 900;
  notes = none;
  customer_id = 1;
  business_id = 5;
}

abbrev her_payment : Payment
her_payment = record {
  id = 3;
  order_id = 2;
  provider = PaymentProvider.paystack;
  tx_ref = "tx-1";
  status = PaymentStatus.pending;
  amount = 900;
  payment_url = none;
}

abbrev pub shop : Store
shop = record {
  customers = ada ∷ [];
  orders = her_order ∷ [];
  payments = her_payment ∷ [];
  emitted = [];
}

single : {A : Type 0} (p : A → Bool) (r : A) → AtMostOne p (r ∷ [])
single p r = elim (Bool-cases (p r)) [ inl h ↦ rw h (omega arith) | inr h ↦ rw h (omega arith) ]

shop-IsValid : IsValid shop
shop-IsValid = record {
  one_customer = λ i. single (has_id i) ada;
  one_order = λ i. single (has_id i) her_order;
  one_payment = λ i. single (has_id i) her_payment;
  one_ref = λ r. single (has_ref r) her_payment;
  same_business = (refl, tt);
  known_order = (refl, tt);
}

abbrev pub bola : CustomerCreate
bola = record { name = "Bola"; phone = "+2348000000002"; email = none; notes = none }

create_customer-KeepsPhones_example : KeepsPhones (create_customer 8 5 bola shop)
create_customer-KeepsPhones_example =
    create_customer-KeepsPhones 8 5 bola shop shop-IsValid
      (λ b phone. single (has_phone b phone) ada)

-- Business 6 asks for the order of business 5.
get_order-hides_example : get_order 6 2 shop ≡ (do
  row ← get_by_id 2 shop.orders
  or_raise (kept_if (λ o. o.business_id == 6) row) (ops ErrorClass.not_found "Order not found."))
get_order-hides_example = get_order-hides 6 2 shop (shop-IsValid.one_order 2)

abbrev pub second_order : OrderCreate
second_order = record { customer_id = 1; total_amount = 100; notes = none }

verify_payment-settles_example :
    Settled "tx-1" her_payment her_order shop (verify_payment "tx-1" shop)
unfolding get_one_by scalar_one_or_none get_by_id
verify_payment-settles_example =
    verify_payment-settles "tx-1" shop her_payment her_order refl refl refl

-- The shop once the payment is verified.
abbrev paid_shop : Store
paid_shop = record {
  customers = shop.customers;
  orders = record her_order { status = OrderStatus.completed } ∷ [];
  payments = succeed her_payment ∷ [];
  emitted = payment_successful 3 2 900 ∷ [];
}

verify_payment-idempotent_example :
    verify_payment "tx-1" paid_shop ≡ ok (succeed her_payment, paid_shop)
unfolding verify_payment verify_found get_one_by scalar_one_or_none get_by_id update
verify_payment-idempotent_example =
    verify_payment-idempotent "tx-1" shop (succeed her_payment) paid_shop refl

-- ===== src/Store/Valid.antt =====
-- The validity of the tables `customers`, `orders` and `payments`.
use ops_pilot_be.Prelude.{
  ◌≡◌, Bool, true, any, All, String, string_eq, nat_eq, ◌==◌, Result, ok, err, ◌&&◌,
}
use ops_pilot_be.Repository.{Uuid, has_id}
use ops_pilot_be.Repository.Rows.{AtMostOne}
use ops_pilot_be.Exceptions.{Error}
use ops_pilot_be.Store.{Store, Customer, Order, Payment, customer_model, order_model, payment_model}

-- The customer that an order names, in the order's own business.
abbrev pub is_customer_of : Order → Customer → Bool
is_customer_of o c = c.id == o.customer_id && c.business_id == o.business_id

pub record IsValid (s : Store) : Type 0 where
  pub one_customer : (i : Uuid) → AtMostOne (has_id i) s.customers
  pub one_order : (i : Uuid) → AtMostOne (has_id i) s.orders
  pub one_payment : (i : Uuid) → AtMostOne (has_id i) s.payments
  pub one_ref : (r : String) → AtMostOne (λ (p : Payment). p.tx_ref == r) s.payments
  -- no order names a customer of another business
  pub same_business : All (λ o. any (is_customer_of o) s.customers ≡ true) s.orders
  pub known_order : All (λ (p : Payment). any (has_id p.order_id) s.orders ≡ true) s.payments

-- What a call returns is a valid store, where it returns one; an error leaves the store as it was.
abbrev pub Keeps : {A : Type 0} → Result Error (A × Store) → Type 0
Keeps (ok (_, s)) = IsValid s
Keeps (err _) = Unit {0}

-- ===== src/Store.antt =====
-- The tables `customers`, `orders` and `payments` (the `models.py` of these modules) and the events
-- that their services have emitted. Amounts are whole cents, as `Numeric(10, 2)` stores them.
pub mod Valid
use ops_pilot_be.Prelude.{
  ℕ, Bool, true, false, ◌||◌, Option, List, String, string_eq, nat_eq, ◌==◌, Eq, ◌≡◌, ◌↔◌, arith,
}
use ops_pilot_be.Repository.{Uuid, Model}

pub data OrderStatus : Type 0 where
  pending processing completed cancelled : OrderStatus

abbrev order_status_beq : OrderStatus → OrderStatus → Bool
order_status_beq OrderStatus.pending OrderStatus.pending = true
order_status_beq OrderStatus.processing OrderStatus.processing = true
order_status_beq OrderStatus.completed OrderStatus.completed = true
order_status_beq OrderStatus.cancelled OrderStatus.cancelled = true
order_status_beq _ _ = false

pub order_status_beq_iff : (a b : OrderStatus) → (order_status_beq a b ≡ true) ↔ (a ≡ b)
order_status_beq_iff OrderStatus.pending b = ground arith
order_status_beq_iff OrderStatus.processing b = ground arith
order_status_beq_iff OrderStatus.completed b = ground arith
order_status_beq_iff OrderStatus.cancelled b = ground arith

instance abbrev pub order_status_eq : Eq OrderStatus
order_status_eq = record { equal = order_status_beq; equal_iff = order_status_beq_iff }

pub data PaymentProvider : Type 0 where
  paystack flutterwave : PaymentProvider

pub data PaymentStatus : Type 0 where
  pending success failed : PaymentStatus

abbrev pub is_pending : PaymentStatus → Bool
is_pending PaymentStatus.pending = true
is_pending _ = false

pub record Customer : Type 0 where
  pub id : Uuid
  pub name : String
  pub phone : String
  pub email : Option String
  pub notes : Option String
  pub business_id : Uuid

pub record Order : Type 0 where
  pub id : Uuid
  pub status : OrderStatus
  pub total_amount : ℕ
  pub notes : Option String
  pub customer_id : Uuid
  pub business_id : Uuid

pub record Payment : Type 0 where
  pub id : Uuid
  pub order_id : Uuid
  pub provider : PaymentProvider
  pub tx_ref : String
  pub status : PaymentStatus
  pub amount : ℕ
  pub payment_url : Option String

instance abbrev pub customer_model : Model Customer
customer_model = record { id_of = λ c. c.id }

instance abbrev pub order_model : Model Order
order_model = record { id_of = λ o. o.id }

instance abbrev pub payment_model : Model Payment
payment_model = record { id_of = λ p. p.id }

-- The columns that are unique in their table.
abbrev pub customer_clash : Customer → Customer → Bool
customer_clash c d = d.id == c.id

abbrev pub order_clash : Order → Order → Bool
order_clash o p = p.id == o.id

abbrev pub payment_clash : Payment → Payment → Bool
payment_clash p q = q.id == p.id || q.tx_ref == p.tx_ref

-- The payloads that the services emit.
pub data ServiceEvent : Type 0 where
  -- customer, business, phone
  customer_created : Uuid → Uuid → String → ServiceEvent
  -- order, business, customer, amount
  order_created : Uuid → Uuid → Uuid → ℕ → ServiceEvent
  -- order, business, old and new status
  order_status_changed : Uuid → Uuid → OrderStatus → OrderStatus → ServiceEvent
  -- payment, order, reference
  payment_initialized : Uuid → Uuid → String → ServiceEvent
  -- payment, order, amount
  payment_successful : Uuid → Uuid → ℕ → ServiceEvent

pub record Store : Type 0 where
  pub customers : List Customer
  pub orders : List Order
  pub payments : List Payment
  pub emitted : List ServiceEvent

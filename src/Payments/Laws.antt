-- ===== src/Payments/Laws.antt =====
-- On app/modules/payments/service.py and the validity of the tables.
use ops_pilot_be.Prelude.{
  ◌≡◌, refl, inl, inr, true, false, Option, none, some, List, [], ◌∷◌, ◌++◌, String, nat_eq,
  string_eq, Result, ok, err, ◌>>=◌, arith, any, All-append, Bool-cases, result-cases, eq_iff,
}
use ops_pilot_be.Exceptions.{Error}
use ops_pilot_be.Repository.{Uuid, get_one_by, get_by_id, update, has_id}
use ops_pilot_be.Repository.Updates.{get_one_by-update_self}
use ops_pilot_be.Repository.Rows.{
  AtMostOne-create, failed, missing, found, query, refused, stored, insertion, All-update,
  length-filter-update,
}
use ops_pilot_be.Store.{
  Store, ServiceEvent, Order, OrderStatus, Payment, PaymentProvider, order_model, customer_model,
  payment_model, payment_clash, is_pending, payment_successful,
}
use ops_pilot_be.Store.Valid.{IsValid, Keeps}
use ops_pilot_be.Orders.{owned_order, with_status}
use ops_pilot_be.Orders.Laws.{IsValid-with_status}
use ops_pilot_be.Payments.{
  new_payment, initialize_payment, has_ref, succeed, complete, verify_found, verify_payment,
}

has_id_of_owned : (i b : Uuid) (o : Order) → owned_order i b o ≡ true → has_id i o ≡ true
has_id_of_owned i b o h = ground arith

any-owned : (i b : Uuid) (t : List Order) → any (owned_order i b) t ≡ true → any (has_id i) t ≡ true
any-owned i b [] h = h
any-owned i b (o ∷ t) h = ground (arith, any-owned i b t)

pub initialize_payment-Keeps :
    (new_id : Uuid) (suffix : String) (b i : Uuid) (provider : PaymentProvider) (s : Store)
    → IsValid s
    → Keeps (initialize_payment new_id suffix b i provider s)
unfolding initialize_payment
initialize_payment-Keeps new_id suffix b i provider s v = elim (query (owned_order i b) s.orders) [
  | failed x h ↦ rw h tt
  | missing h _ ↦ rw h tt
  | found o h _ there ↦
      let p = new_payment new_id suffix i provider o in
      elim (insertion payment_clash p s.payments) [
        | refused h' ↦ rw (h, h') tt
        | stored h' fresh ↦
            rw (h, h')
              (record {
                one_customer = v.one_customer;
                one_order = v.one_order;
                one_payment = λ j.
                    AtMostOne-create (has_id j) payment_clash p s.payments
                      (λ x mine theirs. ground arith) (v.one_payment j) fresh;
                one_ref = λ r.
                    AtMostOne-create (has_ref r) payment_clash p s.payments
                      (λ x mine theirs.
                        ground
                          (arith, eq_iff p.tx_ref r, eq_iff x.tx_ref r, eq_iff x.tx_ref p.tx_ref))
                      (v.one_ref r) fresh;
                same_business = v.same_business;
                known_order =
                    All-append (λ q. any (has_id q.order_id) s.orders ≡ true) s.payments (p ∷ [])
                      v.known_order (any-owned i b s.orders there, tt);
              })
      ]
]

IsValid-succeed :
    (i : Uuid) (s : Store)
    → IsValid s
    → IsValid (record s { payments = update i succeed s.payments })
IsValid-succeed i s v = record {
  one_customer = v.one_customer;
  one_order = v.one_order;
  one_payment =
      λ j. rw (length-filter-update (has_id j) i succeed s.payments (λ p. refl)) (v.one_payment j);
  one_ref =
      λ r. rw (length-filter-update (has_ref r) i succeed s.payments (λ p. refl)) (v.one_ref r);
  same_business = v.same_business;
  known_order =
      All-update (λ q. any (has_id q.order_id) s.orders ≡ true) i succeed s.payments (λ q _ k. k)
        v.known_order;
}

IsValid-complete :
    (o : Option Order) (s : Store) (emitted : List ServiceEvent)
    → IsValid s
    → IsValid (record s { orders = complete o s.orders; emitted = emitted })
IsValid-complete none s emitted v = record {
  one_customer = v.one_customer;
  one_order = v.one_order;
  one_payment = v.one_payment;
  one_ref = v.one_ref;
  same_business = v.same_business;
  known_order = v.known_order;
}
IsValid-complete (some o) s emitted v = IsValid-with_status o.id OrderStatus.completed s emitted v

verify_found-Keeps : (p : Payment) (s : Store) → IsValid s → Keeps (verify_found p s)
unfolding verify_found
verify_found-Keeps p s v = elim (Bool-cases (is_pending p.status)) [
  | inl due ↦ rw due (go (get_by_id p.order_id s.orders))
  | inr settled ↦ rw settled v
]
  where
    paid : Store
    paid = record s { payments = update p.id succeed s.payments }

    go :
        (r : Result Error (Option Order))
        → Keeps (
            r >>= λ order. ok (
              succeed p,
              record s {
                payments = update p.id succeed s.payments;
                orders = complete order s.orders;
                emitted = s.emitted ++ payment_successful p.id p.order_id p.amount ∷ [];
              },
            ))
    go (err e) = tt
    go (ok o) = IsValid-complete o paid _ (IsValid-succeed p.id s v)

pub verify_payment-Keeps : (r : String) (s : Store) → IsValid s → Keeps (verify_payment r s)
unfolding verify_payment
verify_payment-Keeps r s v = elim (query (has_ref r) s.payments) [
  | failed x h ↦ rw h tt
  | missing h _ ↦ rw h tt
  | found p h _ _ ↦ rw h (verify_found-Keeps p s v)
]

-- Initializing and verifying a payment leave valid tables valid, where they succeed: ids and
-- references stay unique, and every payment names a stored order.
pub initialize_and_verify-Keeps :
    (new_id : Uuid) (suffix : String) (b i : Uuid) (provider : PaymentProvider) (r : String)
    (s : Store)
    → IsValid s
    → Keeps (initialize_payment new_id suffix b i provider s) × Keeps (verify_payment r s)
initialize_and_verify-Keeps new_id suffix b i provider r s v =
    (initialize_payment-Keeps new_id suffix b i provider s v, verify_payment-Keeps r s v)

verify_found-settled :
    (p : Payment) (s : Store) → is_pending p.status ≡ false → verify_found p s ≡ ok (p, s)
unfolding verify_found
verify_found-settled p s e = rw e

-- What a verification does to a pending payment `p` of the order `o`.
abbrev pub Settled : String → Payment → Order → Store → Result Error (Payment × Store) → Type 0
Settled r p o s (err _) = ⊥
Settled r p o s (ok (p', s')) =
    (p' ≡ succeed p)
    × (get_one_by (has_ref r) s'.payments ≡ ok (some (succeed p)))
    × (get_by_id p.order_id s'.orders ≡ ok (some (with_status OrderStatus.completed o)))
    × (s'.emitted ≡ s.emitted ++ payment_successful p.id p.order_id p.amount ∷ [])

-- If a reference selects one pending payment whose order is found by its id, the verification
-- returns that payment as a success, stores it so, stores its order as completed, and emits one
-- payment.successful event.
pub verify_payment-settles :
    (r : String) (s : Store) (p : Payment) (o : Order)
    → get_one_by (has_ref r) s.payments ≡ ok (some p)
    → get_by_id p.order_id s.orders ≡ ok (some o)
    → is_pending p.status ≡ true
    → Settled r p o s (verify_payment r s)
unfolding verify_payment
verify_payment-settles r s p o e eo due =
    rw (e, due, eo)
      (
        refl,
        get_one_by-update_self (has_ref r) succeed s.payments p (λ x. refl) e,
        unfold get_by_id in
            get_one_by-update_self (has_id p.order_id) (with_status OrderStatus.completed) s.orders
              o (λ x. refl) eo,
        refl,
      )

-- The payment that a verification returns is the stored one, and no longer pending.
abbrev IsStored : String → Payment → Store → Type 0
IsStored r p s = (get_one_by (has_ref r) s.payments ≡ ok (some p)) × (is_pending p.status ≡ false)

verify_found-IsStored :
    (r : String) (q : Payment) (s : Store) (p : Payment) (s' : Store)
    → get_one_by (has_ref r) s.payments ≡ ok (some q)
    → verify_found q s ≡ ok (p, s')
    → IsStored r p s'
unfolding verify_found
verify_found-IsStored r q s p s' h e = elim (Bool-cases (is_pending q.status)) [
  | inl due ↦ elim (result-cases (get_by_id q.order_id s.orders)) [
    | inl (x, failed_) ↦ cc (rw (due, failed_) at e)
    | inr (o, answer) ↦
        let same_p : succeed q ≡ p = cc (rw (due, answer) at e) in
        let same_s : update q.id succeed s.payments ≡ s'.payments =
          ground (arith, rw (due, answer) at e) in
        (
          rw (← same_s, ← same_p)
              (get_one_by-update_self (has_ref r) succeed s.payments q (λ x. refl) h),
          rw (← same_p) refl,
        )
  ]
  | inr settled ↦
      let same_p : q ≡ p = cc (rw settled at e) in
      let same_s : s.payments ≡ s'.payments = ground (arith, rw settled at e) in
      (rw (← same_s, ← same_p) h, rw (← same_p) settled)
]

-- If a verification of a reference succeeds, verifying the same reference again on the resulting
-- tables returns the same payment and changes nothing: no row, and no second event.
pub verify_payment-idempotent :
    (r : String) (s : Store) (p : Payment) (s' : Store)
    → verify_payment r s ≡ ok (p, s')
    → verify_payment r s' ≡ ok (p, s')
unfolding verify_payment
verify_payment-idempotent r s p s' e = elim (query (has_ref r) s.payments) [
  | failed x h ↦ cc (rw h at e)
  | missing h _ ↦ cc (rw h at e)
  | found q h _ _ ↦
      let (stored_p, settled) = verify_found-IsStored r q s p s' h (rw h at e) in
      rw stored_p (verify_found-settled p s' settled)
]

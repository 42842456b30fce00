-- ===== src/Orders/Laws.antt =====
-- On app/modules/orders/service.py and the validity of the tables.
use ops_pilot_be.Prelude.{
  ◌≡◌, refl, ◌≢◌, inl, inr, true, some, List, [], ◌∷◌, ◌++◌, nat_eq, ◌==◌, Result, ok, err, ◌>>=◌,
  or_raise, if◌then◌else◌, arith, any, All-imp, All-append, any-append, Bool-cases, ap, sym, ◌∙◌,
  append-nil,
}
use ops_pilot_be.Exceptions.{Error, ErrorClass, ops}
use ops_pilot_be.Repository.{Uuid, get_one_by, get_by_id, update, has_id}
use ops_pilot_be.Repository.Updates.{get_one_by-update_self, get_by_id-update_ne}
use ops_pilot_be.Repository.Rows.{
  AtMostOne, kept_if, get_one_by-and, AtMostOne-create, failed, missing, found, query, refused,
  stored, insertion, All-update, any-update, length-filter-update,
}
use ops_pilot_be.Store.{
  Store, ServiceEvent, Order, OrderStatus, order_status_eq, order_status_beq_iff, order_model,
  customer_model, payment_model, order_clash, order_status_changed,
}
use ops_pilot_be.Store.Valid.{IsValid, Keeps, is_customer_of}
use ops_pilot_be.Orders.{
  OrderCreate, new_order, owned_customer, owned_order, create_order, get_order, update_status,
  with_status,
}

-- An order that `get_order` returns belongs to the business that asked and has the id that was asked
-- for.
pub get_order-owned :
    (b i : Uuid) (s : Store) (o : Order) → get_order b i s ≡ ok o → (o.business_id ≡ b) × (o.id ≡ i)
unfolding get_order
get_order-owned b i s o e = elim (query (owned_order i b) s.orders) [
  | failed x h ↦ cc (rw h at e)
  | missing h _ ↦ cc (rw h at e)
  | found r h owned _ ↦ let same : r ≡ o = cc (rw h at e) in rw (← same) (ground arith)
]

-- If at most one stored order has the id, `get_order` answers as a lookup of the id among the orders
-- of all businesses does, save that another business's order is reported like a missing one.
pub get_order-hides :
    (b i : Uuid) (s : Store)
    → AtMostOne (has_id i) s.orders
    → get_order b i s ≡ (do
      row ← get_by_id i s.orders
      or_raise
          (kept_if (λ o. o.business_id == b) row)
          (ops ErrorClass.not_found "Order not found."))
unfolding get_order get_by_id
get_order-hides b i s one =
    let (o, by_id, owned) =
      get_one_by-and (has_id i) (λ (o : Order). o.business_id == b) s.orders one in
    rw (by_id, owned) refl

pub create_order-Keeps :
    (new_id b : Uuid) (p : OrderCreate) (s : Store) → IsValid s → Keeps (create_order new_id b p s)
unfolding create_order
create_order-Keeps new_id b p s v = elim (query (owned_customer p.customer_id b) s.customers) [
  | failed x h ↦ rw h tt
  | missing h _ ↦ rw h tt
  | found r h _ there ↦ elim (insertion order_clash (new_order new_id b p) s.orders) [
    | refused h' ↦ rw (h, h') tt
    | stored h' fresh ↦
        rw (h, h')
          (record {
            one_customer = v.one_customer;
            one_order = λ i.
                AtMostOne-create (has_id i) order_clash (new_order new_id b p) s.orders
                  (λ x mine theirs. ground arith) (v.one_order i) fresh;
            one_payment = v.one_payment;
            one_ref = v.one_ref;
            same_business =
                All-append (λ o. any (is_customer_of o) s.customers ≡ true) s.orders
                  (new_order new_id b p ∷ []) v.same_business (there, tt);
            known_order =
                All-imp (λ q. any (has_id q.order_id) s.orders ≡ true)
                  (λ q. any (has_id q.order_id) (s.orders ++ new_order new_id b p ∷ []) ≡ true)
                  s.payments
                  (λ q k.
                    rw (any-append (has_id q.order_id) s.orders (new_order new_id b p ∷ []), k))
                  v.known_order;
          })
  ]
]

-- Changing the status of orders keeps every column that the invariant reads.
pub IsValid-with_status :
    (i : Uuid) (status : OrderStatus) (s : Store) (emitted : List ServiceEvent)
    → IsValid s
    → IsValid (record s { orders = update i (with_status status) s.orders; emitted = emitted })
IsValid-with_status i status s emitted v = record {
  one_customer = v.one_customer;
  one_order = λ j.
      rw (length-filter-update (has_id j) i (with_status status) s.orders (λ o. refl))
        (v.one_order j);
  one_payment = v.one_payment;
  one_ref = v.one_ref;
  same_business =
      All-update (λ o. any (is_customer_of o) s.customers ≡ true) i (with_status status) s.orders
        (λ o _ k. k) v.same_business;
  known_order =
      All-imp (λ q. any (has_id q.order_id) s.orders ≡ true)
        (λ q. any (has_id q.order_id) (update i (with_status status) s.orders) ≡ true) s.payments
        (λ q k. rw (any-update (has_id q.order_id) i (with_status status) s.orders (λ o. refl)) k)
        v.known_order;
}

pub update_status-Keeps :
    (b i : Uuid) (status : OrderStatus) (s : Store) → IsValid s → Keeps (update_status b i status s)
unfolding update_status
update_status-Keeps b i status s v = elim (query (owned_order i b) s.orders) [
  | failed x h ↦ rw h tt
  | missing h _ ↦ rw h tt
  | found o h _ _ ↦ elim (Bool-cases (o.status == status)) [
    | inl same ↦ rw (h, same) v
    | inr other ↦ rw (h, other) (IsValid-with_status o.id status s _ v)
  ]
]

-- Placing an order and changing a status leave valid tables valid, where they succeed: ids stay
-- unique, and every order names a customer of its own business.
pub create_and_update-Keeps :
    (new_id b i : Uuid) (p : OrderCreate) (status : OrderStatus) (s : Store)
    → IsValid s
    → Keeps (create_order new_id b p s) × Keeps (update_status b i status s)
create_and_update-Keeps new_id b i p status s v =
    (create_order-Keeps new_id b p s v, update_status-Keeps b i status s v)

-- The row behind an order that was handed out.
pub get_order-row :
    (b i : Uuid) (s : Store) (o : Order)
    → get_order b i s ≡ ok o
    → get_one_by (owned_order i b) s.orders ≡ ok (some o)
unfolding get_order
get_order-row b i s o e = elim (query (owned_order i b) s.orders) [
  | failed x h ↦ cc (rw h at e)
  | missing h _ ↦ cc (rw h at e)
  | found r h _ _ ↦ let same : r ≡ o = cc (rw h at e) in rw (← same) h
]

get_order_of_row :
    (b i : Uuid) (s : Store) (o : Order)
    → get_one_by (owned_order i b) s.orders ≡ ok (some o)
    → get_order b i s ≡ ok o
unfolding get_order
get_order_of_row b i s o e = rw e

-- What a change of status does to the order `o`, which has id `i`, and to order `j`.
abbrev pub Changed :
    Uuid → Uuid → Uuid → OrderStatus → Store → Order → Result Error (Order × Store) → Type 0
Changed b i j status s o (err _) = ⊥
Changed b i j status s o (ok (o', s')) =
    (o' ≡ with_status status o)
    × (get_order b i s' ≡ ok (with_status status o))
    × (get_by_id j s'.orders ≡ get_by_id j s.orders)
    × (s'.emitted
        ≡ s.emitted
          ++ (if o.status == status then [] else order_status_changed i b o.status status ∷ []))

-- If a business finds its order `i`, a change of its status returns and stores the order with the
-- new status, leaves the row of every other id `j` alone, and emits one order.status_changed event
-- exactly if the status was another.
pub update_status-changes :
    (b i j : Uuid) (status : OrderStatus) (s : Store) (o : Order)
    → i ≢ j
    → get_order b i s ≡ ok o
    → Changed b i j status s o (update_status b i status s)
unfolding update_status
update_status-changes b i j status s o ne e = elim (Bool-cases (o.status == status)) [
  | inl same ↦
      let e' : o ≡ with_status status o =
        ap (λ (st : OrderStatus). with_status st o)
          ((order_status_beq_iff o.status status).0 same) in
      rw (e, same) (e', e ∙ ap (λ (x : Order). ok x) e', refl, rw same (sym (append-nil s.emitted)))
  | inr other ↦
      let mine : o.id ≡ i = (get_order-owned b i s o e).1 in
      rw (e, other)
        (
          refl,
          get_order_of_row b i
              (record s {
                orders = update o.id (with_status status) s.orders;
                emitted = s.emitted ++ order_status_changed o.id b o.status status ∷ [];
              })
              (with_status status o)
              (get_one_by-update_self (owned_order i b) (with_status status) s.orders o (λ x. refl)
                (get_order-row b i s o e)),
          get_by_id-update_ne o.id j (with_status status) s.orders (rw mine ne) (λ x. refl),
          rw other
              (ap (λ (k : Uuid). s.emitted ++ order_status_changed k b o.status status ∷ []) mine),
        )
]

-- ===== src/Customers/Laws.antt =====
-- On app/modules/customers/service.py and the validity of the tables.
use ops_pilot_be.Prelude.{
  inl, inr, ◌≡◌, refl, true, false, List, [], ◌∷◌, ◌++◌, String, string_eq, nat_eq, Result, ok, err,
  arith, any, any-append, All, All-imp, Bool-cases, result-cases, eq_iff,
}
use ops_pilot_be.Exceptions.{Error}
use ops_pilot_be.Repository.{Uuid, update, has_id}
use ops_pilot_be.Repository.Rows.{
  AtMostOne, AtMostOne-create, failed, missing, found, query, refused, stored, insertion,
  any-update, length-filter-update,
}
use ops_pilot_be.Store.{
  ServiceEvent, Store, Customer, Order, customer_model, order_model, customer_clash,
}
use ops_pilot_be.Store.Valid.{IsValid, Keeps, is_customer_of}
use ops_pilot_be.Repository.Partial.{is_null_given}
use ops_pilot_be.Customers.{
  CustomerCreate, CustomerUpdate, has_phone, of_business, new_customer, create_customer,
  get_customer, check_phone, with_changes, update_customer,
}

-- Every business has at most one customer with a phone number.
abbrev pub OnePerPhone : Store → Type 0
OnePerPhone s = (b : Uuid) (phone : String) → AtMostOne (has_phone b phone) s.customers

abbrev pub KeepsPhones : {A : Type 0} → Result Error (A × Store) → Type 0
KeepsPhones (ok (_, s)) = IsValid s × OnePerPhone s
KeepsPhones (err _) = Unit {0}

more_customers :
    (s : Store) (c : Customer)
    → IsValid s
    → All (λ (o : Order). any (is_customer_of o) (s.customers ++ c ∷ []) ≡ true) s.orders
more_customers s c v =
    All-imp (λ (o : Order). any (is_customer_of o) s.customers ≡ true)
      (λ (o : Order). any (is_customer_of o) (s.customers ++ c ∷ []) ≡ true) s.orders
      (λ o k. rw (any-append (is_customer_of o) s.customers (c ∷ []), k)) v.same_business

one_per_phone :
    (s : Store) (c : Customer)
    → OnePerPhone s
    → any (has_phone c.business_id c.phone) s.customers ≡ false
    → (b : Uuid) (phone : String) → AtMostOne (has_phone b phone) (s.customers ++ c ∷ [])
one_per_phone s c one free b phone =
    AtMostOne-create (has_phone b phone) (λ r x. has_phone r.business_id r.phone x) c s.customers
      (λ x mine theirs.
        ground (arith, eq_iff c.phone phone, eq_iff x.phone phone, eq_iff x.phone c.phone))
      (one b phone) free

IsValid-created :
    (c : Customer) (s : Store) (emitted : List ServiceEvent)
    → any (customer_clash c) s.customers ≡ false
    → IsValid s
    → IsValid (record s { customers = s.customers ++ c ∷ []; emitted = emitted })
IsValid-created c s emitted fresh v = record {
  one_customer = λ i.
      AtMostOne-create (has_id i) customer_clash c s.customers (λ x mine theirs. ground arith)
        (v.one_customer i) fresh;
  one_order = v.one_order;
  one_payment = v.one_payment;
  one_ref = v.one_ref;
  same_business = more_customers s c v;
  known_order = v.known_order;
}

pub create_customer-Keeps :
    (new_id b : Uuid) (p : CustomerCreate) (s : Store)
    → IsValid s
    → Keeps (create_customer new_id b p s)
unfolding create_customer
create_customer-Keeps new_id b p s v = elim (query (has_phone b p.phone) s.customers) [
  | failed x h ↦ rw h tt
  | found r h _ _ ↦ rw h tt
  | missing h _ ↦ elim (insertion customer_clash (new_customer new_id b p) s.customers) [
    | refused h' ↦ rw (h, h') tt
    | stored h' fresh ↦ rw (h, h') (IsValid-created (new_customer new_id b p) s _ fresh v)
  ]
]

-- If the tables are valid and no business has two customers with one phone number, the same holds
-- after a customer is created, where that succeeds.
pub create_customer-KeepsPhones :
    (new_id b : Uuid) (p : CustomerCreate) (s : Store)
    → IsValid s
    → OnePerPhone s
    → KeepsPhones (create_customer new_id b p s)
unfolding create_customer
create_customer-KeepsPhones new_id b p s v one = elim (query (has_phone b p.phone) s.customers) [
  | failed x h ↦ rw h tt
  | found r h _ _ ↦ rw h tt
  | missing h free ↦ elim (insertion customer_clash (new_customer new_id b p) s.customers) [
    | refused h' ↦ rw (h, h') tt
    | stored h' fresh ↦
        rw (h, h')
          (
            IsValid-created (new_customer new_id b p) s _ fresh v,
            one_per_phone s (new_customer new_id b p) one free,
          )
  ]
]

IsValid-with_changes :
    (i : Uuid) (p : CustomerUpdate) (s : Store)
    → IsValid s
    → IsValid (record s { customers = update i (with_changes p) s.customers })
IsValid-with_changes i p s v = record {
  one_customer = λ j.
      rw (length-filter-update (has_id j) i (with_changes p) s.customers (λ c. refl))
        (v.one_customer j);
  one_order = v.one_order;
  one_payment = v.one_payment;
  one_ref = v.one_ref;
  same_business =
      All-imp (λ (o : Order). any (is_customer_of o) s.customers ≡ true)
        (λ (o : Order). any (is_customer_of o) (update i (with_changes p) s.customers) ≡ true)
        s.orders
        (λ o k. rw (any-update (is_customer_of o) i (with_changes p) s.customers (λ c. refl)) k)
        v.same_business;
  known_order = v.known_order;
}

-- An update of a customer leaves valid tables valid, where it succeeds.
pub update_customer-Keeps :
    (b i : Uuid) (p : CustomerUpdate) (s : Store) → IsValid s → Keeps (update_customer b i p s)
unfolding update_customer get_customer
update_customer-Keeps b i p s v = elim (query (of_business b i) s.customers) [
  | failed x h ↦ rw h tt
  | missing h _ ↦ rw h tt
  | found c h _ _ ↦ elim (result-cases (check_phone b p.phone c s)) [
    | inl (x, h') ↦ rw (h, h') tt
    | inr (tt, h') ↦ elim (Bool-cases (is_null_given p.name)) [
      | inl null_ ↦ rw (h, h', null_) tt
      | inr given_ ↦ elim (Bool-cases (is_null_given p.phone)) [
        | inl null_ ↦ rw (h, h', given_, null_) tt
        | inr full ↦ rw (h, h', given_, full) (IsValid-with_changes c.id p s v)
      ]
    ]
  ]
]

-- ===== src/Analytics/Agreement.antt =====
-- On the counts of app/modules/analytics/service.py.
use mathlib.Core.Option
use ops_pilot_be.Prelude.{
  ℕ, ◌+◌, ◌≡◌, refl, Bool, true, false, ◌&&◌, List, [], ◌∷◌, filter, length, any, map, ltb, ◌==◌,
  Option, some, arith, Bool-cases, inl, inr, if◌then◌else◌, ◌∙◌, ap,
}
use ops_pilot_be.Prelude.Dict.{Dict, lookup, insert, lookup-insert}
use ops_pilot_be.Repository.{Uuid, count}
use ops_pilot_be.Store.{Store, Order, OrderStatus, order_status_eq, order_status_beq_iff}
use ops_pilot_be.Analytics.{
  sum_of, order_of, in_status, grouped, tally, no_orders, with_percentage, get_overview,
  get_order_distribution,
}

-- The database names every status once.
abbrev pub EachOnce : List OrderStatus → Type 0
EachOnce sts = (st : OrderStatus) → length (filter (λ x. st == x) sts) ≡ 1

self : (st : OrderStatus) → (st == st) ≡ true
self st = (order_status_beq_iff st st).1 refl

either : {A : Type 0} (a : Bool) (x : A) → (if a && true then x else x) ≡ x
either true x = refl
either false x = refl

neither : {A : Type 0} (a : Bool) (x y : A) → (if a && false then x else y) ≡ y
neither true x y = refl
neither false x y = refl

module _ (b : Uuid) where
  sum-cons :
      (o : Order) (orders : List Order) (sts : List OrderStatus)
      → sum_of (λ st. count (in_status b st) (o ∷ orders)) sts
        ≡ sum_of (λ st. count (in_status b st) orders) sts
          + (if order_of b o then length (filter (λ x. o.status == x) sts) else 0)
  unfolding count
  sum-cons o orders [] = ground arith
  sum-cons o orders (st ∷ sts) = ground (arith, sum-cons o orders sts)

  sum-nil : (sts : List OrderStatus) → sum_of (λ st. count (in_status b st) []) sts ≡ 0
  unfolding count
  sum-nil [] = refl
  sum-nil (st ∷ sts) = omega (arith, sum-nil sts)

  sum-counts :
      (sts : List OrderStatus)
      → EachOnce sts
      → (orders : List Order)
      → sum_of (λ st. count (in_status b st) orders) sts ≡ count (order_of b) orders
  unfolding count
  sum-counts sts once [] = sum-nil sts
  sum-counts sts once (o ∷ orders) =
      let step = sum-cons o orders sts in
      let rest = sum-counts sts once orders in
      let one = once o.status in
      elim (Bool-cases (order_of b o)) [
        | inl mine ↦ ground (arith, step, rest, one, mine)
        | inr other ↦ ground (arith, step, rest, other)
      ]

  tally-total :
      (rows : List (OrderStatus × ℕ)) (d : Dict OrderStatus ℕ) (t : ℕ)
      → (tally rows d t).1 ≡ t + sum_of (λ (x : OrderStatus × ℕ). x.1) rows
  unfolding tally
  tally-total [] d t = omega arith
  tally-total ((st, n) ∷ rows) d t = omega (arith, tally-total rows (insert st n d) (t + n))

  grouped-sum :
      (sts : List OrderStatus) (orders : List Order)
      → sum_of (λ (x : OrderStatus × ℕ). x.1) (grouped b sts orders)
        ≡ sum_of (λ st. count (in_status b st) orders) sts
  unfolding grouped
  grouped-sum [] orders = refl
  grouped-sum (st ∷ sts) orders = ground (arith, grouped-sum sts orders)

  abbrev counted : OrderStatus → List OrderStatus → List Order → Dict OrderStatus ℕ → Option ℕ
  counted st sts orders d =
      if any (λ x. x == st) sts && ltb 0 (count (in_status b st) orders)
      then some (count (in_status b st) orders)
      else lookup st d

  tally-lookup :
      (st : OrderStatus) (sts : List OrderStatus) (orders : List Order) (d : Dict OrderStatus ℕ)
      (t : ℕ)
      → lookup st (tally (grouped b sts orders) d t).0 ≡ counted st sts orders d
  unfolding grouped tally
  tally-lookup st [] orders d t = refl
  tally-lookup st (x ∷ sts) orders d t = elim (Bool-cases (x == st)) [
    | inl here ↦
        let same : x ≡ st = (order_status_beq_iff x st).0 here in
        elim (Bool-cases (ltb 0 (count (in_status b st) orders))) [
          | inl some_ ↦
              rw (same, some_)
                (tally-lookup st sts orders (insert st (count (in_status b st) orders) d)
                    (t + count (in_status b st) orders)
                  ∙ rw (lookup-insert st st (count (in_status b st) orders) d, self st, some_)
                      (either (any (λ y. y == st) sts) (some (count (in_status b st) orders))))
          | inr none_ ↦
              rw (same, none_, self st)
                (tally-lookup st sts orders d t ∙ rw none_ (neither (any (λ y. y == st) sts) _ _))
        ]
    | inr other ↦ elim (Bool-cases (ltb 0 (count (in_status b x) orders))) [
      | inl some_ ↦
          rw (some_, other)
            (tally-lookup st sts orders (insert x (count (in_status b x) orders) d)
                (t + count (in_status b x) orders)
              ∙ rw (lookup-insert x st (count (in_status b x) orders) d, other) refl)
      | inr none_ ↦ rw (none_, other) (tally-lookup st sts orders d t)
    ]
  ]

any-of_once :
    (st : OrderStatus) (sts : List OrderStatus)
    → length (filter (λ x. st == x) sts) ≡ 1
    → any (λ x. x == st) sts ≡ true
any-of_once st [] e = absurd (omega arith)
any-of_once st (x ∷ sts) e = elim (Bool-cases (st == x)) [
  | inl here ↦ let same : st ≡ x = (order_status_beq_iff st x).0 here in rw (same, self x) refl
  | inr other ↦ elim (Bool-cases (x == st)) [
    | inl back ↦ rw back refl
    | inr apart ↦ rw apart (any-of_once st sts (rw other at e))
  ]
]

-- Every status has its count; a status without rows has the zero that it started with.
counted-no_orders :
    (b : Uuid) (st : OrderStatus) (sts : List OrderStatus) (orders : List Order)
    → any (λ x. x == st) sts ≡ true
    → counted b st sts orders no_orders ≡ some (count (in_status b st) orders)
counted-no_orders b st sts orders e = elim (Bool-cases (ltb 0 (count (in_status b st) orders))) [
  | inl some_ ↦ rw (e, some_) refl
  | inr none_ ↦
      let zero_ : count (in_status b st) orders ≡ 0 = ground arith in rw (e, zero_) (started st)
]
  where
    started : (st : OrderStatus) → lookup st no_orders ≡ some 0
    started OrderStatus.pending = unfold lookup in refl
    started OrderStatus.processing = unfold lookup in refl
    started OrderStatus.completed = unfold lookup in refl
    started OrderStatus.cancelled = unfold lookup in refl

module _ {F : Type 0} (zero_float : F) (ratio percentage : ℕ → ℕ → F) where
  lookup-with_percentage :
      (total : ℕ) (st : OrderStatus) (d : Dict OrderStatus ℕ)
      → lookup st (map (with_percentage zero_float ratio percentage total) d)
        ≡ Option.map
            (λ n. (n, if ltb 0 total then percentage n total else zero_float))
            (lookup st d)
  unfolding lookup
  lookup-with_percentage total st [] = refl
  lookup-with_percentage total st ((x, n) ∷ d) = elim (Bool-cases (x == st)) [
    | inl here ↦ rw here refl
    | inr other ↦ rw other (lookup-with_percentage total st d)
  ]

  module _ (statuses : List OrderStatus) (b : Uuid) (s : Store) (once : EachOnce statuses) where
    total-tally : (tally (grouped b statuses s.orders) no_orders 0).1 ≡ count (order_of b) s.orders
    total-tally = omega (
      arith,
      tally-total b (grouped b statuses s.orders) no_orders 0,
      grouped-sum b statuses s.orders,
      sum-counts b statuses once s.orders,
    )

    entry :
        (st : OrderStatus)
        → lookup st (get_order_distribution zero_float ratio percentage statuses b s).1
          ≡ some (
            count (in_status b st) s.orders,
            if ltb 0 (count (order_of b) s.orders)
                then percentage (count (in_status b st) s.orders) (count (order_of b) s.orders)
                else zero_float,
          )
    unfolding get_order_distribution
    entry st =
        rw
          (
            lookup-with_percentage (tally (grouped b statuses s.orders) no_orders 0).1 st
                (tally (grouped b statuses s.orders) no_orders 0).0,
            tally-lookup b st statuses s.orders no_orders 0,
            counted-no_orders b st statuses s.orders (any-of_once st statuses (once st)),
            total-tally,
          )
          refl

    -- If the order of the groups names every status once, the distribution of a business's orders
    -- has the total of the overview, its entry for completed orders is the overview's count and
    -- conversion rate, and for every status it has the number of the business's orders in that
    -- status.
    pub distribution-overview :
        ((get_order_distribution zero_float ratio percentage statuses b s).0
          ≡ (get_overview zero_float ratio percentage b s).total_orders)
        × (lookup OrderStatus.completed
              (get_order_distribution zero_float ratio percentage statuses b s).1
            ≡ some (
              (get_overview zero_float ratio percentage b s).completed_orders,
              (get_overview zero_float ratio percentage b s).order_conversion_rate,
            ))
        × ((st : OrderStatus)
            → Option.map
                (λ (x : ℕ × F). x.0)
                (lookup st (get_order_distribution zero_float ratio percentage statuses b s).1)
              ≡ some (count (in_status b st) s.orders))
    unfolding get_order_distribution get_overview
    distribution-overview = (
      total-tally,
      entry OrderStatus.completed,
      λ st. ap (Option.map (λ (x : ℕ × F). x.0)) (entry st),
    )

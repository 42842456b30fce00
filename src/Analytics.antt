-- ===== src/Analytics.antt =====
-- app/modules/analytics/service.py: sums and counts over the tables of customers, orders and payments.
-- Amounts are whole cents and dates whole days. Floating-point quotients and what the database has in
-- `created_at` enter as arguments, as does the order in which it answers with groups.
pub mod Agreement
pub mod Trend
use ops_pilot_be.Prelude.{
  ℕ, ◌+◌, Bool, true, false, ◌&&◌, Option, none, some, List, [], ◌∷◌, nat_eq, ◌==◌, ltb, leb,
  filter, any, map, if◌then◌else◌, suc, zero,
}
use ops_pilot_be.Prelude.Dict.{Dict, lookup, insert}
use ops_pilot_be.Repository.{Uuid, count}
use ops_pilot_be.Auth.Models.{Time}
use ops_pilot_be.Store.{
  Store, Customer, Order, OrderStatus, order_status_eq, Payment, PaymentStatus,
}

-- `sum` of a column; over no rows it is NULL, which the service reads as 0.
abbrev pub sum_of {ℓ} : {A : Type ℓ} → (A → ℕ) → List A → ℕ
sum_of f [] = 0
sum_of f (x ∷ xs) = f x + sum_of f xs

abbrev pub is_success : PaymentStatus → Bool
is_success PaymentStatus.success = true
is_success _ = false

abbrev pub order_of : Uuid → Order → Bool
order_of b o = o.business_id == b

-- The join with the one order of the payment, and the test on its business.
abbrev pub paid_to : Uuid → Store → Payment → Bool
paid_to b s q =
    any (λ (o : Order). o.id == q.order_id && o.business_id == b) s.orders && is_success q.status

pub record Overview (F : Type 0) : Type 0 where
  pub total_revenue : ℕ
  pub total_customers : ℕ
  pub total_orders : ℕ
  pub completed_orders : ℕ
  pub average_order_value : F
  pub order_conversion_rate : F

-- The counts of one status.
abbrev pub in_status : Uuid → OrderStatus → Order → Bool
in_status b status o = order_of b o && o.status == status

-- `GROUP BY status`: the statuses in the database's order, of which those without rows are left out.
unfoldable pub grouped : Uuid → List OrderStatus → List Order → List (OrderStatus × ℕ)
grouped b [] orders = []
grouped b (st ∷ sts) orders =
    let rest = grouped b sts orders in
    if ltb 0 (count (in_status b st) orders)
    then (st, count (in_status b st) orders) ∷ rest
    else rest

abbrev pub no_orders : Dict OrderStatus ℕ
no_orders =
    (OrderStatus.pending, 0)
    ∷ (OrderStatus.processing, 0)
    ∷ (OrderStatus.completed, 0)
    ∷ (OrderStatus.cancelled, 0)
    ∷ []

-- The loop over the rows: the breakdown and the total.
unfoldable pub tally : List (OrderStatus × ℕ) → Dict OrderStatus ℕ → ℕ → Dict OrderStatus ℕ × ℕ
tally [] breakdown total = (breakdown, total)
tally ((status, n) ∷ rows) breakdown total = tally rows (insert status n breakdown) (total + n)

-- `ratio` is the average of a sum and a count, `percentage` is `(a / b) * 100`.
module _ {F : Type 0} (zero_float : F) (ratio percentage : ℕ → ℕ → F) where
  unfoldable pub get_overview : Uuid → Store → Overview F
  get_overview b s =
      let total_orders = count (order_of b) s.orders in
      let completed = count (in_status b OrderStatus.completed) s.orders in
      record {
        total_revenue = sum_of (λ (q : Payment). q.amount) (filter (paid_to b s) s.payments);
        total_customers = count (λ (c : Customer). c.business_id == b) s.customers;
        total_orders = total_orders;
        completed_orders = completed;
        average_order_value =
            if ltb 0 total_orders
            then ratio (sum_of (λ (o : Order). o.total_amount) (filter (order_of b) s.orders))
                total_orders
            else zero_float;
        order_conversion_rate =
            if ltb 0 total_orders then percentage completed total_orders else zero_float;
      }

  abbrev pub with_percentage : ℕ → OrderStatus × ℕ → OrderStatus × (ℕ × F)
  with_percentage total (status, n) =
      (status, (n, if ltb 0 total then percentage n total else zero_float))

  -- `total_orders`, and per status the count and the percentage.
  unfoldable pub get_order_distribution :
      List OrderStatus → Uuid → Store → ℕ × Dict OrderStatus (ℕ × F)
  unfolding grouped tally
  get_order_distribution statuses b s =
      let (breakdown, total) = tally (grouped b statuses s.orders) no_orders 0 in
      (total, map (with_percentage total) breakdown)

abbrev pub or_nothing : Option ℕ → ℕ
or_nothing none = 0
or_nothing (some n) = n

-- `date_map`: the sum of the amounts of each date, which the database has.
unfoldable pub date_map : (Payment → ℕ) → List Payment → Dict ℕ ℕ
date_map date_of [] = []
date_map date_of (q ∷ qs) =
    let rest = date_map date_of qs in
    insert (date_of q) (q.amount + or_nothing (lookup (date_of q) rest)) rest

-- Of `n` days after the day `d`, each with its revenue.
unfoldable pub trend_after : Dict ℕ ℕ → ℕ → ℕ → List (ℕ × ℕ)
trend_after dates d zero = []
trend_after dates d (suc n) =
    (d + 1, or_nothing (lookup (d + 1) dates)) ∷ trend_after dates (d + 1) n

-- `created_at` in ticks, and its date in days as the database has it.
module _ (created_at : Payment → Time) (date_of : Payment → ℕ) where
  abbrev pub recent : Uuid → Time → Store → Payment → Bool
  recent b cutoff s q = paid_to b s q && leb cutoff (created_at q)

  -- `cutoff` is `now - timedelta(days)`, on the day `cutoff_day`.
  unfoldable pub get_revenue_history : Uuid → ℕ → Time → ℕ → Store → List (ℕ × ℕ)
  unfolding date_map trend_after
  get_revenue_history b days cutoff cutoff_day s =
      trend_after (date_map date_of (filter (recent b cutoff s) s.payments)) cutoff_day days

-- ===== src/Analytics/Trend.antt =====
-- On the daily revenue of app/modules/analytics/service.py.
use ops_pilot_be.Prelude.{
  ℕ, ◌+◌, ◌≤◌, ◌≡◌, refl, Bool, ◌&&◌, List, [], ◌∷◌, filter, ltb, leb, nat_eq, nat_beq_iff, ◌==◌,
  zero, suc, arith, Bool-cases, inl, inr,
}
use ops_pilot_be.Prelude.Dict.{lookup, lookup-insert}
use ops_pilot_be.Repository.{Uuid}
use ops_pilot_be.Repository.Rows.{filter-and}
use ops_pilot_be.Auth.Models.{Time}
use ops_pilot_be.Store.{Store, Payment}
use ops_pilot_be.Analytics.{
  sum_of, paid_to, get_overview, recent, or_nothing, date_map, trend_after, get_revenue_history,
}

abbrev pub amount_of : Payment → ℕ
amount_of q = q.amount

module _ (date_of : Payment → ℕ) where
  -- The payments of the `n` days after the day `d`.
  abbrev pub within : ℕ → ℕ → Payment → Bool
  within d n q = ltb d (date_of q) && leb (date_of q) (d + n)

  date_map-lookup :
      (d : ℕ) (qs : List Payment)
      → or_nothing (lookup d (date_map date_of qs))
        ≡ sum_of amount_of (filter (λ q. date_of q == d) qs)
  unfolding date_map
  date_map-lookup d [] = unfold lookup in refl
  date_map-lookup d (q ∷ qs) =
      rw
        (lookup-insert (date_of q) d
          (q.amount + or_nothing (lookup (date_of q) (date_map date_of qs))) (date_map date_of qs))
        (elim (Bool-cases (date_of q == d)) [
          | inl here ↦
              let same : date_of q ≡ d = (nat_beq_iff (date_of q) d).0 here in
              rw here (rw (same, date_map-lookup d qs) refl)
          | inr other ↦ rw other (date_map-lookup d qs)
        ])

  within-zero : (d : ℕ) (qs : List Payment) → sum_of amount_of (filter (within d 0) qs) ≡ 0
  within-zero d [] = refl
  within-zero d (q ∷ qs) = ground (arith, within-zero d qs)

  within-suc :
      (d n : ℕ) (qs : List Payment)
      → sum_of amount_of (filter (within d (suc n)) qs)
        ≡ sum_of amount_of (filter (λ q. date_of q == d + 1) qs)
          + sum_of amount_of (filter (within (d + 1) n) qs)
  within-suc d n [] = refl
  within-suc d n (q ∷ qs) = ground (arith, within-suc d n qs)

  trend-sum :
      (qs : List Payment) (d n : ℕ)
      → sum_of (λ (x : ℕ × ℕ). x.1) (trend_after (date_map date_of qs) d n)
        ≡ sum_of amount_of (filter (within d n) qs)
  unfolding trend_after
  trend-sum qs d zero = rw (within-zero d qs) refl
  trend-sum qs d (suc n) =
      rw (date_map-lookup (d + 1) qs, trend-sum qs (d + 1) n, within-suc d n qs) refl

  sum_of-filter-le :
      (p : Payment → Bool) (qs : List Payment)
      → sum_of amount_of (filter p qs) ≤ sum_of amount_of qs
  sum_of-filter-le p [] = omega arith
  sum_of-filter-le p (q ∷ qs) = ground (arith, sum_of-filter-le p qs)

  module _ {F : Type 0} (zero_float : F) (ratio percentage : ℕ → ℕ → F)
      (created_at : Payment → Time) where
    pub get_revenue_history-sum :
        (b : Uuid) (days : ℕ) (cutoff : Time) (cutoff_day : ℕ) (s : Store)
        → (sum_of
              (λ (x : ℕ × ℕ). x.1)
              (get_revenue_history created_at date_of b days cutoff cutoff_day s)
            ≡ sum_of amount_of (
                filter
                  (within cutoff_day days)
                  (filter (recent created_at date_of b cutoff s) s.payments)))
          × (sum_of
                (λ (x : ℕ × ℕ). x.1)
                (get_revenue_history created_at date_of b days cutoff cutoff_day s)
              ≤ (get_overview zero_float ratio percentage b s).total_revenue)
    unfolding get_revenue_history get_overview
    get_revenue_history-sum b days cutoff cutoff_day s =
        let chosen = filter (recent created_at date_of b cutoff s) s.payments in
        let total = trend-sum chosen cutoff_day days in
        let shown = sum_of-filter-le (within cutoff_day days) chosen in
        let both = filter-and (paid_to b s) (λ q. leb cutoff (created_at q)) s.payments in
        let fewer =
          sum_of-filter-le (λ q. leb cutoff (created_at q)) (filter (paid_to b s) s.payments) in
        (total, rw (total, both) (omega (arith, rw both at shown, fewer)))

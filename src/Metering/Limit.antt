-- ===== src/Metering/Limit.antt =====
-- On the check and the count of a metered action (app/modules/metering/service.py).
use ops_pilot_be.Prelude.{
  eq_iff, ℕ, ◌+◌, ◌≤◌, ◌<◌, ◌≡◌, ◌⊎◌, inl, inr, refl, true, false, ◌&&◌, List, [], ◌∷◌, String,
  string_eq, nat_eq, ◌==◌, ok, err, some, none, Option, length, ltb, arith, filter, All,
  nat_beq_iff, Bool-cases, result-cases, sym, ap, ◌∙◌,
}
use ops_pilot_be.Exceptions.{ops, ErrorClass}
use Prim.Native.String
use ops_pilot_be.Repository.{Uuid, scalar_one_or_none}
use ops_pilot_be.Repository.Rows.{All-filter_self}
use ops_pilot_be.Metering.Cycle.{DateTime, get_current_cycle, IsTime}
use ops_pilot_be.Metering.{
  UsageMeter, MeterTables, has_key, current_usage, check_limit, check_usage_limit, increment_usage,
  tier_limit, get_business_tier,
}
use ops_pilot_be.Metering.Usage.{
  filter-upsert_other, increment_usage-IsValid, IsValid, start_of, usage_in, usage-by-key, RowOf,
  usage_in-RowOf, All-upsert,
}

-- No month's meter of the business and metric is above the limit.
abbrev pub Within : Uuid → String → ℕ → List UsageMeter → Type 0
Within b metric limit = All (λ (m : UsageMeter).
    ((m.business_id == b && m.metric_name == metric) ≡ false) ⊎ (m.current_usage ≤ limit))

-- A check that passes leaves room for the amount.
check_limit-room :
    (b : Uuid) (metric : String) (limit amount : ℕ) (now : DateTime) (t : List UsageMeter)
    → check_limit (some limit) b metric amount now t ≡ ok tt
    → (u : ℕ) × (current_usage b metric now t ≡ ok u) × (u + amount ≤ limit)
unfolding check_limit
check_limit-room b metric limit amount now t e =
    elim (result-cases (current_usage b metric now t)) [
      | inl (x, h) ↦ cc (rw h at e)
      | inr (u, h) ↦ elim (Bool-cases (ltb limit (u + amount))) [
        | inl over ↦ cc (rw (h, over) at e)
        | inr room ↦ (u, h, ground arith)
      ]
    ]

-- Counting an amount that fits stays within a bound.
pub increment_usage-Within_room :
    (b : Uuid) (metric : String) (bound amount u : ℕ) (now : DateTime) (db : MeterTables)
    → IsValid db.meters
    → IsTime now
    → current_usage b metric now db.meters ≡ ok u
    → u + amount ≤ bound
    → Within b metric bound db.meters
    → Within b metric bound (increment_usage b metric amount now db).meters
unfolding increment_usage
increment_usage-Within_room b metric bound amount u now db v h now_u room within =
    let row = usage_in-RowOf _ u (sym (usage-by-key b metric now db.meters h v) ∙ now_u) in
    All-upsert b metric amount (start_of now) (get_current_cycle now).1
      (λ m. ((m.business_id == b && m.metric_name == metric) ≡ false) ⊎ (m.current_usage ≤ bound))
      db.meters (λ empty_. inr (omega arith))
      (λ m ms found_ _.
        inr (go (filter (has_key b metric (start_of now)) db.meters) m ms u found_ row room))
      within
  where
    go :
        (rows : List UsageMeter) (m : UsageMeter) (ms : List UsageMeter) (u : ℕ)
        → rows ≡ m ∷ ms
        → RowOf rows u
        → u + amount ≤ bound
        → m.current_usage + amount ≤ bound
    go rows m ms u e' (inl (none_, _)) le = cc
    go rows m ms u e' (inr (n, one, same)) le = let eq : n ≡ m = cc in rw (← eq) (omega arith)

-- What a check that passes says of the usage.
pub check_usage_limit-room :
    (b : Uuid) (metric : String) (limit amount : ℕ) (now : DateTime) (db : MeterTables)
    → tier_limit (get_business_tier b db.subscriptions) metric ≡ some limit
    → check_usage_limit b metric amount now db ≡ ok tt
    → (u : ℕ) × (current_usage b metric now db.meters ≡ ok u) × (u + amount ≤ limit)
unfolding check_usage_limit
check_usage_limit-room b metric limit amount now db e checked =
    check_limit-room b metric limit amount now db.meters (rw e at checked)

-- Counting what was checked stays within the limit.
pub increment_usage-Within :
    (b : Uuid) (metric : String) (limit amount : ℕ) (now : DateTime) (db : MeterTables)
    → IsValid db.meters
    → IsTime now
    → tier_limit (get_business_tier b db.subscriptions) metric ≡ some limit
    → check_usage_limit b metric amount now db ≡ ok tt
    → Within b metric limit db.meters
    → Within b metric limit (increment_usage b metric amount now db).meters
increment_usage-Within b metric limit amount now db v h e checked within =
    let (u, now_u, room) = check_usage_limit-room b metric limit amount now db e checked in
    increment_usage-Within_room b metric limit amount u now db v h now_u room within

All-head :
    {A : Type 0} (P : A → Type 0) (x : A) (xs rows : List A) → All P rows → rows ≡ x ∷ xs → P x
All-head P x xs [] h e = cc
All-head P x xs (y ∷ ys) (p, h) e = let same : y ≡ x = cc in rw (← same) p

-- What another business counts leaves the limit alone.
pub increment_usage-Within_other :
    (b other : Uuid) (metric : String) (limit amount : ℕ) (now : DateTime) (db : MeterTables)
    → (other == b) ≡ false
    → Within b metric limit db.meters
    → Within b metric limit (increment_usage other metric amount now db).meters
unfolding increment_usage
increment_usage-Within_other b other metric limit amount now db apart within =
    All-upsert other metric amount (start_of now) (get_current_cycle now).1
      (λ m. ((m.business_id == b && m.metric_name == metric) ≡ false) ⊎ (m.current_usage ≤ limit))
      db.meters (λ empty_. inl (rw apart refl))
      (λ m ms found_ _.
        let mine : has_key other metric (start_of now) m ≡ true =
          All-head (λ k. has_key other metric (start_of now) k ≡ true) m ms _
            (All-filter_self (has_key other metric (start_of now)) db.meters) found_ in
        inl (
          ground (
            arith,
            nat_beq_iff m.business_id other,
            nat_beq_iff m.business_id b,
            nat_beq_iff other b,
          )))
      within

-- On valid meters, the check passes or raises `ForbiddenError`, and nothing else.
pub check_usage_limit-answers :
    (b : Uuid) (metric : String) (amount : ℕ) (now : DateTime) (db : MeterTables)
    → IsValid db.meters
    → IsTime now
    → (check_usage_limit b metric amount now db ≡ ok tt)
      ⊎ ((detail : String) × (check_usage_limit b metric amount now db
            ≡ err (ops ErrorClass.forbidden detail)))
unfolding check_usage_limit check_limit scalar_one_or_none
check_usage_limit-answers b metric amount now db v h =
    go (tier_limit (get_business_tier b db.subscriptions) metric)
  where
    read : (rows : List UsageMeter) → length rows < 2 → (u : ℕ) × (usage_in rows ≡ ok u)
    read [] k = (0, refl)
    read (m ∷ []) k = (m.current_usage, refl)
    read (m ∷ n ∷ rows) k = absurd (omega arith)

    go :
        (limit : Option ℕ)
        → (check_limit limit b metric amount now db.meters ≡ ok tt)
          ⊎ ((detail : String) × (check_limit limit b metric amount now db.meters
                ≡ err (ops ErrorClass.forbidden detail)))
    go none = inl refl
    go (some limit) =
        let (u, e) =
          read (filter (has_key b metric (start_of now)) db.meters)
            (v.one b metric (start_of now)) in
        let known : current_usage b metric now db.meters ≡ ok u =
          usage-by-key b metric now db.meters h v ∙ e in
        elim (Bool-cases (ltb limit (u + amount))) [
          | inl over ↦ inr (
            String.◌++◌ "Usage limit exceeded for " (String.◌++◌ metric ". Upgrade your plan."),
            rw (known, over) refl,
          )
          | inr room ↦ inl (rw (known, room) refl)
        ]

-- What is counted of another metric leaves the limit, and the check, alone.
module _ (b other : Uuid) (metric apart : String) (amount : ℕ) (now : DateTime) (db : MeterTables)
    (differ : (apart == metric) ≡ false) where
  pub increment_usage-Within_unrelated :
      (limit : ℕ)
      → Within b metric limit db.meters
      → Within b metric limit (increment_usage other apart amount now db).meters
  unfolding increment_usage
  increment_usage-Within_unrelated limit within =
      All-upsert other apart amount (start_of now) (get_current_cycle now).1
        (λ m. ((m.business_id == b && m.metric_name == metric) ≡ false) ⊎ (m.current_usage ≤ limit))
        db.meters (λ empty_. inl (ground (arith, differ)))
        (λ m ms found_ _.
          let mine : has_key other apart (start_of now) m ≡ true =
            All-head (λ k. has_key other apart (start_of now) k ≡ true) m ms _
              (All-filter_self (has_key other apart (start_of now)) db.meters) found_ in
          inl (
            ground (
              arith,
              eq_iff m.metric_name apart,
              eq_iff m.metric_name metric,
              eq_iff apart metric,
              differ,
            )))
        within

  current_usage-metric :
      IsValid db.meters
      → IsTime now
      → current_usage b metric now (increment_usage other apart amount now db).meters
        ≡ current_usage b metric now db.meters
  unfolding increment_usage
  current_usage-metric v h =
      usage-by-key b metric now (increment_usage other apart amount now db).meters h
        (increment_usage-IsValid other apart amount now db v)
      ∙ ap usage_in (
          filter-upsert_other other apart amount (start_of now) (get_current_cycle now).1
            (has_key b metric (start_of now)) db.meters
            (λ m mine. ground (
              arith,
              eq_iff m.metric_name apart,
              eq_iff m.metric_name metric,
              eq_iff apart metric,
              differ,
            )))
      ∙ sym (usage-by-key b metric now db.meters h v)

  pub check_usage_limit-metric :
      (n : ℕ)
      → IsValid db.meters
      → IsTime now
      → check_usage_limit b metric n now db ≡ ok tt
      → check_usage_limit b metric n now (increment_usage other apart amount now db) ≡ ok tt
  unfolding check_usage_limit increment_usage
  check_usage_limit-metric n v h = go (tier_limit (get_business_tier b db.subscriptions) metric)
    where
      go :
          (limit : Option ℕ)
          → check_limit limit b metric n now db.meters ≡ ok tt
          → check_limit limit b metric n now (increment_usage other apart amount now db).meters
            ≡ ok tt
      go none e = refl
      go (some limit) e = unfold check_limit in rw (current_usage-metric v h) e

-- ===== src/Metering/Usage.antt =====
-- On `increment_usage` and `get_current_meter` of app/modules/metering/repository.py.
use ops_pilot_be.Prelude.{
  ℕ, ◌+◌, ◌-◌, ◌*◌, ◌<◌, ◌≡◌, ◌⊎◌, inl, inr, refl, Bool, true, false, ◌&&◌, List, [], ◌∷◌, String,
  string_eq, nat_eq, ◌==◌, Result, ok, ◌>>=◌, if◌then◌else◌, arith, filter, All, Bool-cases, ap,
  eq_iff, length, filter-ext, sym, ◌∙◌, nat_beq_iff,
}
use ops_pilot_be.Exceptions.{Error}
use ops_pilot_be.Repository.{Uuid, get_one_by, scalar_one_or_none}
use ops_pilot_be.Repository.Rows.{AtMostOne}
use ops_pilot_be.Metering.Cycle.{
  DateTime, le_time, get_current_cycle, same_time, IsTime, days_in_month, day_length,
}
use ops_pilot_be.Metering.{
  UsageMeter, MeterTables, is_current, has_key, usage_of, current_usage, new_meter, add_usage,
  upsert, increment_usage,
}

-- A meter covers one calendar month.
abbrev pub IsMonthly : UsageMeter → Type 0
IsMonthly m =
    (m.cycle_start.instant ≡ 0)
    × (m.cycle_end.month ≡ m.cycle_start.month)
    × (m.cycle_end.instant ≡ days_in_month m.cycle_start.month * day_length - 1)

pub record IsValid (t : List UsageMeter) : Type 0 where
  pub monthly : All IsMonthly t
  pub one : (b : Uuid) (metric : String) (start : DateTime) → AtMostOne (has_key b metric start) t

abbrev pub start_of : DateTime → DateTime
start_of now = record { month = now.month; instant = 0 }

in-month :
    (now : DateTime) (m : UsageMeter)
    → IsTime now
    → IsMonthly m
    → (le_time m.cycle_start now && le_time now m.cycle_end)
      ≡ same_time m.cycle_start (start_of now)
in-month now m h (zero_start, same, last) = elim (Bool-cases (m.cycle_start.month == now.month)) [
  | inl e ↦
      let e' : m.cycle_start.month ≡ now.month = (nat_beq_iff _ _).0 e in
      ground (arith, ap days_in_month e', e')
  | inr e ↦ ground arith
]

-- The meter of the current month is the one with the month's key.
current-eq-key :
    (b : Uuid) (metric : String) (now : DateTime) (m : UsageMeter)
    → IsTime now
    → IsMonthly m
    → is_current b metric now m ≡ has_key b metric (start_of now) m
current-eq-key b metric now m h k =
    ap (λ (x : Bool). (m.business_id == b && m.metric_name == metric) && x) (in-month now m h k)

filter-current :
    (b : Uuid) (metric : String) (now : DateTime) (t : List UsageMeter)
    → IsTime now
    → All IsMonthly t
    → filter (is_current b metric now) t ≡ filter (has_key b metric (start_of now)) t
filter-current b metric now [] h k = refl
filter-current b metric now (m ∷ t) h (k, ks) =
    rw (current-eq-key b metric now m h k, filter-current b metric now t h ks)

module _ (b : Uuid) (metric : String) (amount : ℕ) (start end : DateTime) where
  abbrev pub mine : UsageMeter → Bool
  mine = has_key b metric start

  abbrev grown : List UsageMeter → List UsageMeter
  grown [] = new_meter b metric amount (start, end) ∷ []
  grown (m ∷ ms) = add_usage amount m ∷ ms

  mine-new : mine (new_meter b metric amount (start, end)) ≡ true
  mine-new = ground (arith, eq_iff metric metric)

  filter-upsert :
      (t : List UsageMeter)
      → filter mine (upsert b metric amount (start, end) t) ≡ grown (filter mine t)
  unfolding upsert
  filter-upsert [] = rw mine-new
  filter-upsert (m ∷ t) = elim (Bool-cases (mine m)) [
    | inl h ↦ rw (h, h) refl
    | inr h ↦ rw (h, h) (filter-upsert t)
  ]

  -- Rows that another query selects are left alone.
  pub filter-upsert_other :
      (p : UsageMeter → Bool) (t : List UsageMeter)
      → ((m : UsageMeter) → mine m ≡ true → p m ≡ false)
      → filter p (upsert b metric amount (start, end) t) ≡ filter p t
  unfolding upsert
  filter-upsert_other p [] apart = rw (apart (new_meter b metric amount (start, end)) mine-new)
  filter-upsert_other p (m ∷ t) apart = elim (Bool-cases (mine m)) [
    | inl h ↦ rw (h, apart m h, apart (add_usage amount m) h) refl
    | inr h ↦
        rw h
          (ap (λ (l : List UsageMeter). if p m then m ∷ l else l) (filter-upsert_other p t apart))
  ]

  pub All-upsert :
      (P : UsageMeter → Type 0) (t : List UsageMeter)
      → (filter mine t ≡ [] → P (new_meter b metric amount (start, end)))
      → ((m : UsageMeter) (ms : List UsageMeter)
          → filter mine t ≡ m ∷ ms
          → P m
          → P (add_usage amount m))
      → All P t
      → All P (upsert b metric amount (start, end) t)
  unfolding upsert
  All-upsert P [] new old h = (new refl, tt)
  All-upsert P (m ∷ t) new old (q, h) = elim (Bool-cases (mine m)) [
    | inl k ↦ rw k (old m (filter mine t) (rw k) q, h)
    | inr k ↦ rw k (q, All-upsert P t (λ e. new (rw k e)) (λ n ms e. old n ms (rw k e)) h)
  ]

-- The usage that the rows of one key stand for.
abbrev pub usage_in : List UsageMeter → Result Error ℕ
usage_in rows = do m ← scalar_one_or_none rows; ok (usage_of m)

pub usage-by-key :
    (b : Uuid) (metric : String) (now : DateTime) (t : List UsageMeter)
    → IsTime now
    → IsValid t
    → current_usage b metric now t ≡ usage_in (filter (has_key b metric (start_of now)) t)
unfolding current_usage get_one_by
usage-by-key b metric now t h v = rw (filter-current b metric now t h v.monthly)

-- The one row of a key, or none, and what it says of the usage.
abbrev pub RowOf : List UsageMeter → ℕ → Type 0
RowOf rows u =
    ((rows ≡ []) × (u ≡ 0)) ⊎ ((m : UsageMeter) × (rows ≡ m ∷ []) × (u ≡ m.current_usage))

pub usage_in-RowOf : (rows : List UsageMeter) (u : ℕ) → usage_in rows ≡ ok u → RowOf rows u
unfolding scalar_one_or_none
usage_in-RowOf [] u e = inl (refl, ground arith)
usage_in-RowOf (m ∷ []) u e = inr (m, refl, ground arith)
usage_in-RowOf (m ∷ n ∷ rows) u e = cc

grown-usage :
    (b : Uuid) (metric : String) (amount : ℕ) (start end : DateTime) (rows : List UsageMeter)
    (u : ℕ)
    → usage_in rows ≡ ok u
    → usage_in (grown b metric amount start end rows) ≡ ok (u + amount)
unfolding scalar_one_or_none
grown-usage b metric amount start end [] u e = ground arith
grown-usage b metric amount start end (m ∷ []) u e = ground arith
grown-usage b metric amount start end (m ∷ n ∷ rows) u e = cc

length-grown :
    (b : Uuid) (metric : String) (amount : ℕ) (start end : DateTime) (rows : List UsageMeter)
    → length rows < 2
    → length (grown b metric amount start end rows) < 2
length-grown b metric amount start end [] h = omega arith
length-grown b metric amount start end (m ∷ rows) h = h

one_after :
    (b : Uuid) (metric : String) (amount : ℕ) (start end : DateTime) (b' : Uuid) (metric' : String)
    (start' : DateTime) (t : List UsageMeter)
    → AtMostOne (has_key b' metric' start') t
    → AtMostOne (has_key b' metric' start') (upsert b metric amount (start, end) t)
one_after b metric amount start end b' metric' start' t one =
    elim (Bool-cases (has_key b' metric' start' (new_meter b metric amount (start, end)))) [
      | inl same ↦
          let ext : (m : UsageMeter) → has_key b' metric' start' m ≡ has_key b metric start m = λ m.
            ground (
              arith,
              eq_iff m.metric_name metric,
              eq_iff m.metric_name metric',
              eq_iff metric metric',
            ) in
          let t' = upsert b metric amount (start, end) t in
          rw (filter-ext _ _ t' ext, filter-upsert b metric amount start end t)
            (length-grown b metric amount start end (filter (has_key b metric start) t)
              (rw (filter-ext _ _ t ext) at one))
      | inr other ↦
          rw
            (filter-upsert_other b metric amount start end (has_key b' metric' start') t (λ m mine.
              ground (
                arith,
                eq_iff m.metric_name metric,
                eq_iff m.metric_name metric',
                eq_iff metric metric',
              )))
            one
    ]

-- An increment keeps the meters valid.
pub increment_usage-IsValid :
    (b : Uuid) (metric : String) (amount : ℕ) (now : DateTime) (db : MeterTables)
    → IsValid db.meters
    → IsValid (increment_usage b metric amount now db).meters
unfolding increment_usage
increment_usage-IsValid b metric amount now db v =
    let (start, end) = get_current_cycle now in
    record {
      monthly =
          All-upsert b metric amount start end IsMonthly db.meters (λ _. (refl, refl, refl))
            (λ m ms _ h. h) v.monthly;
      one = λ b' metric' start'.
          one_after b metric amount start end b' metric' start' db.meters (v.one b' metric' start');
    }

-- On valid meters, what is added to a metric at one time is read back at any time of the same
-- calendar month, on top of the usage read before.
pub increment_usage-adds :
    (b : Uuid) (metric : String) (amount : ℕ) (now later : DateTime) (db : MeterTables) (u : ℕ)
    → IsValid db.meters
    → IsTime now
    → IsTime later
    → later.month ≡ now.month
    → current_usage b metric now db.meters ≡ ok u
    → current_usage b metric later (increment_usage b metric amount now db).meters ≡ ok (u + amount)
unfolding increment_usage
increment_usage-adds b metric amount now later db u v h h' same e =
    let v' = increment_usage-IsValid b metric amount now db v in
    let key = usage-by-key b metric now db.meters h v in
    let meters' = (increment_usage b metric amount now db).meters in
    usage-by-key b metric later meters' h' v'
    ∙ ap
        (λ (k : ℕ).
          usage_in (filter (has_key b metric (record { month = k; instant = 0 })) meters'))
        same
    ∙ ap usage_in (filter-upsert b metric amount (start_of now) (get_current_cycle now).1 db.meters)
    ∙ grown-usage b metric amount (start_of now) (get_current_cycle now).1
        (filter (has_key b metric (start_of now)) db.meters) u (sym key ∙ e)

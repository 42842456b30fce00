-- ===== src/Metering/Cycle.antt =====
-- `_get_current_cycle`: the calendar month that holds a time. A time is its month, counted from year
-- 0, and the microseconds since the month began.
use ops_pilot_be.Prelude.{
  ℕ, ◌-◌, ◌*◌, ◌/◌, ◌%◌, ◌<◌, Bool, ◌&&◌, ◌||◌, nat_eq, ◌==◌, if◌then◌else◌, ltb, leb, arith,
  contains, [], ◌∷◌, not,
}

pub record DateTime : Type 0 where
  pub month : ℕ
  pub instant : ℕ

abbrev pub le_time : DateTime → DateTime → Bool
le_time a b = ltb a.month b.month || (a.month == b.month && leb a.instant b.instant)

abbrev pub same_time : DateTime → DateTime → Bool
same_time a b = a.month == b.month && a.instant == b.instant

abbrev is_leap : ℕ → Bool
is_leap year = (year % 4 == 0 && not (year % 100 == 0)) || year % 400 == 0

-- `calendar.monthrange(year, month)[1]`, for `month` counted from year 0, with January as 0.
unfoldable pub days_in_month : ℕ → ℕ
days_in_month month =
    if month % 12 == 1
    then (if is_leap (month / 12) then 29 else 28)
    else if contains (month % 12) (3 ∷ 5 ∷ 8 ∷ 10 ∷ [])
    then 30
    else 31

abbrev pub day_length : ℕ
day_length = 86_400_000_000

-- A time of its month.
abbrev pub IsTime : DateTime → Type 0
IsTime t = t.instant < days_in_month t.month * day_length

-- From the first day at midnight to the last microsecond of the last day.
unfoldable pub get_current_cycle : DateTime → DateTime × DateTime
get_current_cycle now = (
  record { month = now.month; instant = 0 },
  record { month = now.month; instant = days_in_month now.month * day_length - 1 },
)

pub days_in_month_pos : (month : ℕ) → 0 < days_in_month month
unfolding days_in_month
days_in_month_pos month = ground arith

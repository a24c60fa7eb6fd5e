-- ===== src/Rewards/Calendar.antt =====
-- The periods of a year cover it without a gap or an overlap.
use prime_detailer_backend.Base.{
  ℕ, ◌+◌, ◌-◌, ◌≤◌, ◌≡◌, refl, Bool, true, false, List, [], ◌∷◌, arith, if◌then◌else◌,
}
use prime_detailer_backend.Base.Int.{ℤ, pos, ◌+ℤ◌, int_laws}
use prime_detailer_backend.Rewards.Periods.{
  PeriodType, monthly, quarterly, half_yearly, yearly, PeriodBoundary, is_leap, days_before_year,
  days_through, get_time, utc_day, utc_end_of_day, get_periods_for_year, get_period_for_month,
}

days_before_year-suc :
    (y : ℕ) → days_before_year (y + 1) ≡ days_before_year y + (if is_leap y then 366 else 365)
unfolding days_before_year is_leap
days_before_year-suc y = ground arith

-- The last millisecond of month `a`, whose last day is `last`, is followed by month `b`.
month_turn :
    (y a b last : ℕ)
    → 1 ≤ last
    → days_through (is_leap y) (a - 1) + last ≡ days_through (is_leap y) (b - 1)
    → get_time (utc_day y b 1) ≡ get_time (utc_end_of_day y a last) +ℤ pos 1
unfolding get_time
month_turn y a b last h e = omega (int_laws, e)

year_length : (leap : Bool) → days_through leap 11 + 31 ≡ (if leap then 366 else 365)
year_length true = refl
year_length false = refl

year_turn : (y : ℕ) → get_time (utc_end_of_day y 12 31) +ℤ pos 1 ≡ get_time (utc_day (y + 1) 1 1)
unfolding get_time
year_turn y = omega (int_laws, year_length (is_leap y), days_before_year-suc y)

-- Periods that lead from one time to another: each starts where the last one ended.
abbrev pub Contiguous : ℤ → List PeriodBoundary → ℤ → Type 0
Contiguous from [] to = from ≡ to
Contiguous from (p ∷ ps) to = (get_time p.start ≡ from) × Contiguous (get_time p.end +ℤ pos 1) ps to

-- The periods of every type start with the year, each begins one millisecond after the last one
-- ended, and the last one ends one millisecond before the next year.
pub get_periods_for_year-Contiguous :
    (year : ℕ) (period : PeriodType)
    → Contiguous
        (get_time (utc_day year 1 1))
        (get_periods_for_year year period)
        (get_time (utc_day (year + 1) 1 1))
unfolding get_periods_for_year
get_periods_for_year-Contiguous year yearly = (refl, year_turn year)
get_periods_for_year-Contiguous year half_yearly =
    (refl, (month_turn year 6 7 30 (omega arith) refl, year_turn year))
get_periods_for_year-Contiguous year quarterly = (
  refl,
  (
    month_turn year 3 4 31 (omega arith) refl,
    (
      month_turn year 6 7 30 (omega arith) refl,
      (month_turn year 9 10 30 (omega arith) refl, year_turn year),
    ),
  ),
)
get_periods_for_year-Contiguous year monthly = (
  refl,
  (
    month_turn year 1 2 31 (omega arith) refl,
    (
      month_turn year 2 3 (if is_leap year then 29 else 28) (ground arith) refl,
      (
        month_turn year 3 4 31 (omega arith) refl,
        (
          month_turn year 4 5 30 (omega arith) refl,
          (
            month_turn year 5 6 31 (omega arith) refl,
            (
              month_turn year 6 7 30 (omega arith) refl,
              (
                month_turn year 7 8 31 (omega arith) refl,
                (
                  month_turn year 8 9 31 (omega arith) refl,
                  (
                    month_turn year 9 10 30 (omega arith) refl,
                    (
                      month_turn year 10 11 31 (omega arith) refl,
                      (month_turn year 11 12 30 (omega arith) refl, year_turn year),
                    ),
                  ),
                ),
              ),
            ),
          ),
        ),
      ),
    ),
  ),
)

-- The period of a month from 1 to 12 is one of the year's periods, and the month lies in it.
pub get_period_for_month_lem :
    (month year : ℕ) (period : PeriodType)
    → 1 ≤ month
    → month ≤ 12
    → ((get_period_for_month month year period).period_month ≤ month)
      × (month ≤ (get_period_for_month month year period).end.month)
unfolding get_period_for_month
get_period_for_month_lem month year yearly lo hi = ground arith
get_period_for_month_lem month year half_yearly lo hi = ground arith
get_period_for_month_lem month year quarterly lo hi = ground arith
get_period_for_month_lem month year monthly lo hi = ground arith

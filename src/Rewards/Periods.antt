-- ===== src/Rewards/Periods.antt =====
-- The period boundaries of src/lib/company-target-periods.ts, for the years from 100 on, where
-- `Date.UTC` reads a year as it is written.
use prime_detailer_backend.Base.{
  ℕ, zero, suc, ◌+◌, ◌-◌, ◌*◌, ◌/◌, ◌%◌, String, Bool, true, false, not, ◌&&◌, ◌||◌, Option, none,
  some, List, [], ◌∷◌, if◌then◌else◌, or_else, leb, ◌==◌, find,
}
use prime_detailer_backend.Base.Int.{ℤ, pos, ◌-ℤ◌}

-- A UTC time as `Date.UTC` is given it: a day, at its first or its last millisecond.
pub record UtcTime : Type 0 where
  pub year : ℕ
  pub month : ℕ
  pub day : ℕ
  pub at_end : Bool

pub data PeriodType : Type 0 where
  monthly quarterly half_yearly yearly : PeriodType

-- The label's two words; a yearly label has the year alone.
pub record PeriodBoundary : Type 0 where
  pub start : UtcTime
  pub end : UtcTime
  pub label : Option String × ℕ
  pub period_month : ℕ
  pub period_year : ℕ

unfoldable pub is_leap : ℕ → Bool
is_leap y = y % 4 == 0 && (not (y % 100 == 0) || y % 400 == 0)

abbrev pub days_in_month : Bool → ℕ → ℕ
days_in_month leap m =
    if m == 2
    then (if leap then 29 else 28)
    else if m == 4 || m == 6 || m == 9 || m == 11
    then 30
    else 31

-- The days of the months 1 to m.
abbrev pub days_through : Bool → ℕ → ℕ
days_through leap zero = 0
days_through leap (suc m) = days_through leap m + days_in_month leap (suc m)

-- The days of the years 0 to y - 1 of the Gregorian calendar.
unfoldable pub days_before_year : ℕ → ℕ
days_before_year y = 365 * y + (y + 3) / 4 - (y + 99) / 100 + (y + 399) / 400

abbrev pub ms_per_day : ℕ
ms_per_day = 86400000

-- The day 1970-01-01, counted from the start of year 0.
abbrev pub epoch_day : ℕ
epoch_day = 719528

-- `getTime()`
unfoldable pub get_time : UtcTime → ℤ
get_time t =
    pos (
      ms_per_day
        * (days_before_year t.year + days_through (is_leap t.year) (t.month - 1) + t.day - 1)
      + (if t.at_end then 86399999 else 0))
    -ℤ pos (ms_per_day * epoch_day)

abbrev pub utc_day : ℕ → ℕ → ℕ → UtcTime
utc_day year month day = record { year = year; month = month; day = day; at_end = false }

abbrev pub utc_end_of_day : ℕ → ℕ → ℕ → UtcTime
utc_end_of_day year month day = record { year = year; month = month; day = day; at_end = true }

-- Day 0 of the next month.
abbrev pub last_day_of_month : ℕ → ℕ → ℕ
last_day_of_month year month = days_in_month (is_leap year) month

abbrev pub span : ℕ → ℕ → ℕ → Option String → PeriodBoundary
span year first last label = record {
  start = utc_day year first 1;
  end = utc_end_of_day year last (last_day_of_month year last);
  label = (label, year);
  period_month = first;
  period_year = year;
}

unfoldable pub get_periods_for_year : ℕ → PeriodType → List PeriodBoundary
get_periods_for_year year monthly =
    span year 1 1 (some "Jan")
    ∷ span year 2 2 (some "Feb")
    ∷ span year 3 3 (some "Mar")
    ∷ span year 4 4 (some "Apr")
    ∷ span year 5 5 (some "May")
    ∷ span year 6 6 (some "Jun")
    ∷ span year 7 7 (some "Jul")
    ∷ span year 8 8 (some "Aug")
    ∷ span year 9 9 (some "Sep")
    ∷ span year 10 10 (some "Oct")
    ∷ span year 11 11 (some "Nov")
    ∷ span year 12 12 (some "Dec")
    ∷ []
get_periods_for_year year quarterly =
    span year 1 3 (some "Q1")
    ∷ span year 4 6 (some "Q2")
    ∷ span year 7 9 (some "Q3")
    ∷ span year 10 12 (some "Q4")
    ∷ []
get_periods_for_year year half_yearly =
    span year 1 6 (some "H1")
    ∷ record {
      start = utc_day year 7 1;
      end = utc_end_of_day year 12 31;
      label = (some "H2", year);
      period_month = 7;
      period_year = year;
    }
    ∷ []
get_periods_for_year year yearly =
    record {
      start = utc_day year 1 1;
      end = utc_end_of_day year 12 31;
      label = (none, year);
      period_month = 1;
      period_year = year;
    }
    ∷ []

abbrev pub get_last_or : PeriodBoundary → List PeriodBoundary → PeriodBoundary
get_last_or d [] = d
get_last_or d (p ∷ ps) = get_last_or p ps

-- The loop over the periods, and `all[all.length - 1]!`; the lists are never empty.
unfoldable pub get_period_for_month : ℕ → ℕ → PeriodType → PeriodBoundary
unfolding get_periods_for_year
get_period_for_month month year period_type =
    let all = get_periods_for_year year period_type in
    or_else (find (λ p. leb p.period_month month && leb month p.end.month) all)
      (get_last_or (span year 1 12 none) all)

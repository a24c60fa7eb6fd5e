-- ===== src/Subscription/Calendar.antt =====
-- addMonths of src/lib/subscription-lock.ts and the parts of a UTC date that it uses. A time is the
-- number of milliseconds since the start of 1970; a month is counted from January 1970.
use prime_detailer_backend.Base.{ℕ, zero, suc, ◌+◌, ◌-◌, ◌*◌, ◌/◌, ◌%◌, if◌then◌else◌, ltb}
use prime_detailer_backend.Limits.SubscriptionLock.{ms_per_day}
use prime_detailer_backend.Rewards.Periods
use prime_detailer_backend.Rewards.Periods.{is_leap}

-- The days of the month that has this number.
unfoldable pub days_in_month : ℕ → ℕ
unfolding is_leap
days_in_month month = Periods.days_in_month (is_leap (1970 + month / 12)) (month % 12 + 1)

-- The days of `count` months from a month on.
unfoldable pub days_from : ℕ → ℕ → ℕ
days_from month zero = 0
days_from month (suc count) = days_in_month month + days_from (suc month) count

-- The month and the day in it, from 0, `day` days after the start of a month. The fuel is enough
-- if it exceeds the days, as every month has a day.
unfoldable pub locate : ℕ → ℕ → ℕ → ℕ × ℕ
unfolding days_in_month
locate zero month day = (month, day)
locate (suc fuel) month day =
    let rest = locate fuel (suc month) (day - days_in_month month) in
    if ltb day (days_in_month month) then (month, day) else rest

-- `d.getUTCFullYear()`, `d.getUTCMonth()` and `d.getUTCDate()` of a day.
unfoldable pub month_and_day : ℕ → ℕ × ℕ
unfolding locate
month_and_day day = locate (suc day) 0 day

-- The day after `d.setUTCMonth(d.getUTCMonth() + months)`: the day of the month stays, and what
-- exceeds the month runs into the next one. Then `d.setUTCDate(0)`, the last day of the month
-- before, if the day of the month has become less.
unfoldable pub move_day : ℕ → ℕ → ℕ
unfolding month_and_day days_from
move_day day months =
    let (month, date) = month_and_day day in
    let moved = days_from 0 (month + months) + date in
    let (month_after, date_after) = month_and_day moved in
    if ltb date_after date then days_from 0 month_after - 1 else moved

unfoldable pub add_months : ℕ → ℕ → ℕ
unfolding move_day
add_months time months = move_day (time / ms_per_day) months * ms_per_day + time % ms_per_day

-- A month has 28 to 31 days.

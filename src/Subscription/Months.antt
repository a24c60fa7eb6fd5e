-- ===== src/Subscription/Months.antt =====
-- Where addMonths of src/lib/subscription-lock.ts lands, and that it moves a time on.
use prime_detailer_backend.Base.{
  ℕ, zero, suc, ◌+◌, ◌-◌, ◌*◌, ◌/◌, ◌%◌, ◌≤◌, ◌<◌, ◌≡◌, ap, ◌∙◌, inl, inr, Bool-cases,
  if◌then◌else◌, ltb, arith,
}
use prime_detailer_backend.Limits.SubscriptionLock.{ms_per_day}
use prime_detailer_backend.Subscription.Calendar.{
  days_in_month, days_from, locate, month_and_day, move_day, add_months,
}

pub days_in_month_bounds : (month : ℕ) → (28 ≤ days_in_month month) × (days_in_month month ≤ 31)
unfolding days_in_month
days_in_month_bounds month = ground arith

days_from_split :
    (month i j : ℕ) → days_from month (i + j) ≡ days_from month i + days_from (month + i) j
unfolding days_from
days_from_split month zero j =
    let here : month + 0 ≡ month = omega arith in
    let all_of : 0 + j ≡ j = omega arith in
    omega (arith, ap (λ k. days_from month k) all_of, ap (λ k. days_from k j) here)
days_from_split month (suc i) j =
    let moved : suc month + i ≡ month + suc i = omega arith in
    let one_more : suc i + j ≡ suc (i + j) = omega arith in
    omega (
      arith,
      days_from_split (suc month) i j,
      ap (λ k. days_from k j) moved,
      ap (λ k. days_from month k) one_more,
    )

days_from-suc : (month : ℕ) → days_from 0 (suc month) ≡ days_from 0 month + days_in_month month
unfolding days_from
days_from-suc month =
    let next_month : month + 1 ≡ suc month = omega arith in
    let here : 0 + month ≡ month = omega arith in
    omega
      (arith, days_from_split 0 month 1, ap (λ k. days_from 0 k) next_month, ap days_in_month here)

pub days_from_bounds :
    (month count : ℕ) → (28 * count ≤ days_from month count) × (days_from month count ≤ 31 * count)
unfolding days_from
days_from_bounds month zero = (omega arith, omega arith)
days_from_bounds month (suc count) =
    let (low, high) = days_from_bounds (suc month) count in
    let (least, most) = days_in_month_bounds month in (omega arith, omega arith)

locate-days_from :
    (fuel month count date : ℕ)
    → date < days_in_month (month + count)
    → days_from month count + date < fuel
    → locate fuel month (days_from month count + date) ≡ (month + count, date)
unfolding locate days_from
locate-days_from zero month count date inside enough = absurd (omega arith)
locate-days_from (suc fuel) month zero date inside enough = ground arith
locate-days_from (suc fuel) month (suc count) date inside enough =
    let moved : suc month + count ≡ month + suc count = omega arith in
    let (short, _) = days_in_month_bounds month in
    let rest =
      locate-days_from fuel (suc month) count date (omega (arith, ap days_in_month moved))
        (omega arith) in
    ground (arith, rest, moved, days_in_month_bounds month)

-- Every day lies in a month, and at one date in it.
locate_inside :
    (fuel month day : ℕ)
    → day < fuel
    → let (there, date) = locate fuel month day in
      (month ≤ there)
      × (date < days_in_month there)
      × (days_from 0 there + date ≡ days_from 0 month + day)
unfolding locate
locate_inside zero month day enough = absurd (omega arith)
locate_inside (suc fuel) month day enough = elim (Bool-cases (ltb day (days_in_month month))) [
  | inl here ↦ ground arith
  | inr later ↦
      let (least, _) = days_in_month_bounds month in
      let rest =
        locate_inside fuel (suc month) (day - days_in_month month) (ground (arith, least)) in
      ground (arith, days_from-suc month)
]

-- Where a day is, its number of days from 1970 on tells.
pub month_and_day-days_from :
    (month date : ℕ)
    → date < days_in_month month
    → month_and_day (days_from 0 month + date) ≡ (month, date)
unfolding month_and_day
month_and_day-days_from month date inside =
    let here : 0 + month ≡ month = omega arith in
    locate-days_from (suc (days_from 0 month + date)) 0 month date
      (omega (arith, ap days_in_month here)) (omega arith)
    ∙ ap (λ k. (k, date)) here

-- The date in a month of `length` days that stands for this one: it, or else the last one.
abbrev pub clamped : ℕ → ℕ → ℕ
clamped date length = if ltb date length then date else length - 1

moved_on :
    (month date : ℕ)
    → date ≤ 30
    → let moved = days_from 0 month + date in
      let (month_after, date_after) = month_and_day moved in
      month_and_day (if ltb date_after date then days_from 0 month_after - 1 else moved)
      ≡ (month, clamped date (days_in_month month))
moved_on month date h = elim (Bool-cases (ltb date (days_in_month month))) [
  | inl fits ↦ ground (arith, month_and_day-days_from month date)
  | inr over ↦
      let (least, _) = days_in_month_bounds month in
      let (least_after, _) = days_in_month_bounds (suc month) in
      let rest = date - days_in_month month in
      let same : days_from 0 (suc month) + rest ≡ days_from 0 month + date =
        ground (arith, days_from-suc month) in
      let after = month_and_day-days_from (suc month) rest (ground arith) in
      let last = month_and_day-days_from month (days_in_month month - 1) (omega arith) in
      let back : days_from 0 month + (days_in_month month - 1) ≡ days_from 0 (suc month) - 1 =
        omega (arith, days_from-suc month) in
      let last_of_month = rw back at last in rw (← same, after) (ground (arith, last_of_month))
]

date_bounds : (day : ℕ) → (month_and_day day).1 ≤ 30
unfolding month_and_day
date_bounds day =
    let inside = locate_inside (suc day) 0 day (omega arith) in
    let (_, short) = days_in_month_bounds (month_and_day day).0 in omega (arith, inside.1, short)

-- The day of a place in the calendar.
day_of_place :
    (day : ℕ)
    → let (month, date) = month_and_day day in
      (date < days_in_month month) × (days_from 0 month + date ≡ day)
unfolding month_and_day days_from
day_of_place day =
    let (_, inside, same) = locate_inside (suc day) 0 day (omega arith) in
    (inside, omega (arith, same))

move_day-month_and_day :
    (day months : ℕ)
    → let (month, date) = month_and_day day in
      month_and_day (move_day day months)
      ≡ (month + months, clamped date (days_in_month (month + months)))
unfolding move_day
move_day-month_and_day day months =
    let (month, date) = month_and_day day in moved_on (month + months) date (date_bounds day)

-- The new time is in the month that lies so many months on, on the same date or, if the month is
-- too short for it, on its last day, and at the same time of day.
pub add_months-lands :
    (time months : ℕ)
    → let (month, date) = month_and_day (time / ms_per_day) in
      let later = add_months time months in
      (month_and_day (later / ms_per_day)
        ≡ (month + months, clamped date (days_in_month (month + months))))
      × (later % ms_per_day ≡ time % ms_per_day)
unfolding add_months
add_months-lands time months =
    let day = move_day (time / ms_per_day) months in
    let same : (day * ms_per_day + time % ms_per_day) / ms_per_day ≡ day = omega arith in
    (rw same (move_day-month_and_day (time / ms_per_day) months), omega arith)

-- A move by some months is one by their days at most, and by those less the three days by which the
-- last month may be shorter at least.
move_day_bounds :
    (day months : ℕ)
    → let days = days_from (month_and_day day).0 months in
      (day + days ≤ move_day day months + 3) × (move_day day months ≤ day + days)
move_day_bounds day months =
    let (month, date) = month_and_day day in
    let (_, here) = day_of_place day in
    let (_, there) = day_of_place (move_day day months) in
    let there' = rw (move_day-month_and_day day months) at there in
    let (short, _) = days_in_month_bounds (month + months) in
    let from_start : 0 + month ≡ month = omega arith in
    ground (
      arith,
      date_bounds day,
      days_from_split 0 month months,
      ap (λ k. days_from k months) from_start,
      here,
      there',
    )

-- The same, in milliseconds.
pub add_months_bounds :
    (time months : ℕ)
    → let days = days_from (month_and_day (time / ms_per_day)).0 months in
      (time + days * ms_per_day ≤ add_months time months + 3 * ms_per_day)
      × (add_months time months ≤ time + days * ms_per_day)
unfolding add_months
add_months_bounds time months =
    let (low, high) = move_day_bounds (time / ms_per_day) months in (omega arith, omega arith)

-- A term ends after it began.
pub add_months_later : (time months : ℕ) → 1 ≤ months → time < add_months time months
add_months_later time months h =
    let (low, _) = add_months_bounds time months in
    let (long, _) = days_from_bounds (month_and_day (time / ms_per_day)).0 months in omega arith

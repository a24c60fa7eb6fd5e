-- ===== src/Rewards/Tests.antt =====
-- Tests of src/lib/company-target-engine.ts and src/lib/company-target-periods.ts, and their
-- theorems at concrete inputs.
use prime_detailer_backend.Base.{◌≡◌, ◌≢◌, refl, true, false, some, List, [], ◌∷◌}
use prime_detailer_backend.Base.Int.{pos, ◌*ℤ◌, ◌+ℤ◌, ◌-ℤ◌}
use prime_detailer_backend.Base.Money.{round2, round2_div, sum}
use prime_detailer_backend.Rewards.Engine.{
  PeriodInput, calc_share_per_staff, select_achieved_tier, compute_role_breakdown,
  compute_period_result, is_eligible, staff_part, filter_eligible_staff_for_role, is_staff_eligible,
  calc_reward_pool,
}
use prime_detailer_backend.Rewards.Revenue.{
  CompanyTargetTier, EligibleStaffCandidate, RoleTierBreakdown, RevenueInvoice, normalize_role_key,
  calc_revenue, filter_revenue_invoices, is_valid_revenue_invoice,
}
use prime_detailer_backend.Rewards.TierChoice.{Highest, select_achieved_tier-Highest}
use prime_detailer_backend.Rewards.Periods.{
  monthly, get_periods_for_year, get_time, utc_day, utc_end_of_day, is_leap, days_before_year,
}
use prime_detailer_backend.Rewards.Calendar.{Contiguous, get_periods_for_year-Contiguous}

engine : Unit {0}
unfolding compute_period_result compute_role_breakdown select_achieved_tier staff_part
    filter_eligible_staff_for_role is_staff_eligible is_eligible normalize_role_key
    calc_share_per_staff calc_reward_pool calc_revenue filter_revenue_invoices
    is_valid_revenue_invoice round2 round2_div sum ◌*ℤ◌ ◌+ℤ◌
engine = tt

abbrev mechanics : CompanyTargetTier
mechanics = record { target_amount = pos 1000000000; reward_percent = pos 20000; role = "Mechanic" }

abbrev managers : CompanyTargetTier
managers = record {
  target_amount = pos 2000000000;
  reward_percent = pos 10000;
  role = "branch-manager";
}

abbrev ravi : EligibleStaffCandidate
ravi = record { id = "s1"; role = "MECHANIC"; is_active = true; joining_date = some "2025-04-02" }

abbrev late_joiner : EligibleStaffCandidate
late_joiner = record {
  id = "s2";
  role = "MECHANIC";
  is_active = true;
  joining_date = some "2025-04-06";
}

abbrev third : EligibleStaffCandidate
third = record { id = "s3"; role = "mechanic"; is_active = true; joining_date = some "2026-01-05" }

abbrev invoices : List RevenueInvoice
invoices =
    record { id = "i1"; status = "PAID"; grand_total = pos 1200000000; created_at = some (pos 500) }
    ∷ record { id = "i2"; status = "DRAFT"; grand_total = pos 7; created_at = some (pos 500) }
    ∷ record {
      id = "i3";
      status = "Issued";
      grand_total = pos 90000000;
      created_at = some (pos 1001);
    }
    ∷ []

abbrev opts : PeriodInput
opts = record {
  period_label = "Jan 2026";
  period_type = "MONTHLY";
  period_month = 1;
  period_year = 2026;
  period_start = pos 0;
  period_end = pos 1000;
  period_end_day = "2026-01-31";
  all_invoices = invoices;
  tiers = mechanics ∷ managers ∷ [];
  all_staff = ravi ∷ late_joiner ∷ third ∷ [];
  staff_id = some "s1";
}

-- Rs 1,20,000 reach the mechanics' target alone: 2 % make a pool of Rs 2,400 for two.
period_test :
    let r = compute_period_result opts in
    (r.revenue ≡ pos 1200000000)
    × (r.total_reward_pool ≡ pos 24000000)
    × (r.staff.share_per_staff ≡ pos 12000000)
    × (r.staff.not_eligible ≡ false)
unfolding engine
period_test = (refl, refl, refl, refl)

select_achieved_tier-Highest_example :
    Highest
      (pos 1200000000)
      (managers ∷ mechanics ∷ [])
      (select_achieved_tier (pos 1200000000) (managers ∷ mechanics ∷ []))
select_achieved_tier-Highest_example =
    select_achieved_tier-Highest (pos 1200000000) (managers ∷ mechanics ∷ [])

abbrev rows : List RoleTierBreakdown
rows = compute_role_breakdown (pos 1200000000) opts.tiers opts.all_staff opts.period_end_day

is_paid : (staff_part opts rows).share_per_staff ≢ pos 0
unfolding engine
is_paid e = cc e

calendar_tests :
    (get_time (utc_day 1970 1 1) ≡ pos 0)
    × (get_time (utc_day 2024 3 1) ≡ pos 1709251200000)
    × (get_time (utc_end_of_day 2023 12 31) ≡ pos 1704067199999)
unfolding get_time is_leap days_before_year ◌-ℤ◌
calendar_tests = (refl, refl, refl)

get_periods_for_year-Contiguous_example :
    Contiguous
      (get_time (utc_day 2024 1 1))
      (get_periods_for_year 2024 monthly)
      (get_time (utc_day 2025 1 1))
get_periods_for_year-Contiguous_example = get_periods_for_year-Contiguous 2024 monthly

-- ===== src/Rewards/Engine.antt =====
-- The computations of src/lib/company-target-engine.ts. A time is the value of `getTime()`, and
-- the dates of the input are given by theirs; `none` stands for an invalid date.
use prime_detailer_backend.Base.{
  ℕ, ◌+◌, String, Bool, true, false, not, ◌&&◌, Option, none, some, List, [], ◌∷◌, map,
  if◌then◌else◌, or_else, ◌==◌, length, filter, find,
}
use prime_detailer_backend.Base.Int.{ℤ, pos, ◌*ℤ◌, ltb_ℤ, leb_ℤ}
use prime_detailer_backend.Base.Money.{round2, round2_div, sum}
use prime_detailer_backend.Base.Text.{codes, codes_eq, codes_ltb, str_eq, slice, parse_int}
use prime_detailer_backend.Rewards.Revenue.{
  CompanyTargetTier, RevenueInvoice, EligibleStaffCandidate, RoleTierBreakdown,
  filter_revenue_invoices, calc_revenue, normalize_role_key,
}

-- The loop over the tiers, from index `i`, with the best tier so far.
abbrev pub Choice : Type 0
Choice = Option (CompanyTargetTier × ℕ)

abbrev pub is_better : CompanyTargetTier → Choice → Bool
is_better tier none = true
is_better tier (some (best, _)) = ltb_ℤ best.target_amount tier.target_amount

unfoldable pub select_from : ℤ → ℕ → Choice → List CompanyTargetTier → Choice
select_from revenue i best [] = best
select_from revenue i best (tier ∷ tiers) =
    select_from revenue (i + 1)
      (if leb_ℤ tier.target_amount revenue && is_better tier best then some (tier, i) else best)
      tiers

unfoldable pub select_achieved_tier : ℤ → List CompanyTargetTier → Choice
unfolding select_from
select_achieved_tier revenue tiers = select_from revenue 0 none tiers

-- `revenue * rewardPercent / 100`, both in ten-thousandths.
unfoldable pub calc_reward_pool : ℤ → ℤ → ℤ
calc_reward_pool revenue reward_percent = round2_div (revenue *ℤ reward_percent) 1000000

-- `joiningDay > 5`, which NaN fails.
abbrev exceeds_five : Option ℤ → Bool
exceeds_five none = false
exceeds_five (some day) = ltb_ℤ (pos 5) day

-- `period_end_day` is the date of the period's end, "YYYY-MM-DD".
unfoldable pub is_eligible : String → EligibleStaffCandidate → Bool
unfolding slice parse_int codes_ltb
is_eligible period_end_day s =
    if not s.is_active
    then false
    else if str_eq s.role "SUPER_ADMIN"
    then false
    else if str_eq (or_else s.joining_date "") ""
    then false
    else (let jd = slice 0 10 (codes (or_else s.joining_date "")) in
        if codes_ltb (codes period_end_day) jd
        then false
        else not (exceeds_five (parse_int (slice 8 10 jd))))

unfoldable pub filter_eligible_staff :
    List EligibleStaffCandidate → String → List EligibleStaffCandidate
filter_eligible_staff staff period_end_day = filter (is_eligible period_end_day) staff

unfoldable pub filter_eligible_staff_for_role :
    List EligibleStaffCandidate → String → String → List EligibleStaffCandidate
unfolding filter_eligible_staff
filter_eligible_staff_for_role staff period_end_day role =
    filter (λ s. codes_eq (normalize_role_key s.role) (normalize_role_key role))
      (filter_eligible_staff staff period_end_day)

unfoldable pub is_staff_eligible : EligibleStaffCandidate → String → Bool
unfolding filter_eligible_staff
is_staff_eligible staff period_end_day =
    not (length (filter_eligible_staff (staff ∷ []) period_end_day) == 0)

unfoldable pub calc_share_per_staff : ℤ → ℕ → ℤ
calc_share_per_staff pool eligible_count =
    if eligible_count == 0 then pos 0 else round2_div pool eligible_count

unfoldable pub tier_breakdown :
    ℤ → List EligibleStaffCandidate → String → ℕ → CompanyTargetTier → RoleTierBreakdown
tier_breakdown revenue all_staff period_end_day index tier =
    let achieved = leb_ℤ tier.target_amount revenue in
    let pool = if achieved then calc_reward_pool revenue tier.reward_percent else pos 0 in
    let count = length (filter_eligible_staff_for_role all_staff period_end_day tier.role) in
    record {
      role = tier.role;
      tier_index = index;
      target_amount = tier.target_amount;
      reward_percent = tier.reward_percent;
      achieved = achieved;
      pool = pool;
      eligible_staff_count = count;
      share_per_staff = if achieved then calc_share_per_staff pool count else pos 0;
    }

-- `tiers.map(…)`, from index `i`.
unfoldable pub breakdown_from :
    ℤ → List EligibleStaffCandidate → String → ℕ → List CompanyTargetTier → List RoleTierBreakdown
breakdown_from revenue all_staff period_end_day i [] = []
breakdown_from revenue all_staff period_end_day i (tier ∷ tiers) =
    tier_breakdown revenue all_staff period_end_day i tier
    ∷ breakdown_from revenue all_staff period_end_day (i + 1) tiers

unfoldable pub compute_role_breakdown :
    ℤ → List CompanyTargetTier → List EligibleStaffCandidate → String → List RoleTierBreakdown
unfolding breakdown_from tier_breakdown
compute_role_breakdown revenue tiers all_staff period_end_day =
    breakdown_from revenue all_staff period_end_day 0 tiers

pub record PeriodInput : Type 0 where
  pub period_label : String
  pub period_type : String
  pub period_month : ℕ
  pub period_year : ℕ
  pub period_start : ℤ
  pub period_end : ℤ
  pub period_end_day : String
  pub all_invoices : List RevenueInvoice
  pub tiers : List CompanyTargetTier
  pub all_staff : List EligibleStaffCandidate
  pub staff_id : Option String

-- The fields that concern the requested member of staff.
pub record StaffPart : Type 0 where
  pub staff_role : Option String
  pub achieved_tier_index : Option ℕ
  pub target_amount : Option ℤ
  pub reward_percent : Option ℤ
  pub eligible_staff_count : ℕ
  pub share_per_staff : ℤ
  pub not_eligible : Bool

pub record CompanyTargetPeriodResult : Type 0 where
  pub period_label : String
  pub period_type : String
  pub period_month : ℕ
  pub period_year : ℕ
  pub revenue : ℤ
  pub total_reward_pool : ℤ
  pub role_breakdown : List RoleTierBreakdown
  pub staff : StaffPart

abbrev pub no_staff : Option String → Bool → StaffPart
no_staff role not_eligible = record {
  staff_role = role;
  achieved_tier_index = none;
  target_amount = none;
  reward_percent = none;
  eligible_staff_count = 0;
  share_per_staff = pos 0;
  not_eligible = not_eligible;
}

-- The row of the tier that matches the role of the member of staff, if there is one.
abbrev pub with_tier : EligibleStaffCandidate → Bool → Option RoleTierBreakdown → StaffPart
with_tier member eligible none = no_staff (some member.role) (not eligible)
with_tier member eligible (some row) = record {
  staff_role = some member.role;
  achieved_tier_index = some row.tier_index;
  target_amount = some row.target_amount;
  reward_percent = some row.reward_percent;
  eligible_staff_count = row.eligible_staff_count;
  share_per_staff = if eligible then row.share_per_staff else pos 0;
  not_eligible = not eligible;
}

abbrev pub matches_role : EligibleStaffCandidate → RoleTierBreakdown → Bool
matches_role member row = codes_eq (normalize_role_key row.role) (normalize_role_key member.role)

abbrev pub for_member : String → List RoleTierBreakdown → Option EligibleStaffCandidate → StaffPart
for_member period_end_day rows none = no_staff none true
for_member period_end_day rows (some member) =
    with_tier member (is_staff_eligible member period_end_day) (find (matches_role member) rows)

unfoldable pub staff_part : PeriodInput → List RoleTierBreakdown → StaffPart
staff_part opts rows =
    if str_eq (or_else opts.staff_id "") ""
    then no_staff none false
    else for_member opts.period_end_day rows
        (find (λ s. str_eq s.id (or_else opts.staff_id "")) opts.all_staff)

unfoldable pub compute_period_result : PeriodInput → CompanyTargetPeriodResult
unfolding staff_part
compute_period_result opts =
    let revenue =
      calc_revenue (filter_revenue_invoices opts.all_invoices opts.period_start opts.period_end) in
    let rows = compute_role_breakdown revenue opts.tiers opts.all_staff opts.period_end_day in
    record {
      period_label = opts.period_label;
      period_type = opts.period_type;
      period_month = opts.period_month;
      period_year = opts.period_year;
      revenue = revenue;
      total_reward_pool = round2 (sum (map (λ r. r.pool) rows));
      role_breakdown = rows;
      staff = staff_part opts rows;
    }

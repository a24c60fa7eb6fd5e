-- ===== src/Pricing/Sums.antt =====
-- The amounts of a price breakdown add up.
use prime_detailer_backend.Base.{
  String, Bool, true, false, not, ◌&&◌, ◌≡◌, ap, refl, or_else, inl, inr, Bool-cases, Option, none,
  some, if◌then◌else◌, is_some,
}
use prime_detailer_backend.Base.Int.{ℤ, pos, negsuc, ◌+ℤ◌, ◌-ℤ◌, ◌*ℤ◌, max_zero}
use prime_detailer_backend.Base.Money.{
  round2, round2_div, round2_div-IsCents, round2_idempotent, IsCents, IsCents-+ℤ, IsCents--ℤ,
}
use prime_detailer_backend.Base.Assoc.{entry}
use prime_detailer_backend.Pricing.Plan.{PlanLimits, all_term_months, has_term}
use prime_detailer_backend.Pricing.Calculation.{
  SubscriptionPricingInput, SubscriptionPricingConfig, SubscriptionPricingBreakdown, base_price,
  clamp_non_negative_int, validate_referral_code, calculate_subscription_pricing,
}

-- The sum of the parts before tax.
abbrev pub sum_of_parts : SubscriptionPricingBreakdown → ℤ
sum_of_parts b =
    (((b.base_amount +ℤ b.extra_branch_cost) +ℤ b.extra_user_cost) +ℤ b.onboarding_fee)
    -ℤ b.referral_discount

abbrev pub AddsUp : Option SubscriptionPricingBreakdown → Type 0
AddsUp none = Unit
AddsUp (some b) =
    (b.sub_total_before_tax ≡ max_zero (sum_of_parts b))
    × (b.final_amount ≡ b.sub_total_before_tax +ℤ b.gst_amount)

max_zero-IsCents : (x : ℤ) → IsCents x → IsCents (max_zero x)
unfolding round2
max_zero-IsCents (pos n) h = h
max_zero-IsCents (negsuc n) h = refl

-- A fee that is charged or not, in whole paise.
fee-IsCents : (b : Bool) (fee : ℤ) → IsCents (if b then round2 fee else pos 0)
unfolding round2
fee-IsCents true fee = round2_idempotent fee
fee-IsCents false fee = refl

parts_exact :
    (base branches users fee discount : ℤ)
    → IsCents base
    → IsCents branches
    → IsCents users
    → IsCents fee
    → IsCents discount
    → IsCents ((((base +ℤ branches) +ℤ users) +ℤ fee) -ℤ discount)
parts_exact base branches users fee discount a b c d e =
    IsCents--ℤ (((base +ℤ branches) +ℤ users) +ℤ fee) discount
      (IsCents-+ℤ ((base +ℤ branches) +ℤ users) fee
        (IsCents-+ℤ (base +ℤ branches) users (IsCents-+ℤ base branches a b) c) d)
      e

-- A price is quoted exactly for the supported terms, and then it adds up to the paisa: the subtotal
-- is the sum of its parts, or zero where the discount exceeds them, and the final amount is the
-- subtotal plus the tax.
pub calculate_subscription_pricing-AddsUp :
    (plan_code plan_name : String) (limits : PlanLimits) (is_first : Bool)
    (payload : SubscriptionPricingInput) (cfg : SubscriptionPricingConfig)
    → let quote = calculate_subscription_pricing plan_code plan_name limits is_first payload cfg in
      (is_some quote ≡ has_term all_term_months payload.term_months) × AddsUp quote
unfolding calculate_subscription_pricing
calculate_subscription_pricing-AddsUp plan_code plan_name limits is_first payload cfg =
    let rate = or_else (entry plan_code cfg.plan_multipliers) (pos 10000) in
    let price = base_price cfg.term_base_prices payload.term_months *ℤ rate in
    let branches =
      pos (clamp_non_negative_int payload.extra_branches) *ℤ cfg.add_ons.extra_branch_price in
    let users = pos (clamp_non_negative_int payload.extra_users) *ℤ cfg.add_ons.extra_user_price in
    let (code, message) = validate_referral_code payload.referral_code in
    let eligible = is_first && is_some code && not (is_some message) in
    let fee = (if is_first then round2 cfg.add_ons.onboarding_fee else pos 0) in
    let discount = (if eligible then round2 cfg.add_ons.referral_discount else pos 0) in
    let exact =
      parts_exact (round2_div price 10000) (round2 branches) (round2 users) fee discount
        (round2_div-IsCents price 10000) (round2_idempotent branches) (round2_idempotent users)
        (fee-IsCents is_first cfg.add_ons.onboarding_fee)
        (fee-IsCents eligible cfg.add_ons.referral_discount) in
    let sum_before =
      (((round2_div price 10000 +ℤ round2 branches) +ℤ round2 users) +ℤ fee) -ℤ discount in
    let taxable = max_zero (round2 sum_before) in
    let gst = taxable *ℤ cfg.gst_percent in
    let final =
      IsCents-+ℤ taxable (round2_div gst 1000000)
        (max_zero-IsCents (round2 sum_before) (round2_idempotent sum_before))
        (round2_div-IsCents gst 1000000) in
    elim (Bool-cases (has_term all_term_months payload.term_months)) [
      | inl supported ↦ rw supported (refl, (ap max_zero exact, final))
      | inr unsupported ↦ rw unsupported (refl, tt)
    ]

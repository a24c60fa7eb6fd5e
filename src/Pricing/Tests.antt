-- ===== src/Pricing/Tests.antt =====
-- Tests of src/lib/subscription-pricing.ts and src/lib/plan-catalog.ts.
use prime_detailer_backend.Base.{ℕ, true, false, ◌≡◌, refl, Option, none, some, [], ◌∷◌, is_some}
use prime_detailer_backend.Base.Int.{ℤ, pos, ◌+ℤ◌, ◌-ℤ◌, ◌*ℤ◌}
use prime_detailer_backend.Base.Money.{round2, round2_div}
use prime_detailer_backend.Base.Text.{decimal, trim, is_space, is_blank, upper}
use prime_detailer_backend.Pricing.Plan.{
  PlanLimits, all_term_months, has_term, is_allowed_term, effective_max_branches, is_unlimited,
  can_create_with_limit, create_up_to,
}
use prime_detailer_backend.Pricing.Calculation.{
  SubscriptionPricingInput, SubscriptionPricingConfig, SubscriptionPricingBreakdown,
  clamp_non_negative_int, is_referral_code, validate_referral_code, add_capacity,
  calculate_subscription_pricing,
}
use prime_detailer_backend.Pricing.Sums.{AddsUp, calculate_subscription_pricing-AddsUp}

pricing : Unit {0}
unfolding ◌+ℤ◌ ◌-ℤ◌ ◌*ℤ◌ round2 round2_div decimal trim is_space is_blank upper is_allowed_term
    effective_max_branches is_unlimited can_create_with_limit create_up_to clamp_non_negative_int
    is_referral_code validate_referral_code add_capacity calculate_subscription_pricing
pricing = tt

-- The defaults of getSubscriptionPricingConfigFromEnv.
abbrev defaults : SubscriptionPricingConfig
defaults = record {
  currency = "INR";
  term_base_prices = record {
    months_1 = pos 9990000;
    months_3 = pos 24990000;
    months_12 = pos 99990000;
    months_24 = pos 189990000;
    months_36 = pos 269990000;
    months_60 = pos 419990000;
  };
  plan_multipliers = ("STARTER", pos 10000) ∷ ("GROWTH", pos 18000) ∷ [];
  add_ons = record {
    extra_branch_price = pos 25000000;
    extra_user_price = pos 7500000;
    onboarding_fee = pos 15000000;
    referral_discount = pos 10000000;
  };
  gst_percent = pos 180000;
}

abbrev growth : PlanLimits
growth = record { max_branches = some 3; max_staff = some 10; max_customers = none }

abbrev payload : SubscriptionPricingInput
payload = record {
  term_months = 12;
  extra_branches = some (pos 19999);
  extra_users = none;
  referral_code = some " pd-2026 ";
}

abbrev final_of : Option SubscriptionPricingBreakdown → Option (ℤ × Option ℕ)
final_of none = none
final_of (some b) = some (b.final_amount, b.final_allowed_branches)

-- (17998.20 + 2500 + 1500 - 1000) and 18 per cent of it.
first_year :
    final_of (calculate_subscription_pricing "GROWTH" "Growth" growth true payload defaults)
    ≡ some (pos 247778800, some 4)
unfolding pricing
first_year = refl

no_such_term :
    calculate_subscription_pricing "GROWTH" "Growth" growth true
      (record payload { term_months = 6 })
      defaults
    ≡ none
unfolding pricing
no_such_term = refl

limits_read :
    (effective_max_branches growth (some (pos 55000)) ≡ some 5)
    × (is_allowed_term 6 none ≡ false)
    × (can_create_with_limit 3 (some 3) ≡ false)
unfolding pricing
limits_read = (refl, refl, refl)

calculate_subscription_pricing-AddsUp_example :
    (is_some (calculate_subscription_pricing "GROWTH" "Growth" growth true payload defaults)
      ≡ has_term all_term_months 12)
    × AddsUp (calculate_subscription_pricing "GROWTH" "Growth" growth true payload defaults)
calculate_subscription_pricing-AddsUp_example =
    calculate_subscription_pricing-AddsUp "GROWTH" "Growth" growth true payload defaults

-- ===== src/Pricing/Calculation.antt =====
-- calculateSubscriptionPricing of src/lib/subscription-pricing.ts. The numbers of a configuration
-- are finite, as both of its makers see to; an amount from the request that is not finite is `none`.
use prime_detailer_backend.Base.{
  ℕ, ◌+◌, String, Bool, not, ◌&&◌, ◌||◌, Option, none, some, List, if◌then◌else◌, or_else, leb,
  ◌==◌, all, length, is_some,
}
use prime_detailer_backend.Base.Int.{ℤ, pos, ◌+ℤ◌, ◌-ℤ◌, ◌*ℤ◌, max_zero}
use prime_detailer_backend.Base.Money.{round2, round2_div}
use prime_detailer_backend.Base.Text.{decimal, trim, upper}
use prime_detailer_backend.Base.Assoc.{entry}
use prime_detailer_backend.Pricing.Plan.{PlanLimits, all_term_months, has_term, floor_zero}
use mathlib.Core.Option
use Prim.Native.String.{◌++◌ as join}

pub record SubscriptionPricingInput : Type 0 where
  pub term_months : ℕ
  pub extra_branches : Option ℤ
  pub extra_users : Option ℤ
  pub referral_code : Option String

pub record TermBasePrices : Type 0 where
  pub months_1 : ℤ
  pub months_3 : ℤ
  pub months_12 : ℤ
  pub months_24 : ℤ
  pub months_36 : ℤ
  pub months_60 : ℤ

pub record AddOns : Type 0 where
  pub extra_branch_price : ℤ
  pub extra_user_price : ℤ
  pub onboarding_fee : ℤ
  pub referral_discount : ℤ

pub record SubscriptionPricingConfig : Type 0 where
  pub currency : String
  pub term_base_prices : TermBasePrices
  pub plan_multipliers : List (String × ℤ)
  pub add_ons : AddOns
  pub gst_percent : ℤ

pub record SubscriptionPricingBreakdown : Type 0 where
  pub plan_code : String
  pub plan_name : String
  pub term_months : ℕ
  pub term_label : String
  pub extra_branches : ℕ
  pub extra_users : ℕ
  pub base_amount : ℤ
  pub extra_branch_cost : ℤ
  pub extra_user_cost : ℤ
  pub onboarding_fee : ℤ
  pub onboarding_applied : Bool
  pub referral_code : Option (List ℕ)
  pub referral_discount : ℤ
  pub referral_applied : Bool
  pub referral_validation_message : Option String
  pub gst_percent : ℤ
  pub gst_amount : ℤ
  pub sub_total_before_tax : ℤ
  pub final_amount : ℤ
  pub included_branches : Option ℕ
  pub included_users : Option ℕ
  pub final_allowed_branches : Option ℕ
  pub final_allowed_users : Option ℕ
  pub currency : String
  pub is_first_subscription : Bool

abbrev term_label : ℕ → String
term_label term_months =
    if term_months == 1
    then "1 month"
    else if term_months == 3
    then "3 months"
    else if term_months == 12
    then "1 year"
    else if term_months == 24
    then "2 years"
    else if term_months == 36
    then "3 years"
    else if term_months == 60
    then "5 years"
    else join (decimal term_months) " months"

abbrev pub base_price : TermBasePrices → ℕ → ℤ
base_price prices term_months =
    if term_months == 1
    then prices.months_1
    else if term_months == 3
    then prices.months_3
    else if term_months == 24
    then prices.months_24
    else if term_months == 36
    then prices.months_36
    else if term_months == 60
    then prices.months_60
    else prices.months_12

unfoldable pub clamp_non_negative_int : Option ℤ → ℕ
clamp_non_negative_int none = 0
clamp_non_negative_int (some n) = floor_zero n

-- `[A-Z0-9-]`
abbrev is_code_letter : ℕ → Bool
is_code_letter c = (leb b'A' c && leb c b'Z') || (leb b'0' c && leb c b'9') || c == b'-'

-- REFERRAL_CODE_REGEX
unfoldable pub is_referral_code : List ℕ → Bool
is_referral_code code = leb 4 (length code) && leb (length code) 24 && all is_code_letter code

-- The code, by its code points, and the message.
unfoldable pub validate_referral_code : Option String → Option (List ℕ) × Option String
unfolding is_referral_code
validate_referral_code raw =
    let code = upper (trim (or_else raw "")) in
    if length code == 0
    then (none, none)
    else if not (is_referral_code code)
    then (none, some "Invalid referral code format.")
    else (some code, none)

unfoldable pub add_capacity : Option ℕ → ℕ → Option ℕ
add_capacity base extra = Option.map (λ limit. limit + extra) base

-- The breakdown, or `none` where it throws: the term is not supported.
unfoldable pub calculate_subscription_pricing :
    String
    → String
    → PlanLimits
    → Bool
    → SubscriptionPricingInput
    → SubscriptionPricingConfig
    → Option SubscriptionPricingBreakdown
unfolding clamp_non_negative_int validate_referral_code add_capacity
calculate_subscription_pricing plan_code plan_name limits is_first_subscription payload cfg =
    let branches = clamp_non_negative_int payload.extra_branches in
    let users = clamp_non_negative_int payload.extra_users in
    let (code, message) = validate_referral_code payload.referral_code in
    let multiplier = or_else (entry plan_code cfg.plan_multipliers) (pos 10000) in
    let base_amount =
      round2_div (base_price cfg.term_base_prices payload.term_months *ℤ multiplier) 10000 in
    let branch_cost = round2 (pos branches *ℤ cfg.add_ons.extra_branch_price) in
    let user_cost = round2 (pos users *ℤ cfg.add_ons.extra_user_price) in
    let fee = (if is_first_subscription then round2 cfg.add_ons.onboarding_fee else pos 0) in
    let eligible = is_first_subscription && is_some code && not (is_some message) in
    let discount = (if eligible then round2 cfg.add_ons.referral_discount else pos 0) in
    let subtotal = round2 ((((base_amount +ℤ branch_cost) +ℤ user_cost) +ℤ fee) -ℤ discount) in
    let taxable = max_zero subtotal in
    let gst = round2_div (taxable *ℤ cfg.gst_percent) 1000000 in
    if not (has_term all_term_months payload.term_months)
    then none
    else some (record {
      plan_code = plan_code;
      plan_name = plan_name;
      term_months = payload.term_months;
      term_label = term_label payload.term_months;
      extra_branches = branches;
      extra_users = users;
      base_amount = base_amount;
      extra_branch_cost = branch_cost;
      extra_user_cost = user_cost;
      onboarding_fee = fee;
      onboarding_applied = is_first_subscription;
      referral_code = code;
      referral_discount = discount;
      referral_applied = eligible;
      referral_validation_message = message;
      gst_percent = cfg.gst_percent;
      gst_amount = gst;
      sub_total_before_tax = taxable;
      final_amount = round2 (taxable +ℤ gst);
      included_branches = limits.max_branches;
      included_users = limits.max_staff;
      final_allowed_branches = add_capacity limits.max_branches branches;
      final_allowed_users = add_capacity limits.max_staff users;
      currency = cfg.currency;
      is_first_subscription = is_first_subscription;
    })

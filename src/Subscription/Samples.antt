-- ===== src/Subscription/Samples.antt =====
-- An organisation with a subscription, on which the tests run.
use prime_detailer_backend.Base.{String, true, false, none, some, [], ◌∷◌}
use prime_detailer_backend.Base.Int.{pos, ◌+ℤ◌, ◌-ℤ◌, ◌*ℤ◌}
use prime_detailer_backend.Base.Money.{round2, round2_div}
use prime_detailer_backend.Base.Text.{decimal, trim, is_space, is_blank, upper, strip_prefix}
use prime_detailer_backend.Access.Gate.{expired}
use prime_detailer_backend.Access.Role.{mechanic, super_admin}
use prime_detailer_backend.Limits.SubscriptionLock.{
  ceil_days, days_until_expiry, grace_or_lock_status, is_export_locked, normalize_term_months,
  term_label_from_months,
}
use prime_detailer_backend.Pricing.Plan.{
  PlanLimits, can_create_with_limit, effective_max_branches, effective_max_users, is_unlimited,
  normalize_plan_code,
}
use prime_detailer_backend.Pricing.Calculation.{
  SubscriptionPricingConfig, add_capacity, calculate_subscription_pricing, clamp_non_negative_int,
  is_referral_code, validate_referral_code,
}
use prime_detailer_backend.Rewards.Periods.{is_leap}
use prime_detailer_backend.Subscription.Calendar.{
  add_months, days_from, days_in_month, locate, month_and_day, move_day,
}
use prime_detailer_backend.Subscription.Records.{
  Database, Organization, OrganizationSubscription, paid,
}
use prime_detailer_backend.Subscription.Entitlement.{
  assert_can_create_branch, assert_can_create_user, count_active_users_for_org,
  count_branches_for_org, get_entitlement_for_org, normalized_limits_for_subscription,
  resolve_expires_at, to_entitlement,
}
use prime_detailer_backend.Subscription.Patch.{
  patch_by, get_plan_template, patch_organization_subscription, patched,
}
use prime_detailer_backend.Subscription.Notes.{after_first, parse_pricing_from_notes, pricing_notes}
use prime_detailer_backend.Subscription.Renewal.{
  after_request, get_subscription_pricing_quote, is_first_subscription_for_org, map_payment,
  quote_for, renewal_payload, renewal_payment, request_quoted, request_subscription_renewal,
}
use prime_detailer_backend.Subscription.Settlement.{next_bill_number, settled_bill, settlement}
use prime_detailer_backend.Subscription.Verify.{
  verify_found, fail_payment, mark_paid, settle, verify_subscription_payment,
}
use prime_detailer_backend.Subscription.MarkPaid.{
  admin_mark_subscription_paid, mark_chosen, open_payment, set_term,
}

unfoldable pub chain : Unit {0}
unfolding ◌+ℤ◌ ◌-ℤ◌ ◌*ℤ◌ round2 round2_div decimal trim is_space is_blank upper strip_prefix
    ceil_days days_until_expiry grace_or_lock_status is_export_locked normalize_term_months
    term_label_from_months can_create_with_limit effective_max_branches effective_max_users
    is_unlimited normalize_plan_code add_capacity calculate_subscription_pricing
    clamp_non_negative_int is_referral_code validate_referral_code is_leap add_months days_from
    days_in_month locate month_and_day move_day assert_can_create_branch assert_can_create_user
    count_active_users_for_org count_branches_for_org get_entitlement_for_org
    normalized_limits_for_subscription resolve_expires_at to_entitlement get_plan_template
    patch_organization_subscription patched after_first parse_pricing_from_notes pricing_notes
    after_request get_subscription_pricing_quote is_first_subscription_for_org map_payment quote_for
    renewal_payload renewal_payment request_subscription_renewal next_bill_number settled_bill
    settlement verify_found patch_by request_quoted mark_chosen fail_payment mark_paid settle
    verify_subscription_payment admin_mark_subscription_paid open_payment set_term
chain = tt

abbrev prices : SubscriptionPricingConfig
prices = record {
  currency = "INR";
  term_base_prices = record {
    months_1 = pos 9990000;
    months_3 = pos 24990000;
    months_12 = pos 99990000;
    months_24 = pos 189990000;
    months_36 = pos 269990000;
    months_60 = pos 419990000;
  };
  plan_multipliers = ("STARTER", pos 10000) ∷ ("GROWTH", pos 18000) ∷ [];
  add_ons = record {
    extra_branch_price = pos 25000000;
    extra_user_price = pos 7500000;
    onboarding_fee = pos 15000000;
    referral_discount = pos 10000000;
  };
  gst_percent = pos 180000;
}

abbrev pub starter : PlanLimits
starter = record { max_branches = some 1; max_staff = some 3; max_customers = none }

abbrev pub sample_sub : OrganizationSubscription
sample_sub = record {
  id = "sub-1";
  plan_code = "STARTER";
  plan_name = "Starter";
  status = expired;
  limits = starter;
  max_branches_override = none;
  max_users_override = none;
  contact_us_url = none;
  contact_phone = none;
  upgrade_url = none;
  term_months = 12;
  starts_at = none;
  expires_at = none;
  current_period_end = some 1769817600000;
  payment_status = paid;
  last_payment_txn_id = none;
}

abbrev pub org : String → Organization
org id = record {
  id = id;
  name = "Shine";
  slug = none;
  is_active = false;
  subscription = some sample_sub;
}

abbrev pub sample_db : Database
sample_db = record {
  organizations = org "org-1" ∷ org "org-2" ∷ [];
  subscription_payments = [];
  subscription_bills = [];
  platform_audit_logs = [];
  branches = "org-1" ∷ [];
  users =
      record { organization_id = "org-1"; is_active = true; role = super_admin }
      ∷ record { organization_id = "org-1"; is_active = true; role = mechanic }
      ∷ [];
  plan_catalog = [];
  subscription_pricing = prices;
}

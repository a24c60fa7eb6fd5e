-- ===== src/Subscription/Tests.antt =====
-- Tests of src/modules/organization/organization-subscription.service.ts.
use prime_detailer_backend.Base.{
  ℕ, ◌+◌, ◌≤◌, ◌/◌, ◌%◌, String, Bool, true, false, ◌≡◌, refl, Option, none, some, List, [], ◌∷◌,
  map,
}
use prime_detailer_backend.Base.Int.{ℤ, pos}
use prime_detailer_backend.Base.Text.{str_eq, trim}
use prime_detailer_backend.Limits.SubscriptionLock.{ms_per_day}
use prime_detailer_backend.Pricing.Calculation.{SubscriptionPricingBreakdown}
use prime_detailer_backend.Subscription.Calendar.{add_months, days_in_month, month_and_day}
use prime_detailer_backend.Subscription.Records.{
  Database, Result, SubscriptionBill, returns, throws,
}
use prime_detailer_backend.Subscription.Entitlement.{
  EntitlementPayload, assert_can_create_branch, count_branches_for_org, resolve_expires_at,
}
use prime_detailer_backend.Subscription.Notes.{
  BreakdownJson, after_first, parse_pricing_from_notes, pricing_notes,
}
use prime_detailer_backend.Subscription.Renewal.{
  RenewalOptions, quote_for, renewal_payload, renewal_payment, request_subscription_renewal,
}
use prime_detailer_backend.Subscription.Settlement.{VerifyPaymentInput, outcome_paid}
use prime_detailer_backend.Subscription.Verify.{verify_subscription_payment}
use prime_detailer_backend.Subscription.MarkPaid.{MarkPaidOptions, admin_mark_subscription_paid}
use prime_detailer_backend.Base.{◌≢◌}
use prime_detailer_backend.Subscription.Records.{unique_violation}
use prime_detailer_backend.Subscription.Months.{add_months-lands, clamped}
use prime_detailer_backend.Subscription.Entitlement.{entitlement_now, status_ok}
use prime_detailer_backend.Subscription.Renewal.{requested}
use prime_detailer_backend.Subscription.Settlement.{period_start_at}
use prime_detailer_backend.Subscription.Rows.{Found}
use prime_detailer_backend.Subscription.Calls.{
  Call, call_mark_paid, call_request, call_verify, organization_of, outcomes, run_all,
}
use prime_detailer_backend.Subscription.Billing.{RenewedOnce, verify_subscription_payment-IsRenewed}
use prime_detailer_backend.Subscription.Once.{verify_subscription_payment-once}
use prime_detailer_backend.Subscription.Writes.{IsMirrored}
use prime_detailer_backend.Subscription.History.{
  AllMirrored, Extends, SameFor, run_all-AllMirrored, run_all-Extends, run_all-SameFor,
}
use prime_detailer_backend.Subscription.PaidUntil.{Clock, paid_until}
use prime_detailer_backend.Subscription.Refinement.{run_all-Clock}
use prime_detailer_backend.Subscription.Exports.{verify_subscription_payment-exports}
use prime_detailer_backend.Subscription.Allowance.{
  IsBelow, Verdict, assert_can_create_branch-Verdict, IsCapped, branch_limit,
  patch_organization_subscription-IsCapped,
}
use prime_detailer_backend.Base.{or_else, ◌++◌}
use prime_detailer_backend.Subscription.Notes.{marker, parse_pricing_from_notes-pricing_notes}
use prime_detailer_backend.Subscription.Calls.{state_after}
use prime_detailer_backend.Subscription.Carried.{
  IsBilledAs, admin_mark_subscription_paid-IsBilledAs,
}
use prime_detailer_backend.Pricing.Plan.{PlanLimits}
use prime_detailer_backend.Subscription.Patch.{
  PatchSubscriptionInput, patch_organization_subscription,
}
use text.Mathlib.TextEquality.{eq_iff}
use prime_detailer_backend.Base.{filter, length, if◌then◌else◌, leb}
use prime_detailer_backend.Subscription.Renewal.{bill_of_org}
use prime_detailer_backend.Subscription.Bills.{newest_bills}
use prime_detailer_backend.Subscription.Listing.{
  AreNewestOf, IsNewestFirst, newest_bills-IsNewestFirst,
}
use prime_detailer_backend.Subscription.Samples.{chain, starter, sample_sub, org, sample_db}

-- 31 January 2026, and a month later.
clamped_date : add_months 1769817600000 1 ≡ 1772236800000
unfolding chain
clamped_date = refl

abbrev renewal : RenewalOptions
renewal = record {
  notes = none;
  method = none;
  term_months = some 3;
  extra_branches = some (pos 19999);
  extra_users = some (pos 20000);
  referral_code = some "PD-2026";
}

abbrev sample_quote : Option SubscriptionPricingBreakdown
unfolding chain
sample_quote = quote_for sample_db "org-1" sample_sub (renewal_payload renewal)

-- Every breakdown is written as the same text, which is read as the one of the sample.
abbrev sample_json : BreakdownJson
sample_json = record { stringify = λ b. "{}"; parse = λ text. sample_quote }

abbrev now : ℕ
now = 1769817600000 + 500

abbrev db_of : {A : Type 0} → Result A → Database
db_of (returns a db) = db
db_of (throws failure db) = db

abbrev requested_db : Database
unfolding chain
requested_db =
    db_of (request_subscription_renewal sample_json sample_db now "pay-1" "org-1" "studio" renewal)

abbrev no_options : MarkPaidOptions
no_options = record { txn_reference = none; amount = none; term_months = none; notes = none }

abbrev marked : Result EntitlementPayload
unfolding chain
marked =
    admin_mark_subscription_paid sample_json requested_db (now + 1) "pay-2" "org-1" "admin"
      no_options

abbrev summary :
    Result EntitlementPayload
    → Option (Option ℕ × Option ℕ × ℕ × Bool × Bool × List (String × ℕ × ℕ × Option ℤ))
summary (returns e db) = some (
  e.expires_at,
  e.effective_max_branches,
  e.branches_used,
  e.can_create_branch,
  e.can_export_data,
  map (λ (b : SubscriptionBill). (b.bill_number, b.period_start, b.period_end, b.amount))
      db.subscription_bills,
)
summary (throws failure db) = none

-- From the day after the old expiry to the end of April: three months, with two branches.
renewed :
    summary marked
    ≡ some (
      some 1777507200501,
      some 2,
      1,
      true,
      true,
      ("SUB-2026-0001", 1769817600501, 1777507200501, some (pos 82588200)) ∷ [],
    )
unfolding chain
renewed = refl

abbrev pay : VerifyPaymentInput
pay = record {
  payment_id = "pay-1";
  outcome = outcome_paid;
  txn_reference = some "  ";
  amount = some (pos 10000);
  notes = none;
}

abbrev before_pay : EntitlementPayload
before_pay = entitlement_now sample_db now (org "org-1") sample_sub

abbrev value_of : Result EntitlementPayload → EntitlementPayload
value_of (returns e db) = e
value_of (throws failure db) = before_pay

abbrev verified : Result EntitlementPayload
unfolding chain
verified = verify_subscription_payment sample_json requested_db (now + 1) "org-1" pay "admin"

verified_returns :
    verify_subscription_payment sample_json requested_db (now + 1) "org-1" pay "admin"
    ≡ returns (value_of verified) (db_of verified)
unfolding chain
verified_returns = refl

verify_subscription_payment-IsRenewed_example :
    RenewedOnce requested_db (now + 1) "org-1" (value_of verified) (db_of verified)
verify_subscription_payment-IsRenewed_example =
    verify_subscription_payment-IsRenewed sample_json requested_db (now + 1) "org-1" pay "admin"
      (value_of verified) (db_of verified) refl verified_returns

verify_subscription_payment-once_example :
    verify_subscription_payment sample_json (db_of verified) (now + 99) "org-1" pay "other"
    ≡ throws unique_violation (db_of verified)
verify_subscription_payment-once_example =
    verify_subscription_payment-once sample_json requested_db (now + 1) (now + 99) "org-1" pay pay
      "admin" "other" (value_of verified) (db_of verified) refl verified_returns refl refl

abbrev sample_calls : List Call
sample_calls =
    call_request now "pay-1" "org-1" "studio" renewal
    ∷ call_mark_paid (now + 1) "pay-2" "org-1" "admin" no_options
    ∷ call_verify (now + 2) "org-1" "admin" pay
    ∷ []

not_same : str_eq "org-1" "org-2" ≡ true → ⊥
not_same e = cc

apart : organization_of (call_verify now "org-1" "admin" pay) ≢ "org-2"
apart h = not_same ((eq_iff "org-1" "org-2").1 h)

run_all-SameFor_example : SameFor "org-2" sample_db (run_all sample_json sample_db sample_calls)
run_all-SameFor_example =
    run_all-SameFor sample_json sample_db sample_calls "org-2" (apart, (apart, (apart, tt)))

mirrored : IsMirrored sample_sub
unfolding chain
mirrored = refl

run_all-AllMirrored_example : AllMirrored (run_all sample_json sample_db sample_calls)
run_all-AllMirrored_example =
    run_all-AllMirrored sample_json sample_db sample_calls (mirrored, (mirrored, tt))

run_all-Extends_example : Extends [] (run_all sample_json sample_db sample_calls).subscription_bills
run_all-Extends_example = run_all-Extends sample_json sample_db sample_calls

run_all-Clock_example :
    Clock "org-1"
      (outcomes sample_json sample_db sample_calls)
      (paid_until sample_db "org-1")
      (paid_until (run_all sample_json sample_db sample_calls) "org-1")
run_all-Clock_example = run_all-Clock sample_json sample_calls sample_db "org-1"

here :
    Found requested_db "org-1"
      (record (org "org-1") { subscription = some (requested 3 sample_sub) })
      (requested 3 sample_sub)
unfolding chain
here = (refl, refl)

verify_subscription_payment-exports_example :
    (3 ≤ (value_of verified).term_months → (value_of verified).can_export_data ≡ true)
    × ((value_of verified).term_months ≡ 1
        → period_start_at (resolve_expires_at (requested 3 sample_sub)) (now + 1) ≡ now + 1
        → days_in_month (month_and_day ((now + 1) / ms_per_day)).0 ≤ 30
        → (value_of verified).can_export_data ≡ false)
verify_subscription_payment-exports_example =
    verify_subscription_payment-exports sample_json requested_db (now + 1) "org-1" pay "admin"
      (record (org "org-1") { subscription = some (requested 3 sample_sub) })
      (requested 3 sample_sub) (value_of verified) (db_of verified) here refl verified_returns

assert_can_create_branch-Verdict_example :
    Verdict sample_db
      (entitlement_now sample_db now (org "org-1") sample_sub)
      "BRANCH_LIMIT_REACHED"
      ((status_ok sample_sub.status ≡ true)
        × IsBelow (count_branches_for_org sample_db "org-1") (branch_limit sample_sub))
      (assert_can_create_branch sample_db now "org-1")
assert_can_create_branch-Verdict_example =
    assert_can_create_branch-Verdict sample_db now "org-1" (org "org-1") sample_sub (refl, refl)

abbrev unlimited : PlanLimits
unlimited = record { max_branches = none; max_staff = none; max_customers = none }

abbrev no_staff_limit : PatchSubscriptionInput
no_staff_limit = record {
  plan_code = some "STARTER";
  plan_name = none;
  status = none;
  limits = some unlimited;
  max_branches_override = none;
  max_users_override = some none;
  contact_us_url = none;
  contact_phone = none;
  upgrade_url = none;
  term_months = none;
  starts_at = none;
  expires_at = none;
  payment_status = none;
  last_payment_txn_id = none;
}

abbrev lifted : Result EntitlementPayload
unfolding chain
lifted = patch_organization_subscription sample_db now "org-1" no_staff_limit "admin"

lifted_returns :
    patch_organization_subscription sample_db now "org-1" no_staff_limit "admin"
    ≡ returns (value_of lifted) (db_of lifted)
unfolding chain
lifted_returns = refl

patch_organization_subscription-IsCapped_example :
    IsCapped "org-1" 3 (value_of lifted) (db_of lifted)
patch_organization_subscription-IsCapped_example =
    patch_organization_subscription-IsCapped sample_db now "org-1" no_staff_limit "admin"
      (value_of lifted) (db_of lifted) unlimited starter "STARTER" 3 lifted_returns refl refl refl
      refl refl refl

abbrev place : ℕ × ℕ
place = month_and_day (1769817600000 / ms_per_day)

add_months-lands_example :
    (month_and_day (add_months 1769817600000 1 / ms_per_day)
      ≡ (place.0 + 1, clamped place.1 (days_in_month (place.0 + 1))))
    × (add_months 1769817600000 1 % ms_per_day ≡ 1769817600000 % ms_per_day)
add_months-lands_example = add_months-lands 1769817600000 1

abbrev priced : SubscriptionPricingBreakdown
priced = or_else sample_quote (record {
  plan_code = "";
  plan_name = "";
  term_months = 0;
  term_label = "";
  extra_branches = 0;
  extra_users = 0;
  base_amount = pos 0;
  extra_branch_cost = pos 0;
  extra_user_cost = pos 0;
  onboarding_fee = pos 0;
  onboarding_applied = false;
  referral_code = none;
  referral_discount = pos 0;
  referral_applied = false;
  referral_validation_message = none;
  gst_percent = pos 0;
  gst_amount = pos 0;
  sub_total_before_tax = pos 0;
  final_amount = pos 0;
  included_branches = none;
  included_users = none;
  final_allowed_branches = none;
  final_allowed_users = none;
  currency = "";
  is_first_subscription = false;
})

no_marker : after_first marker "Renewal, please" ≡ none
unfolding chain
no_marker = refl

trimmed : trim (sample_json.stringify priced) ≡ sample_json.stringify priced
unfolding chain
trimmed = refl

not_empty : sample_json.stringify priced ≢ ""
not_empty h = cc

read_back : sample_json.parse (sample_json.stringify priced) ≡ some priced
unfolding chain
read_back = refl

parse_pricing_from_notes-pricing_notes_example :
    parse_pricing_from_notes sample_json (some (pricing_notes sample_json "Renewal, please" priced))
    ≡ some priced
parse_pricing_from_notes-pricing_notes_example =
    parse_pricing_from_notes-pricing_notes sample_json "Renewal, please" priced no_marker trimmed
      not_empty read_back

quoted_as : quote_for sample_db "org-1" sample_sub (renewal_payload renewal) ≡ some priced
unfolding chain
quoted_as = refl

notes_read :
    parse_pricing_from_notes sample_json
      (renewal_payment sample_json now "pay-1" "org-1" sample_sub priced renewal "studio").notes
    ≡ some priced
unfolding chain
notes_read = refl

abbrev other_options : MarkPaidOptions
other_options = record {
  txn_reference = none;
  amount = some (pos 990000);
  term_months = some 12;
  notes = none;
}

abbrev marked_otherwise : Result EntitlementPayload
unfolding chain
marked_otherwise =
    admin_mark_subscription_paid sample_json requested_db (now + 1) "pay-2" "org-1" "admin"
      other_options

marked_returns :
    admin_mark_subscription_paid sample_json
      (state_after
        (request_subscription_renewal sample_json sample_db now "pay-1" "org-1" "studio" renewal))
      (now + 1)
      "pay-2"
      "org-1"
      "admin"
      other_options
    ≡ returns (value_of marked_otherwise) (db_of marked_otherwise)
unfolding chain
marked_returns = refl

admin_mark_subscription_paid-IsBilledAs_example :
    (bill : SubscriptionBill) × ((db_of marked_otherwise).subscription_bills ≡ [] ++ (bill ∷ []))
    × IsBilledAs priced "pay-1" bill (value_of marked_otherwise)
admin_mark_subscription_paid-IsBilledAs_example =
    admin_mark_subscription_paid-IsBilledAs sample_json sample_db now (now + 1) "pay-1" "pay-2"
      "org-1" "studio" "admin" renewal other_options (org "org-1") sample_sub priced
      (value_of marked_otherwise) (db_of marked_otherwise) (refl, refl) quoted_as tt tt notes_read
      marked_returns

newest_bills-IsNewestFirst_example :
    IsNewestFirst (newest_bills (db_of marked) "org-1")
    × AreNewestOf
        (filter (bill_of_org "org-1") (db_of marked).subscription_bills)
        (newest_bills (db_of marked) "org-1")
    × (length (newest_bills (db_of marked) "org-1") ≡ (
        if leb (length (filter (bill_of_org "org-1") (db_of marked).subscription_bills)) 50
        then length (filter (bill_of_org "org-1") (db_of marked).subscription_bills)
        else 50))
newest_bills-IsNewestFirst_example = newest_bills-IsNewestFirst (db_of marked) "org-1"

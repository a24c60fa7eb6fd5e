-- ===== src/Subscription/Settlement.antt =====
-- What verifySubscriptionPayment computes before it writes: the period, the numbers and the bill.
use prime_detailer_backend.Base.{
  ℕ, ◌+◌, ◌/◌, String, Bool, ◌&&◌, Option, none, some, filter, length, or_else, is_some, ltb,
  if◌then◌else◌,
}
use prime_detailer_backend.Base.Int.{ℤ, pos}
use prime_detailer_backend.Base.Text.{str_eq, trim, decimal, strip_prefix}
use prime_detailer_backend.Base.Assoc.{or_first}
use prime_detailer_backend.Limits.SubscriptionLock.{
  ms_per_day, normalize_term_months, term_label_from_months,
}
use prime_detailer_backend.Pricing.Calculation.{SubscriptionPricingBreakdown}
use prime_detailer_backend.Subscription.Calendar.{add_months, month_and_day}
use prime_detailer_backend.Subscription.Records.{
  Database, OrganizationSubscription, SubscriptionBill, SubscriptionPayment,
}
use prime_detailer_backend.Subscription.Entitlement.{resolve_expires_at}
use prime_detailer_backend.Subscription.Renewal.{bill_of_org}
use mathlib.Core.Option
use Prim.Native.String.{◌++◌ as join}

pub data PaymentOutcome : Type 0 where
  outcome_paid : PaymentOutcome
  outcome_failed : PaymentOutcome

pub record VerifyPaymentInput : Type 0 where
  pub payment_id : String
  pub outcome : PaymentOutcome
  pub txn_reference : Option String
  pub amount : Option ℤ
  pub notes : Option String

-- `getUTCFullYear()`
abbrev utc_year : ℕ → ℕ
utc_year now = 1970 + (month_and_day (now / ms_per_day)).0 / 12

-- `String(n).padStart(4, "0")`
abbrev pad_start_4 : ℕ → String
pad_start_4 n =
    let zeros =
      (if ltb n 10 then "000" else if ltb n 100 then "00" else if ltb n 1000 then "0" else "") in
    join zeros (decimal n)

abbrev bill_prefix : ℕ → String
bill_prefix now = join "SUB-" (join (decimal (utc_year now)) "-")

abbrev numbered_in : String → String → SubscriptionBill → Bool
numbered_in organization_id prefix b =
    bill_of_org organization_id b && is_some (strip_prefix prefix b.bill_number)

unfoldable pub next_bill_number : Database → ℕ → String → String
unfolding decimal month_and_day strip_prefix
next_bill_number db now organization_id =
    let prefix = bill_prefix now in
    let count = length (filter (numbered_in organization_id prefix) db.subscription_bills) in
    join prefix (pad_start_4 (count + 1))

-- `a || b`, where an empty text counts as missing.
abbrev or_text : Option String → Option String → Option String
or_text none b = b
or_text (some a) b = if str_eq a "" then b else some a

-- `pricing?.finalAllowed === null ? null : (pricing?.finalAllowed ?? override)`
abbrev pub next_override :
    Option SubscriptionPricingBreakdown
    → (SubscriptionPricingBreakdown → Option ℕ)
    → Option ℕ
    → Option ℕ
next_override none allowed override = override
next_override (some pricing) allowed override = allowed pricing

-- What the handler computes before its transaction.
pub record Settlement : Type 0 where
  pub term_months : ℕ
  pub period_start : ℕ
  pub period_end : ℕ
  pub txn_ref : String
  pub bill_number : String
  pub branch_override : Option ℕ
  pub users_override : Option ℕ
  pub final_amount : ℤ

abbrev priced_term : Option SubscriptionPricingBreakdown → Option ℕ
priced_term pricing = Option.map (λ (p : SubscriptionPricingBreakdown). p.term_months) pricing

-- The period begins where the last one ends, or now if that is past.
abbrev pub period_start_at : Option ℕ → ℕ → ℕ
period_start_at none now = now
period_start_at (some current_end) now = if ltb now current_end then current_end else now

unfoldable pub settlement :
    Database
    → ℕ
    → String
    → OrganizationSubscription
    → SubscriptionPayment
    → Option SubscriptionPricingBreakdown
    → VerifyPaymentInput
    → Settlement
unfolding next_bill_number normalize_term_months resolve_expires_at add_months trim decimal
settlement db now org_id sub payment pricing input =
    let term_months =
      normalize_term_months (some (or_else (priced_term pricing) sub.term_months)) in
    let period_start = period_start_at (resolve_expires_at sub) now in
    record {
      term_months = term_months;
      period_start = period_start;
      period_end = add_months period_start term_months;
      txn_ref =
          or_else
            (or_text (Option.map trim input.txn_reference) (or_text payment.txn_reference none))
            (join "MANUAL-" (decimal now));
      bill_number = next_bill_number db now org_id;
      branch_override =
          next_override pricing (λ p. p.final_allowed_branches) sub.max_branches_override;
      users_override = next_override pricing (λ p. p.final_allowed_users) sub.max_users_override;
      final_amount =
          or_else
            (or_first (Option.map (λ (p : SubscriptionPricingBreakdown). p.final_amount) pricing)
              (or_first input.amount payment.amount))
            (pos 0);
    }

abbrev from_pricing {ℓ} :
    {A : Type ℓ}
    → Option SubscriptionPricingBreakdown
    → (SubscriptionPricingBreakdown → A)
    → A
    → Option A
from_pricing pricing field_of default = some (or_else (Option.map field_of pricing) default)

unfoldable pub settled_bill :
    Settlement
    → ℕ
    → String
    → OrganizationSubscription
    → SubscriptionPayment
    → Option SubscriptionPricingBreakdown
    → SubscriptionBill
unfolding term_label_from_months
settled_bill s now org_id sub payment pricing = record {
  organization_id = org_id;
  subscription_id = sub.id;
  payment_id = some payment.id;
  bill_number = s.bill_number;
  plan_name = sub.plan_name;
  term_months = s.term_months;
  term_label = term_label_from_months s.term_months;
  period_start = s.period_start;
  period_end = s.period_end;
  base_amount = from_pricing pricing (λ p. p.base_amount) s.final_amount;
  extra_branch_cost = from_pricing pricing (λ p. p.extra_branch_cost) (pos 0);
  extra_user_cost = from_pricing pricing (λ p. p.extra_user_cost) (pos 0);
  extra_branches = from_pricing pricing (λ p. p.extra_branches) 0;
  extra_users = from_pricing pricing (λ p. p.extra_users) 0;
  onboarding_fee = from_pricing pricing (λ p. p.onboarding_fee) (pos 0);
  referral_discount = from_pricing pricing (λ p. p.referral_discount) (pos 0);
  gst_percent = from_pricing pricing (λ p. p.gst_percent) (pos 0);
  gst_amount = from_pricing pricing (λ p. p.gst_amount) (pos 0);
  total_amount = some s.final_amount;
  amount = some s.final_amount;
  currency = payment.currency;
  created_at = now;
}

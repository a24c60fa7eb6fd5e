-- ===== src/Subscription/Renewal.antt =====
-- The quote for a renewal and its request: getSubscriptionPricingQuote, requestSubscriptionRenewal.
use prime_detailer_backend.Base.{
  ℕ, String, Bool, true, false, ◌&&◌, Option, none, some, [], ◌∷◌, ◌++◌, length, filter, or_else,
  ◌==◌,
}
use prime_detailer_backend.Base.Int.{ℤ, pos}
use prime_detailer_backend.Base.Text.{str_eq}
use prime_detailer_backend.Limits.SubscriptionLock.{normalize_term_months}
use prime_detailer_backend.Pricing.Plan.{floor_zero}
use prime_detailer_backend.Pricing.Calculation.{
  SubscriptionPricingBreakdown, SubscriptionPricingInput, calculate_subscription_pricing,
}
use prime_detailer_backend.Subscription.Records.{
  Organization, Database, Failure, OrganizationSubscription, Result, SubscriptionBill,
  SubscriptionPayment, SubscriptionPaymentStatus, app_http_error, paid, payment_state, pending,
  plain_error, renewal_request, returns, throws,
}
use prime_detailer_backend.Subscription.Entitlement.{
  EntitlementPayload, entitlement_now, normalized_limits_for_subscription, number,
}
use prime_detailer_backend.Subscription.Patch.{log_audit, update_subscription, with_subscription}
use prime_detailer_backend.Subscription.Notes.{BreakdownJson, pricing_notes}

abbrev pub is_paid : SubscriptionPaymentStatus → Bool
is_paid paid = true
is_paid status = false

abbrev pub bill_of_org : String → SubscriptionBill → Bool
bill_of_org organization_id b = str_eq b.organization_id organization_id

abbrev paid_for_org : String → SubscriptionPayment → Bool
paid_for_org organization_id p = str_eq p.organization_id organization_id && is_paid p.status

unfoldable pub is_first_subscription_for_org : Database → String → Bool
is_first_subscription_for_org db organization_id =
    length (filter (bill_of_org organization_id) db.subscription_bills) == 0
    && length (filter (paid_for_org organization_id) db.subscription_payments) == 0

abbrev pub subscription_missing : Failure
subscription_missing = app_http_error 404 "SUBSCRIPTION_MISSING"

-- The quote for a subscription that was found; `none` where the calculation throws.
unfoldable pub quote_for :
    Database
    → String
    → OrganizationSubscription
    → SubscriptionPricingInput
    → Option SubscriptionPricingBreakdown
unfolding is_first_subscription_for_org normalized_limits_for_subscription
quote_for db organization_id sub payload =
    calculate_subscription_pricing sub.plan_code sub.plan_name
      (normalized_limits_for_subscription sub) (is_first_subscription_for_org db organization_id)
      payload db.subscription_pricing

abbrev pub unsupported_term : Failure
unsupported_term = plain_error "Unsupported term. Allowed: 1, 3, 12, 24, 36, 60 months."

abbrev quoted : Database → Option SubscriptionPricingBreakdown → Result SubscriptionPricingBreakdown
quoted db none = throws unsupported_term db
quoted db (some breakdown) = returns breakdown db

unfoldable pub get_subscription_pricing_quote :
    Database → String → SubscriptionPricingInput → Result SubscriptionPricingBreakdown
unfolding quote_for
get_subscription_pricing_quote db organization_id payload =
    with_subscription db organization_id subscription_missing
      (λ org sub. quoted db (quote_for db organization_id sub payload))

pub record SubscriptionPaymentRow : Type 0 where
  pub id : String
  pub amount : Option ℤ
  pub currency : String
  pub status : SubscriptionPaymentStatus
  pub txn_reference : Option String
  pub method : Option String
  pub notes : Option String
  pub recorded_by : Option String
  pub verified_at : Option ℕ
  pub created_at : ℕ

unfoldable pub map_payment : SubscriptionPayment → SubscriptionPaymentRow
map_payment p = record {
  id = p.id;
  amount = p.amount;
  currency = p.currency;
  status = p.status;
  txn_reference = p.txn_reference;
  method = p.method;
  notes = p.notes;
  recorded_by = p.recorded_by;
  verified_at = p.verified_at;
  created_at = p.created_at;
}

-- The options of a renewal; numbers as amounts are read.
pub record RenewalOptions : Type 0 where
  pub notes : Option String
  pub method : Option String
  pub term_months : Option ℕ
  pub extra_branches : Option ℤ
  pub extra_users : Option ℤ
  pub referral_code : Option String

unfoldable pub renewal_payload : RenewalOptions → SubscriptionPricingInput
unfolding normalize_term_months
renewal_payload opts = record {
  term_months = normalize_term_months opts.term_months;
  extra_branches = some (number (floor_zero (or_else opts.extra_branches (pos 0))));
  extra_users = some (number (floor_zero (or_else opts.extra_users (pos 0))));
  referral_code = opts.referral_code;
}

-- The payment that a request creates, with the id and the time that the database gives it.
unfoldable pub renewal_payment :
    BreakdownJson
    → ℕ
    → String
    → String
    → OrganizationSubscription
    → SubscriptionPricingBreakdown
    → RenewalOptions
    → String
    → SubscriptionPayment
unfolding pricing_notes
renewal_payment json now new_id organization_id sub breakdown opts actor = record {
  id = new_id;
  organization_id = organization_id;
  subscription_id = sub.id;
  amount = some breakdown.final_amount;
  currency = breakdown.currency;
  status = pending;
  txn_reference = none;
  method = some (or_else opts.method "MANUAL");
  notes = some (pricing_notes json (or_else opts.notes "Renewal requested from studio") breakdown);
  recorded_by = some actor;
  verified_at = none;
  created_at = now;
}

-- `prisma.subscriptionPayment.create({ data })`
abbrev pub add_payment : SubscriptionPayment → Database → Database
add_payment payment db = record db {
  subscription_payments = db.subscription_payments ++ (payment ∷ []);
}

abbrev pub requested : ℕ → OrganizationSubscription → OrganizationSubscription
requested term_months sub = record sub { payment_status = pending; term_months = term_months }

-- The writes of a request, one after the other.
unfoldable pub after_request :
    String
    → String
    → OrganizationSubscription
    → SubscriptionPricingBreakdown
    → SubscriptionPayment
    → Database
    → Database
after_request organization_id actor sub breakdown payment db =
    log_audit organization_id actor "subscription.renew_request" (payment_state sub.payment_status)
      (renewal_request pending payment.id breakdown.term_months breakdown.final_amount)
      (update_subscription organization_id (requested breakdown.term_months)
        (add_payment payment db))

unfoldable pub request_quoted :
    BreakdownJson
    → Database
    → ℕ
    → String
    → String
    → String
    → RenewalOptions
    → Organization
    → OrganizationSubscription
    → Option SubscriptionPricingBreakdown
    → Result (EntitlementPayload × SubscriptionPaymentRow)
unfolding renewal_payment after_request map_payment
request_quoted json db now new_id organization_id actor opts org sub none =
    throws unsupported_term db
request_quoted json db now new_id organization_id actor opts org sub (some breakdown) =
    let payment = renewal_payment json now new_id organization_id sub breakdown opts actor in
    let after = after_request organization_id actor sub breakdown payment db in
    let updated = requested breakdown.term_months sub in
    returns (entitlement_now after now org updated, map_payment payment) after

unfoldable pub request_subscription_renewal :
    BreakdownJson
    → Database
    → ℕ
    → String
    → String
    → String
    → RenewalOptions
    → Result (EntitlementPayload × SubscriptionPaymentRow)
unfolding quote_for renewal_payload request_quoted
request_subscription_renewal json db now new_id organization_id actor opts =
    with_subscription db organization_id subscription_missing (λ org sub.
      request_quoted json db now new_id organization_id actor opts org sub
        (quote_for db organization_id sub (renewal_payload opts)))

-- ===== src/Subscription/Verify.antt =====
-- verifySubscriptionPayment: a renewal payment is found to be paid or to have failed. The unique
-- indexes are those of SubscriptionBill in prisma/schema.prisma.
use prime_detailer_backend.Base.{
  ℕ, String, Bool, true, false, ◌&&◌, ◌||◌, Option, none, some, List, [], ◌∷◌, ◌++◌, any, find,
  or_else, update_where, if◌then◌else◌,
}
use prime_detailer_backend.Base.Text.{str_eq}
use prime_detailer_backend.Base.Assoc.{or_first}
use prime_detailer_backend.Access.Gate.{active}
use prime_detailer_backend.Subscription.Records.{
  Database, Organization, OrganizationSubscription, Result, SubscriptionBill, SubscriptionPayment,
  SubscriptionPaymentStatus, access_after, access_before, app_http_error, paid, payment_failed,
  payment_of, returns, throws, unique_violation,
}
use prime_detailer_backend.Subscription.Entitlement.{
  EntitlementPayload, entitlement_now, normalized_limits_for_subscription, resolve_expires_at,
}
use prime_detailer_backend.Subscription.Patch.{
  log_audit, org_not_found, update_organization, update_subscription, with_subscription,
}
use prime_detailer_backend.Subscription.Notes.{BreakdownJson, parse_pricing_from_notes}
use mathlib.Core.Option
use prime_detailer_backend.Subscription.Settlement.{
  PaymentOutcome, outcome_paid, outcome_failed, VerifyPaymentInput, Settlement, settlement,
  settled_bill,
}

-- `prisma.subscriptionPayment.update({ where: { id }, data })`
abbrev pub update_payment :
    String → (SubscriptionPayment → SubscriptionPayment) → Database → Database
update_payment id f db = record db {
  subscription_payments =
      update_where (λ (p : SubscriptionPayment). str_eq p.id id) f db.subscription_payments;
}

-- The payment as it is after it was verified, from how it was found.
abbrev pub verified_payment :
    SubscriptionPayment
    → VerifyPaymentInput
    → SubscriptionPaymentStatus
    → Option String
    → ℕ
    → String
    → SubscriptionPayment
verified_payment payment input status txn_reference now actor = record payment {
  status = status;
  txn_reference = txn_reference;
  notes = or_first input.notes payment.notes;
  amount = or_first input.amount payment.amount;
  verified_at = some now;
  recorded_by = some actor;
}

abbrev pub settled_subscription : Settlement → OrganizationSubscription → OrganizationSubscription
settled_subscription s sub = record sub {
  payment_status = paid;
  last_payment_txn_id = some s.txn_ref;
  status = active;
  limits = normalized_limits_for_subscription sub;
  max_branches_override = s.branch_override;
  max_users_override = s.users_override;
  starts_at = or_first sub.starts_at (some s.period_start);
  expires_at = some s.period_end;
  current_period_end = some s.period_end;
  term_months = s.term_months;
}

abbrev pub has_payment : String → SubscriptionBill → Bool
has_payment payment_id b = or_else (Option.map (str_eq payment_id) b.payment_id) false

-- `@unique` of the payment and `@@unique([organizationId, billNumber])`.
abbrev pub violates_unique : SubscriptionBill → List SubscriptionBill → Bool
violates_unique bill bills =
    any
      (λ b.
        or_else (Option.map (λ id. has_payment id b) bill.payment_id) false
        || (str_eq b.organization_id bill.organization_id && str_eq b.bill_number bill.bill_number))
      bills

abbrev add_bill : SubscriptionBill → Database → Database
add_bill bill db = record db { subscription_bills = db.subscription_bills ++ (bill ∷ []) }

abbrev activated : Organization → Organization
activated o = record o { is_active = true }

-- The transaction of a payment that failed.
unfoldable pub fail_payment :
    Database → ℕ → String → SubscriptionPayment → VerifyPaymentInput → String → Database
fail_payment db now org_id payment input actor =
    let txn_reference = or_first input.txn_reference payment.txn_reference in
    log_audit org_id actor "subscription.payment_failed" (payment_of payment.id payment.status)
      (payment_of payment.id payment_failed)
      (update_subscription org_id
        (λ (s : OrganizationSubscription). record s { payment_status = payment_failed })
        (update_payment payment.id
          (λ p. verified_payment p input payment_failed txn_reference now actor) db))

-- The transaction of a payment that was paid, without its rollback.
unfoldable pub settle :
    Database
    → ℕ
    → String
    → Organization
    → OrganizationSubscription
    → SubscriptionPayment
    → Settlement
    → SubscriptionBill
    → VerifyPaymentInput
    → String
    → Database
unfolding resolve_expires_at
settle db now org_id org sub payment s bill input actor =
    log_audit org_id actor "subscription.payment_verified"
      (access_before (resolve_expires_at sub) sub.payment_status org.is_active)
      (access_after s.period_end paid s.bill_number s.txn_ref s.term_months s.final_amount true)
      (add_bill bill (
        update_organization org_id activated (
          update_subscription org_id (settled_subscription s) (
            update_payment payment.id
              (λ p. verified_payment p input paid (some s.txn_ref) now actor) db))))

-- `findUniqueOrThrow` and the entitlement of what is found.
abbrev pub entitlement_of : Database → ℕ → String → Result EntitlementPayload
entitlement_of db now org_id =
    with_subscription db org_id org_not_found
      (λ org sub. returns (entitlement_now db now org sub) db)

-- A bill that breaks a unique index makes the transaction roll back.
unfoldable pub mark_paid :
    BreakdownJson
    → Database
    → ℕ
    → String
    → Organization
    → OrganizationSubscription
    → SubscriptionPayment
    → VerifyPaymentInput
    → String
    → Result EntitlementPayload
unfolding settlement settled_bill settle parse_pricing_from_notes
mark_paid json db now org_id org sub payment input actor =
    let pricing = parse_pricing_from_notes json payment.notes in
    let s = settlement db now org_id sub payment pricing input in
    let bill = settled_bill s now org_id sub payment pricing in
    if violates_unique bill db.subscription_bills
    then throws unique_violation db
    else entitlement_of (settle db now org_id org sub payment s bill input actor) now org_id

-- `prisma.subscriptionPayment.findFirst({ where: { id, organizationId } })`
abbrev pub find_payment : Database → String → String → Option SubscriptionPayment
find_payment db payment_id org_id =
    find (λ (p : SubscriptionPayment). str_eq p.id payment_id && str_eq p.organization_id org_id)
      db.subscription_payments

unfoldable pub verify_found :
    BreakdownJson
    → Database
    → ℕ
    → String
    → VerifyPaymentInput
    → String
    → Organization
    → OrganizationSubscription
    → PaymentOutcome
    → Option SubscriptionPayment
    → Result EntitlementPayload
unfolding fail_payment mark_paid
verify_found json db now org_id input actor org sub outcome none =
    throws (app_http_error 404 "PAYMENT_NOT_FOUND") db
verify_found json db now org_id input actor org sub outcome_failed (some payment) =
    entitlement_of (fail_payment db now org_id payment input actor) now org_id
verify_found json db now org_id input actor org sub outcome_paid (some payment) =
    mark_paid json db now org_id org sub payment input actor

unfoldable pub verify_subscription_payment :
    BreakdownJson → Database → ℕ → String → VerifyPaymentInput → String → Result EntitlementPayload
unfolding verify_found
verify_subscription_payment json db now org_id input actor =
    with_subscription db org_id org_not_found (λ org sub.
      verify_found json db now org_id input actor org sub input.outcome
        (find_payment db input.payment_id org_id))

-- ===== src/Subscription/MarkPaid.antt =====
-- adminMarkSubscriptionPaid: the open renewal payment, or a new one, is verified as paid.
use prime_detailer_backend.Base.{
  ℕ, String, Bool, true, false, ◌&&◌, Option, none, some, List, [], ◌∷◌, filter, or_else, leb,
  if◌then◌else◌, ◌==◌,
}
use prime_detailer_backend.Base.Int.{ℤ}
use prime_detailer_backend.Base.Text.{str_eq}
use prime_detailer_backend.Base.Assoc.{or_first}
use prime_detailer_backend.Limits.SubscriptionLock.{normalize_term_months}
use prime_detailer_backend.Subscription.Records.{
  Database, OrganizationSubscription, Result, SubscriptionPayment, SubscriptionPaymentStatus,
  pending, processing,
}
use prime_detailer_backend.Subscription.Entitlement.{EntitlementPayload}
use prime_detailer_backend.Subscription.Patch.{
  org_not_found, update_subscription, with_subscription,
}
use prime_detailer_backend.Subscription.Notes.{BreakdownJson}
use prime_detailer_backend.Subscription.Renewal.{add_payment}
use prime_detailer_backend.Subscription.Settlement.{VerifyPaymentInput, outcome_paid}
use prime_detailer_backend.Subscription.Verify.{verify_subscription_payment}

abbrev pub is_pending : SubscriptionPaymentStatus → Bool
is_pending pending = true
is_pending status = false

abbrev is_processing : SubscriptionPaymentStatus → Bool
is_processing processing = true
is_processing status = false

-- The payment that was created last; of those at the same time, the one that was inserted last.
abbrev later_of : SubscriptionPayment → Option SubscriptionPayment → Option SubscriptionPayment
later_of p none = some p
later_of p (some q) = if leb p.created_at q.created_at then some q else some p

abbrev pub newest : List SubscriptionPayment → Option SubscriptionPayment
newest [] = none
newest (p ∷ ps) = later_of p (newest ps)

-- `findFirst({ where: { organizationId, status }, orderBy: { createdAt: "desc" } })`
abbrev pub newest_with :
    (SubscriptionPaymentStatus → Bool) → String → Database → Option SubscriptionPayment
newest_with has_status org_id db = newest (
    filter (λ (p : SubscriptionPayment). str_eq p.organization_id org_id && has_status p.status)
      db.subscription_payments)

unfoldable pub open_payment : Database → String → Option SubscriptionPayment
open_payment db org_id =
    or_first (newest_with is_pending org_id db) (newest_with is_processing org_id db)

pub record MarkPaidOptions : Type 0 where
  pub txn_reference : Option String
  pub amount : Option ℤ
  pub term_months : Option ℕ
  pub notes : Option String

abbrev pub admin_payment :
    ℕ → String → String → OrganizationSubscription → MarkPaidOptions → String → SubscriptionPayment
admin_payment now new_id org_id sub opts actor = record {
  id = new_id;
  organization_id = org_id;
  subscription_id = sub.id;
  amount = opts.amount;
  currency = "INR";
  status = processing;
  txn_reference = none;
  method = some "ADMIN";
  notes = some (or_else opts.notes "Marked paid by platform admin");
  recorded_by = some actor;
  verified_at = none;
  created_at = now;
}

-- The id of the payment to verify, and the database with it.
abbrev pub choose_payment :
    Database
    → ℕ
    → String
    → String
    → OrganizationSubscription
    → MarkPaidOptions
    → String
    → Option SubscriptionPayment
    → String × Database
choose_payment db now new_id org_id sub opts actor (some payment) = (payment.id, db)
choose_payment db now new_id org_id sub opts actor none =
    (new_id, add_payment (admin_payment now new_id org_id sub opts actor) db)

-- `if (opts?.termMonths)`: zero counts as missing.
unfoldable pub set_term : Option ℕ → String → Database → Database
unfolding normalize_term_months
set_term none org_id db = db
set_term (some term_months) org_id db =
    if term_months == 0
    then db
    else update_subscription org_id
        (λ (s : OrganizationSubscription). record s {
          term_months = normalize_term_months (some term_months);
        })
        db

abbrev pub mark_paid_input : MarkPaidOptions → String → VerifyPaymentInput
mark_paid_input opts payment_id = record {
  payment_id = payment_id;
  outcome = outcome_paid;
  txn_reference = opts.txn_reference;
  amount = opts.amount;
  notes = opts.notes;
}

unfoldable pub mark_chosen :
    BreakdownJson
    → ℕ
    → String
    → String
    → MarkPaidOptions
    → String × Database
    → Result EntitlementPayload
unfolding set_term verify_subscription_payment
mark_chosen json now org_id actor opts (payment_id, chosen) =
    verify_subscription_payment json (set_term opts.term_months org_id chosen) now org_id
      (mark_paid_input opts payment_id) actor

unfoldable pub admin_mark_subscription_paid :
    BreakdownJson
    → Database
    → ℕ
    → String
    → String
    → String
    → MarkPaidOptions
    → Result EntitlementPayload
unfolding open_payment mark_chosen
admin_mark_subscription_paid json db now new_id org_id actor opts =
    with_subscription db org_id org_not_found (λ org sub.
      mark_chosen json now org_id actor opts
        (choose_payment db now new_id org_id sub opts actor (open_payment db org_id)))

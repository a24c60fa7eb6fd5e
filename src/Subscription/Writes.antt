-- ===== src/Subscription/Writes.antt =====
-- The writes that a call makes are all about its organisation, and leave the two columns for the end
-- of the paid period in agreement.
use prime_detailer_backend.Base.{
  ℕ, ◌≡◌, refl, sym, String, true, Option, none, some, List, [], ◌∷◌, ◌++◌, Bool-cases, inl, inr,
  ◌==◌,
}
use prime_detailer_backend.Subscription.Records.{
  Database, DynamicPlanDefinition, Failure, Organization, OrganizationSubscription,
  PlatformAuditLog, Result, SubscriptionBill, SubscriptionPayment, returns,
}
use prime_detailer_backend.Subscription.Entitlement.{
  entitlement_now, find_organization, resolve_expires_at, subscribed,
}
use prime_detailer_backend.Subscription.Patch.{
  template_for, org_not_found, PatchSubscriptionInput, found_or, patch_by,
  patch_organization_subscription, patched, update_organization, update_subscription,
  with_subscription,
}
use prime_detailer_backend.Subscription.Notes.{BreakdownJson}
use prime_detailer_backend.Base.{or_else}
use prime_detailer_backend.Base.Assoc.{or_first}
use prime_detailer_backend.Pricing.Calculation.{SubscriptionPricingBreakdown}
use prime_detailer_backend.Subscription.Settlement.{
  PaymentOutcome, Settlement, VerifyPaymentInput, outcome_failed, outcome_paid, settled_bill,
}
use prime_detailer_backend.Subscription.Verify.{
  entitlement_of, fail_payment, find_payment, mark_paid, settle, verify_found,
  verify_subscription_payment, violates_unique,
}
use prime_detailer_backend.Subscription.Renewal.{
  requested, RenewalOptions, after_request, quote_for, renewal_payload, request_quoted,
  request_subscription_renewal, subscription_missing,
}
use prime_detailer_backend.Subscription.MarkPaid.{
  mark_paid_input, MarkPaidOptions, admin_mark_subscription_paid, choose_payment, mark_chosen,
  open_payment, set_term,
}
use prime_detailer_backend.Subscription.Extension.{the_bill, the_settlement}
use prime_detailer_backend.Limits.SubscriptionLock.{normalize_term_months}
use prime_detailer_backend.Subscription.Calls.{
  Call, call_mark_paid, call_patch, call_request, call_verify, organization_of, run, state_after,
}

-- `currentPeriodEnd` is what `resolveExpiresAt` returns.
abbrev pub IsMirrored : OrganizationSubscription → Type 0
IsMirrored sub = sub.current_period_end ≡ resolve_expires_at sub

-- One primitive write after another.
pub data Writes (org_id : String) : Database → Database → Type 0 where
  stay : {db : Database} → Writes org_id db db
  write_subscription :
      {db db' : Database} (f : OrganizationSubscription → OrganizationSubscription)
      → ((s : OrganizationSubscription) → IsMirrored s → IsMirrored (f s))
      → Writes org_id (update_subscription org_id f db) db'
      → Writes org_id db db'
  write_active :
      {db db' : Database}
      → Writes org_id
          (update_organization org_id (λ (o : Organization). record o { is_active = true }) db)
          db'
      → Writes org_id db db'
  write_payments :
      {db db' : Database} (payments : List SubscriptionPayment)
      → Writes org_id (record db { subscription_payments = payments }) db'
      → Writes org_id db db'
  write_audit :
      {db db' : Database} (entries : List PlatformAuditLog)
      → Writes org_id (record db { platform_audit_logs = entries }) db'
      → Writes org_id db db'
  write_bill :
      {db db' : Database} (bill : SubscriptionBill)
      → bill.organization_id ≡ org_id
      → Writes org_id (record db { subscription_bills = db.subscription_bills ++ (bill ∷ []) }) db'
      → Writes org_id db db'

-- A call that finds no organisation writes nothing.
with_subscription-Writes :
    {A : Type 0} (db : Database) (id : String) (missing : Failure)
    (body : Organization → OrganizationSubscription → Result A)
    → ((org : Organization) (sub : OrganizationSubscription)
        → Writes id db (state_after (body org sub)))
    → Writes id db (state_after (with_subscription db id missing body))
with_subscription-Writes db id missing body h = by_found (subscribed (find_organization db id))
  where
    by_found :
        (found : Option (Organization × OrganizationSubscription))
        → Writes id db (state_after (found_or db missing body found))
    by_found none = stay
    by_found (some (org, sub)) = h org sub

pub or_first_same : {A : Type 0} (x : Option A) → or_first x x ≡ x
or_first_same none = refl
or_first_same (some a) = refl

patched-IsMirrored :
    (input : PatchSubscriptionInput) (template : Option DynamicPlanDefinition)
    (sub : OrganizationSubscription)
    → IsMirrored (patched input template sub)
unfolding patched resolve_expires_at
patched-IsMirrored input template sub =
    sym (or_first_same (or_else input.expires_at (resolve_expires_at sub)))

patch-Writes :
    (db : Database) (now : ℕ) (id : String) (input : PatchSubscriptionInput) (actor : String)
    → Writes id db (state_after (patch_organization_subscription db now id input actor))
unfolding patch_organization_subscription patch_by
patch-Writes db now id input actor =
    with_subscription-Writes db id org_not_found _
      λ org sub. by_template org sub (template_for db input.plan_code input.limits)
  where
    by_template :
        (org : Organization) (sub : OrganizationSubscription)
        (template : Option (Option DynamicPlanDefinition))
        → Writes id db (state_after (patch_by db now id org sub input actor template))
    by_template org sub none = stay
    by_template org sub (some template) =
        write_subscription _ (λ s h. patched-IsMirrored input template sub) (write_audit _ stay)

fail-Writes :
    (db : Database) (now : ℕ) (id : String) (payment : SubscriptionPayment)
    (input : VerifyPaymentInput) (actor : String)
    → Writes id db (fail_payment db now id payment input actor)
unfolding fail_payment resolve_expires_at
fail-Writes db now id payment input actor =
    write_payments _ (write_subscription _ (λ s h. h) (write_audit _ stay))

settle-Writes :
    (db : Database) (now : ℕ) (id : String) (org : Organization) (sub : OrganizationSubscription)
    (payment : SubscriptionPayment) (s : Settlement) (bill : SubscriptionBill)
    (input : VerifyPaymentInput) (actor : String)
    → bill.organization_id ≡ id
    → Writes id db (settle db now id org sub payment s bill input actor)
unfolding settle resolve_expires_at
settle-Writes db now id org sub payment s bill input actor own =
    write_payments _
      (write_subscription _ (λ s h. refl) (write_active (write_bill bill own (write_audit _ stay))))

request-Writes :
    (json : BreakdownJson) (db : Database) (now : ℕ) (new_id id actor : String)
    (opts : RenewalOptions)
    → Writes id db (state_after (request_subscription_renewal json db now new_id id actor opts))
unfolding request_subscription_renewal request_quoted after_request resolve_expires_at
request-Writes json db now new_id id actor opts =
    with_subscription-Writes db id subscription_missing _
      λ org sub. by_quote org sub (quote_for db id sub (renewal_payload opts))
  where
    by_quote :
        (org : Organization) (sub : OrganizationSubscription)
        (quote : Option SubscriptionPricingBreakdown)
        → Writes id db (state_after (request_quoted json db now new_id id actor opts org sub quote))
    by_quote org sub none = stay
    by_quote org sub (some breakdown) =
        write_payments _
          (write_subscription (requested breakdown.term_months) (λ s h. h) (write_audit _ stay))

-- What a call reports of the end state does not change it.
pub entitlement_of-state :
    (db : Database) (now : ℕ) (id : String) → state_after (entitlement_of db now id) ≡ db
entitlement_of-state db now id = by_found (subscribed (find_organization db id))
  where
    by_found :
        (found : Option (Organization × OrganizationSubscription))
        → state_after
            (found_or db org_not_found (λ o s. returns (entitlement_now db now o s) db) found)
          ≡ db
    by_found none = refl
    by_found (some (org, sub)) = refl

mark_paid-Writes :
    (json : BreakdownJson) (db : Database) (now : ℕ) (id : String) (org : Organization)
    (sub : OrganizationSubscription) (payment : SubscriptionPayment) (input : VerifyPaymentInput)
    (actor : String)
    → Writes id db (state_after (mark_paid json db now id org sub payment input actor))
unfolding mark_paid settled_bill
mark_paid-Writes json db now id org sub payment input actor =
    let bill = the_bill json db now id org sub payment input actor in
    let s = the_settlement json db now id org sub payment input actor in
    let after = settle db now id org sub payment s bill input actor in
    elim (Bool-cases (violates_unique bill db.subscription_bills)) [
      | inl clash ↦ rw clash stay
      | inr free ↦
          rw (free, entitlement_of-state after now id)
            (settle-Writes db now id org sub payment s bill input actor refl)
    ]

verify-Writes :
    (json : BreakdownJson) (db : Database) (now : ℕ) (id : String) (input : VerifyPaymentInput)
    (actor : String)
    → Writes id db (state_after (verify_subscription_payment json db now id input actor))
unfolding verify_subscription_payment verify_found
verify-Writes json db now id input actor =
    with_subscription-Writes db id org_not_found _
      λ org sub. by_payment org sub input.outcome (find_payment db input.payment_id id)
  where
    by_payment :
        (org : Organization) (sub : OrganizationSubscription) (outcome : PaymentOutcome)
        (found : Option SubscriptionPayment)
        → Writes id db (state_after (verify_found json db now id input actor org sub outcome found))
    by_payment org sub outcome none = stay
    by_payment org sub outcome_failed (some payment) =
        let after = fail_payment db now id payment input actor in
        rw (entitlement_of-state after now id) (fail-Writes db now id payment input actor)
    by_payment org sub outcome_paid (some payment) =
        mark_paid-Writes json db now id org sub payment input actor

set_term-Writes :
    (db db' : Database) (id : String) (term : Option ℕ)
    → Writes id (set_term term id db) db'
    → Writes id db db'
unfolding set_term resolve_expires_at
set_term-Writes db db' id none rest = rest
set_term-Writes db db' id (some term) rest = elim (Bool-cases (term == 0)) [
  | inl zero_term ↦ rw zero_term at rest
  | inr given ↦
      write_subscription
        (λ (s : OrganizationSubscription). record s {
          term_months = normalize_term_months (some term);
        })
        (λ s h. h) (rw given at rest)
]

mark_paid_call-Writes :
    (json : BreakdownJson) (db : Database) (now : ℕ) (new_id id actor : String)
    (opts : MarkPaidOptions)
    → Writes id db (state_after (admin_mark_subscription_paid json db now new_id id actor opts))
unfolding admin_mark_subscription_paid mark_chosen
mark_paid_call-Writes json db now new_id id actor opts =
    with_subscription-Writes db id org_not_found _ λ org sub. by_open org sub (open_payment db id)
  where
    after : String → Database → Database
    after payment_id chosen = state_after (
        verify_subscription_payment json (set_term opts.term_months id chosen) now id
          (mark_paid_input opts payment_id) actor)

    chosen-Writes :
        (payment_id : String) (chosen : Database) → Writes id chosen (after payment_id chosen)
    chosen-Writes payment_id chosen =
        set_term-Writes chosen (after payment_id chosen) id opts.term_months (
          verify-Writes json (set_term opts.term_months id chosen) now id
            (mark_paid_input opts payment_id) actor)

    by_open :
        (org : Organization) (sub : OrganizationSubscription) (found : Option SubscriptionPayment)
        → Writes id db (
            state_after (
              mark_chosen json now id actor opts
                (choose_payment db now new_id id sub opts actor found)))
    by_open org sub (some payment) = chosen-Writes payment.id db
    by_open org sub none = write_payments _ (chosen-Writes new_id _)

-- Whatever a call does, it does by these writes.
pub run-Writes :
    (json : BreakdownJson) (db : Database) (call : Call)
    → Writes (organization_of call) db (run json db call)
unfolding run
run-Writes json db (call_patch now id actor input) = patch-Writes db now id input actor
run-Writes json db (call_request now new_id id actor opts) =
    request-Writes json db now new_id id actor opts
run-Writes json db (call_verify now id actor input) = verify-Writes json db now id input actor
run-Writes json db (call_mark_paid now new_id id actor opts) =
    mark_paid_call-Writes json db now new_id id actor opts

-- ===== src/Subscription/Moves.antt =====
-- The calls move the clock of their organisation as the abstract view says, one kind of call at a
-- time.
use prime_detailer_backend.Base.{
  ℕ, ◌≡◌, refl, String, Bool, true, false, sym, subst, Option, none, some, or_else, Bool-cases, inl,
  inr,
}
use prime_detailer_backend.Base.Assoc.{or_first}
use prime_detailer_backend.Pricing.Plan.{all_term_months, has_term}
use prime_detailer_backend.Pricing.Calculation.{SubscriptionPricingBreakdown}
use prime_detailer_backend.Subscription.Records.{
  Database, DynamicPlanDefinition, Organization, OrganizationSubscription, SubscriptionPayment,
}
use prime_detailer_backend.Subscription.Entitlement.{
  EntitlementPayload, entitlement_now, resolve_expires_at,
}
use prime_detailer_backend.Subscription.Patch.{
  PatchSubscriptionInput, org_not_found, patch_by, patch_organization_subscription, patched,
  template_for,
}
use prime_detailer_backend.Subscription.Notes.{BreakdownJson}
use prime_detailer_backend.Subscription.Settlement.{
  PaymentOutcome, VerifyPaymentInput, outcome_failed, outcome_paid, settlement,
}
use prime_detailer_backend.Subscription.Rows.{Found, update_subscription-Found}
use prime_detailer_backend.Subscription.Records.{
  app_http_error, payment_failed, returns, unique_violation,
}
use prime_detailer_backend.Subscription.Verify.{
  entitlement_of, fail_payment, find_payment, mark_paid, settle, verify_found,
  verify_subscription_payment, violates_unique,
}
use prime_detailer_backend.Subscription.Extension.{
  entitlement_of-Found, normalize_term_months-has_term, settle-Found, the_bill, the_settlement,
  the_subscription,
}
use prime_detailer_backend.Subscription.Writes.{or_first_same}
use prime_detailer_backend.Subscription.Renewal.{
  SubscriptionPaymentRow, unsupported_term, RenewalOptions, after_request, quote_for,
  renewal_payload, request_quoted, request_subscription_renewal, requested, subscription_missing,
}
use prime_detailer_backend.Subscription.PaidUntil.{
  Effect, Moves, Moves-Found, Moves-stay, keep, moved, pay, set_end, with_subscription-Moves,
}

patched_effect :
    (P : Effect → Type 0) (given : Option (Option ℕ)) (until : Option ℕ)
    → (given ≡ none → P keep)
    → ((e : Option ℕ) → given ≡ some e → P (set_end e))
    → (effect : Effect) × P effect
      × (or_first (or_else given until) (or_else given until) ≡ moved effect until)
patched_effect P none until stays sets = (keep, stays refl, or_first_same until)
patched_effect P (some e) until stays sets = (set_end e, sets e refl, or_first_same e)

pub patch-Moves :
    (P : Bool → Effect → Type 0) (db : Database) (now : ℕ) (id : String)
    (input : PatchSubscriptionInput) (actor : String)
    → P false keep
    → (input.expires_at ≡ none → P true keep)
    → ((e : Option ℕ) → input.expires_at ≡ some e → P true (set_end e))
    → Moves P id db (patch_organization_subscription db now id input actor)
unfolding patch_organization_subscription patch_by patched resolve_expires_at
patch-Moves P db now id input actor fails stays sets =
    with_subscription-Moves EntitlementPayload P db id org_not_found _ fails
      λ org sub found. by_template org sub found (template_for db input.plan_code input.limits)
  where
    by_template :
        (org : Organization) (sub : OrganizationSubscription)
        → Found db id org sub
        → (template : Option (Option DynamicPlanDefinition))
        → Moves P id db (patch_by db now id org sub input actor template)
    by_template org sub found none =
        Moves-stay EntitlementPayload P id db (app_http_error 400 "UNKNOWN_PLAN") fails
    by_template org sub found (some template) =
        let updated = patched input template sub in
        let (effect, must, e) =
          patched_effect (P true) input.expires_at (resolve_expires_at sub) stays sets in
        Moves-Found P id db (patch_by db now id org sub input actor (some template)) org
          (record org { subscription = some updated }) sub updated effect refl found
          (update_subscription-Found db id (λ _. updated) org sub found) must e

fail-Moves :
    (P : Bool → Effect → Type 0) (db : Database) (now : ℕ) (id : String)
    (payment : SubscriptionPayment) (input : VerifyPaymentInput) (actor : String)
    (org : Organization) (sub : OrganizationSubscription)
    → P true keep
    → Found db id org sub
    → Moves P id db (entitlement_of (fail_payment db now id payment input actor) now id)
unfolding fail_payment resolve_expires_at
fail-Moves P db now id payment input actor org sub stays found =
    let fail = λ (s : OrganizationSubscription). record s { payment_status = payment_failed } in
    let after = fail_payment db now id payment input actor in
    let org' = record org { subscription = some (fail sub) } in
    let there : Found after id org' (fail sub) =
      update_subscription-Found db id fail org sub found in
    subst (Moves P id db) (sym (entitlement_of-Found after now id org' (fail sub) there)) (
      Moves-Found P id db (returns (entitlement_now after now org' (fail sub)) after) org org' sub
        (fail sub) keep refl found there stays refl)

mark_paid-Moves :
    (P : Bool → Effect → Type 0) (json : BreakdownJson) (db : Database) (now : ℕ) (id : String)
    (org : Organization) (sub : OrganizationSubscription) (payment : SubscriptionPayment)
    (input : VerifyPaymentInput) (actor : String)
    → P false keep
    → ((term : ℕ) → has_term all_term_months term ≡ true → P true (pay now term))
    → Found db id org sub
    → Moves P id db (mark_paid json db now id org sub payment input actor)
unfolding mark_paid settlement resolve_expires_at
mark_paid-Moves P json db now id org sub payment input actor fails pays found =
    let bill = the_bill json db now id org sub payment input actor in
    let s = the_settlement json db now id org sub payment input actor in
    let after = settle db now id org sub payment s bill input actor in
    let sub' = the_subscription json db now id org sub payment input actor in
    let org' = record org { is_active = true; subscription = some sub' } in
    let there = settle-Found db now id org sub payment s bill input actor found in
    elim (Bool-cases (violates_unique bill db.subscription_bills)) [
      | inl clash ↦ rw clash (Moves-stay EntitlementPayload P id db unique_violation fails)
      | inr free ↦ rw free (
          subst (Moves P id db) (sym (entitlement_of-Found after now id org' sub' there)) (
            Moves-Found P id db (returns (entitlement_now after now org' sub') after) org org' sub
              sub' (pay now s.term_months) refl found there
              (pays s.term_months (search normalize_term_months-has_term)) refl))
    ]

pub verify-Moves :
    (P : Bool → Effect → Type 0) (json : BreakdownJson) (db : Database) (now : ℕ) (id : String)
    (input : VerifyPaymentInput) (actor : String)
    → P false keep
    → (input.outcome ≡ outcome_failed → P true keep)
    → ((term : ℕ)
        → input.outcome ≡ outcome_paid
        → has_term all_term_months term ≡ true
        → P true (pay now term))
    → Moves P id db (verify_subscription_payment json db now id input actor)
unfolding verify_subscription_payment verify_found
verify-Moves P json db now id input actor fails stays pays =
    with_subscription-Moves EntitlementPayload P db id org_not_found _ fails λ org sub found.
      by_payment org sub found input.outcome stays (λ paid term. pays term paid)
        (find_payment db input.payment_id id)
  where
    by_payment :
        (org : Organization) (sub : OrganizationSubscription)
        → Found db id org sub
        → (outcome : PaymentOutcome) → (outcome ≡ outcome_failed → P true keep)
        → (outcome ≡ outcome_paid
            → (term : ℕ) → has_term all_term_months term ≡ true
            → P true (pay now term))
        → (payment : Option SubscriptionPayment)
        → Moves P id db (verify_found json db now id input actor org sub outcome payment)
    by_payment org sub found outcome failed allowed none =
        Moves-stay EntitlementPayload P id db (app_http_error 404 "PAYMENT_NOT_FOUND") fails
    by_payment org sub found outcome_failed failed allowed (some payment) =
        fail-Moves P db now id payment input actor org sub (failed refl) found
    by_payment org sub found outcome_paid failed allowed (some payment) =
        mark_paid-Moves P json db now id org sub payment input actor fails (allowed refl) found

pub request-Moves :
    (P : Bool → Effect → Type 0) (json : BreakdownJson) (db : Database) (now : ℕ)
    (new_id id actor : String) (opts : RenewalOptions)
    → P false keep
    → P true keep
    → Moves P id db (request_subscription_renewal json db now new_id id actor opts)
unfolding request_subscription_renewal request_quoted after_request resolve_expires_at
request-Moves P json db now new_id id actor opts fails stays =
    with_subscription-Moves (EntitlementPayload × SubscriptionPaymentRow) P db id
      subscription_missing _ fails
      λ org sub found. by_quote org sub found (quote_for db id sub (renewal_payload opts))
  where
    by_quote :
        (org : Organization) (sub : OrganizationSubscription)
        → Found db id org sub
        → (quote : Option SubscriptionPricingBreakdown)
        → Moves P id db (request_quoted json db now new_id id actor opts org sub quote)
    by_quote org sub found none =
        Moves-stay (EntitlementPayload × SubscriptionPaymentRow) P id db unsupported_term fails
    by_quote org sub found (some breakdown) =
        let sub' = requested breakdown.term_months sub in
        Moves-Found P id db
          (request_quoted json db now new_id id actor opts org sub (some breakdown)) org
          (record org { subscription = some sub' }) sub sub' keep refl found
          (update_subscription-Found db id (requested breakdown.term_months) org sub found) stays
          refl

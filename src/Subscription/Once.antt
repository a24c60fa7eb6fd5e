-- ===== src/Subscription/Once.antt =====
-- A payment extends a subscription once.
use prime_detailer_backend.Base.{
  ℕ, ◌≡◌, refl, ap, ◌∙◌, sym, subst, String, Bool, true, ◌&&◌, some, List, [], ◌∷◌, ◌++◌, any,
  arith, any-append, find_passes, and-parts,
}
use prime_detailer_backend.Base.Text.{str_eq}
use text.Mathlib.TextEquality.{eq_iff}
use text.Mathlib.TextPositions.{eq_refl}
use mathlib.Core.Option
use prime_detailer_backend.Subscription.Records.{
  Database, Organization, OrganizationSubscription, SubscriptionBill, SubscriptionPayment, returns,
  throws, unique_violation, paid,
}
use prime_detailer_backend.Subscription.Entitlement.{EntitlementPayload}
use prime_detailer_backend.Subscription.Patch.{org_not_found}
use prime_detailer_backend.Subscription.Notes.{BreakdownJson}
use prime_detailer_backend.Subscription.Settlement.{VerifyPaymentInput, outcome_paid, settled_bill}
use prime_detailer_backend.Subscription.Verify.{
  find_payment, has_payment, settle, verified_payment, verify_found, verify_subscription_payment,
}
use prime_detailer_backend.Subscription.Rows.{Found, find-update_payment, with_subscription-Found}
use prime_detailer_backend.Subscription.Extension.{
  mark_paid-returns, settle-Found, the_bill, the_database, the_settlement, the_subscription,
}
use prime_detailer_backend.Subscription.Billing.{mark_paid-billed, verify_paid-returns}

any-last :
    (p : SubscriptionBill → Bool) (bills : List SubscriptionBill) (bill : SubscriptionBill)
    → p bill ≡ true
    → any p (bills ++ (bill ∷ [])) ≡ true
any-last p bills bill h = ground (arith, any-append p bills (bill ∷ []))

-- The payment that is found has the id that was looked for.
find_payment-id :
    (db : Database) (id org_id : String) (payment : SubscriptionPayment)
    → find_payment db id org_id ≡ some payment
    → payment.id ≡ id
find_payment-id db id org_id payment h =
    let passes =
      find_passes (λ (p : SubscriptionPayment). str_eq p.id id && str_eq p.organization_id org_id)
        db.subscription_payments payment h in
    (eq_iff payment.id id).0
      (and-parts (str_eq payment.id id) (str_eq payment.organization_id org_id) passes).0

-- A payment with a bill is refused, whatever the call sends.
verify_billed :
    (json : BreakdownJson) (db : Database) (now : ℕ) (org_id : String) (input : VerifyPaymentInput)
    (actor : String) (org : Organization) (sub : OrganizationSubscription)
    (payment : SubscriptionPayment)
    → Found db org_id org sub
    → input.outcome ≡ outcome_paid
    → find_payment db input.payment_id org_id ≡ some payment
    → any (has_payment payment.id) db.subscription_bills ≡ true
    → verify_subscription_payment json db now org_id input actor ≡ throws unique_violation db
unfolding verify_subscription_payment verify_found
verify_billed json db now org_id input actor org sub payment found is_paid there billed =
    let body = verify_found json db now org_id input actor in
    with_subscription-Found db org_id org_not_found
      (λ o s. body o s input.outcome (find_payment db input.payment_id org_id)) org sub found
    ∙ ap (λ o. body org sub o (find_payment db input.payment_id org_id)) is_paid
    ∙ ap (body org sub outcome_paid) there
    ∙ mark_paid-billed json db now org_id org sub payment input actor billed

-- A payment that was verified as paid cannot be verified as paid a second time: whatever the second
-- call sends and whenever it comes, it breaks the unique index and leaves everything as it is.
pub verify_subscription_payment-once :
    (json : BreakdownJson) (db : Database) (now later : ℕ) (org_id : String)
    (input again : VerifyPaymentInput) (actor actor' : String) (e : EntitlementPayload)
    (db' : Database)
    → input.outcome ≡ outcome_paid
    → verify_subscription_payment json db now org_id input actor ≡ returns e db'
    → again.outcome ≡ outcome_paid
    → again.payment_id ≡ input.payment_id
    → verify_subscription_payment json db' later org_id again actor' ≡ throws unique_violation db'
unfolding settle verify_found verify_subscription_payment settled_bill
verify_subscription_payment-once json db now later org_id input again actor actor' e db' is_paid h
      paid_again same_payment =
    let (org, sub, payment, found, there, marked) =
      verify_paid-returns json db now org_id input actor e db' is_paid h in
    let (_, same_db, _) =
      mark_paid-returns json db now org_id org sub payment input actor e db' found marked in
    let s = the_settlement json db now org_id org sub payment input actor in
    let bill = the_bill json db now org_id org sub payment input actor in
    let after = settle-Found db now org_id org sub payment s bill input actor found in
    let sub' = the_subscription json db now org_id org sub payment input actor in
    let org' = record org { is_active = true; subscription = some sub' } in
    let update =
      λ (p : SubscriptionPayment). verified_payment p input paid (some s.txn_ref) now actor in
    let after_db = the_database json db now org_id org sub payment input actor in
    let own = find_payment-id db input.payment_id org_id payment there in
    let kept =
      find-update_payment db payment.id org_id update (λ p. (refl, refl))
      ∙ ap (λ id. Option.map update (find_payment db id org_id)) own
      ∙ ap (Option.map update) there in
    let asked = ap (λ id. find_payment after_db id org_id) (same_payment ∙ sym own) in
    let refused =
      verify_billed json after_db later org_id again actor' org' sub' (update payment) after
        paid_again (asked ∙ kept)
        (any-last (has_payment payment.id) db.subscription_bills bill (eq_refl payment.id)) in
    subst
      (λ d.
        verify_subscription_payment json d later org_id again actor' ≡ throws unique_violation d)
      same_db refused

-- ===== src/Subscription/Billing.antt =====
-- A payment that is verified as paid extends the subscription, once, and is billed.
use prime_detailer_backend.Base.{
  ℕ, ◌≡◌, refl, ap, ◌∙◌, sym, subst, String, true, Option, none, some, List, [], ◌∷◌, ◌++◌, any,
  arith,
}
use prime_detailer_backend.Subscription.Records.{
  Database, Organization, OrganizationSubscription, SubscriptionBill, SubscriptionPayment,
  app_http_error, returns, throws, unique_violation,
}
use prime_detailer_backend.Subscription.Entitlement.{
  to_entitlement, EntitlementPayload, resolve_expires_at,
}
use prime_detailer_backend.Subscription.Patch.{org_not_found}
use prime_detailer_backend.Subscription.Notes.{BreakdownJson}
use prime_detailer_backend.Subscription.Settlement.{
  VerifyPaymentInput, outcome_paid, period_start_at, settled_bill, settlement,
}
use prime_detailer_backend.Pricing.Plan.{all_term_months, has_term}
use prime_detailer_backend.Subscription.Rows.{Found, throws-returns, with_subscription-returns}
use prime_detailer_backend.Subscription.Months.{add_months_later}
use prime_detailer_backend.Subscription.Extension.{
  settle-Found, IsRenewed, has_term_pos, mark_paid-returns, normalize_term_months-has_term,
  the_bill, the_settlement, the_subscription,
}
use prime_detailer_backend.Subscription.Verify.{
  settle, find_payment, verify_found, violates_unique, verify_subscription_payment, mark_paid,
  has_payment,
}

has_payment-violates :
    (bill : SubscriptionBill) (id : String) (bills : List SubscriptionBill)
    → bill.payment_id ≡ some id
    → any (has_payment id) bills ≡ true
    → violates_unique bill bills ≡ true
has_payment-violates bill id [] own h = cc
has_payment-violates bill id (b ∷ bs) own h = ground (arith, has_payment-violates bill id bs own)

-- A payment that has a bill is not billed again.
pub mark_paid-billed :
    (json : BreakdownJson) (db : Database) (now : ℕ) (org_id : String) (org : Organization)
    (sub : OrganizationSubscription) (payment : SubscriptionPayment) (input : VerifyPaymentInput)
    (actor : String)
    → any (has_payment payment.id) db.subscription_bills ≡ true
    → mark_paid json db now org_id org sub payment input actor ≡ throws unique_violation db
unfolding mark_paid settled_bill
mark_paid-billed json db now org_id org sub payment input actor billed =
    rw
      (has_payment-violates (the_bill json db now org_id org sub payment input actor) payment.id
        db.subscription_bills refl billed)
      refl

module _ (json : BreakdownJson) (db : Database) (now : ℕ) (org_id : String) (org : Organization)
    (sub : OrganizationSubscription) (payment : SubscriptionPayment) (input : VerifyPaymentInput)
    (actor : String) where
  -- The subscription that a settlement leaves is renewed from the end of the paid period, or now.
  the_subscription-IsRenewed :
      IsRenewed
        (period_start_at (resolve_expires_at sub) now)
        (record org {
          is_active = true;
          subscription = some (the_subscription json db now org_id org sub payment input actor);
        })
        (the_subscription json db now org_id org sub payment input actor)
        (the_bill json db now org_id org sub payment input actor)
  unfolding settlement settled_bill
  the_subscription-IsRenewed =
      let s = the_settlement json db now org_id org sub payment input actor in
      let sold : has_term all_term_months s.term_months ≡ true =
        search normalize_term_months-has_term in
      record {
        term_sold = sold;
        ends = refl;
        mirrored = refl;
        later =
            add_months_later (period_start_at (resolve_expires_at sub) now) s.term_months
              (has_term_pos s.term_months sold);
        in_force = refl;
        is_paid = refl;
        is_open = refl;
        billed_from = refl;
        billed_to = refl;
        billed_term = refl;
      }

-- Only a payment of the organisation that is found can be verified.
pub verify_found-returns :
    (json : BreakdownJson) (db : Database) (now : ℕ) (org_id : String) (input : VerifyPaymentInput)
    (actor : String) (org : Organization) (sub : OrganizationSubscription)
    (found : Option SubscriptionPayment) (e : EntitlementPayload) (db' : Database)
    → verify_found json db now org_id input actor org sub outcome_paid found ≡ returns e db'
    → (payment : SubscriptionPayment) × (found ≡ some payment)
      × (mark_paid json db now org_id org sub payment input actor ≡ returns e db')
unfolding verify_found
verify_found-returns json db now org_id input actor org sub none e db' h =
    absurd (throws-returns (app_http_error 404 "PAYMENT_NOT_FOUND") db e db' h)
verify_found-returns json db now org_id input actor org sub (some payment) e db' h =
    (payment, refl, h)

-- What has happened when a payment was verified as paid.
pub verify_paid-returns :
    (json : BreakdownJson) (db : Database) (now : ℕ) (org_id : String) (input : VerifyPaymentInput)
    (actor : String) (e : EntitlementPayload) (db' : Database)
    → input.outcome ≡ outcome_paid
    → verify_subscription_payment json db now org_id input actor ≡ returns e db'
    → (org : Organization) × (sub : OrganizationSubscription) × (payment : SubscriptionPayment)
      × Found db org_id org sub
      × (find_payment db input.payment_id org_id ≡ some payment)
      × (mark_paid json db now org_id org sub payment input actor ≡ returns e db')
unfolding verify_subscription_payment
verify_paid-returns json db now org_id input actor e db' is_paid h =
    let (org, sub, found, ran) = with_subscription-returns db org_id org_not_found _ e db' h in
    let found_payment = find_payment db input.payment_id org_id in
    let as_paid =
      ap (λ o. verify_found json db now org_id input actor org sub o found_payment) is_paid in
    let (payment, there, marked) =
      verify_found-returns json db now org_id input actor org sub found_payment e db'
        (sym as_paid ∙ ran) in
    (org, sub, payment, found, there, marked)

-- The subscription of the organisation before and after, and the one bill that was added.
abbrev pub RenewedOnce : Database → ℕ → String → EntitlementPayload → Database → Type 0
RenewedOnce db now org_id e db' =
    (org : Organization) × (sub : OrganizationSubscription) × (org' : Organization)
    × (sub' : OrganizationSubscription) × (bill : SubscriptionBill) × Found db org_id org sub
    × Found db' org_id org' sub'
    × IsRenewed (period_start_at (resolve_expires_at sub) now) org' sub' bill
    × (e.expires_at ≡ sub'.expires_at)
    × (db'.subscription_bills ≡ db.subscription_bills ++ (bill ∷ []))

-- A payment that is verified as paid renews the subscription of its organisation: for a term that is
-- sold, from the end of the paid period on or, if that is past, from now on. The workshop is open
-- again, the entitlement names the new end, and exactly one bill is added, for that period.
pub verify_subscription_payment-IsRenewed :
    (json : BreakdownJson) (db : Database) (now : ℕ) (org_id : String) (input : VerifyPaymentInput)
    (actor : String) (e : EntitlementPayload) (db' : Database)
    → input.outcome ≡ outcome_paid
    → verify_subscription_payment json db now org_id input actor ≡ returns e db'
    → RenewedOnce db now org_id e db'
unfolding settle resolve_expires_at to_entitlement
verify_subscription_payment-IsRenewed json db now org_id input actor e db' is_paid h =
    let (org, sub, payment, found, _, marked) =
      verify_paid-returns json db now org_id input actor e db' is_paid h in
    let (_, same_db, same_e) =
      mark_paid-returns json db now org_id org sub payment input actor e db' found marked in
    let after =
      settle-Found db now org_id org sub payment
        (the_settlement json db now org_id org sub payment input actor)
        (the_bill json db now org_id org sub payment input actor) input actor found in
    let sub' = the_subscription json db now org_id org sub payment input actor in
    let org' = record org { is_active = true; subscription = some sub' } in
    (
      org,
      sub,
      org',
      sub',
      the_bill json db now org_id org sub payment input actor,
      found,
      subst (λ d. Found d org_id org' sub') same_db after,
      the_subscription-IsRenewed json db now org_id org sub payment input actor,
      sym (ap (λ (p : EntitlementPayload). p.expires_at) same_e),
      sym (ap (λ (d : Database). d.subscription_bills) same_db),
    )

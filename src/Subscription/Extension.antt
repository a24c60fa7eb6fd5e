-- ===== src/Subscription/Extension.antt =====
-- What a payment that is verified as paid does to the subscription.
use prime_detailer_backend.Base.{
  ℕ, ◌≤◌, ◌<◌, String, true, false, ◌≡◌, refl, ◌∙◌, sym, Option, none, some, Bool-cases, inl, inr,
  arith,
}
use prime_detailer_backend.Access.Gate.{active}
use prime_detailer_backend.Limits.SubscriptionLock.{normalize_term_months}
use prime_detailer_backend.Pricing.Plan.{all_term_months, has_term}
use prime_detailer_backend.Subscription.Calendar.{add_months}
use prime_detailer_backend.Subscription.Records.{
  Database, Organization, OrganizationSubscription, SubscriptionBill, SubscriptionPayment, paid,
  returns, unique_violation,
}
use prime_detailer_backend.Subscription.Entitlement.{EntitlementPayload, entitlement_now}
use prime_detailer_backend.Subscription.Patch.{update_subscription}
use prime_detailer_backend.Subscription.Notes.{BreakdownJson, parse_pricing_from_notes}
use prime_detailer_backend.Subscription.Settlement.{
  Settlement, VerifyPaymentInput, settled_bill, settlement,
}
use prime_detailer_backend.Subscription.Verify.{
  entitlement_of, mark_paid, settle, settled_subscription, violates_unique,
}
use prime_detailer_backend.Subscription.Rows.{
  throws-returns, Found, Found-subscribed, find-update_organization, update_subscription-Found,
}

-- A call that returned came from a state where it could: the value and the state are these.
pub entitlement_of-Found :
    (db : Database) (now : ℕ) (id : String) (org : Organization) (sub : OrganizationSubscription)
    → Found db id org sub
    → entitlement_of db now id ≡ returns (entitlement_now db now org sub) db
entitlement_of-Found db now id org sub found = rw (Found-subscribed db id org sub found) refl

pub settle-Found :
    (db : Database) (now : ℕ) (org_id : String) (org : Organization)
    (sub : OrganizationSubscription) (payment : SubscriptionPayment) (s : Settlement)
    (bill : SubscriptionBill) (input : VerifyPaymentInput) (actor : String)
    → Found db org_id org sub
    → Found
        (settle db now org_id org sub payment s bill input actor)
        org_id
        (record org { is_active = true; subscription = some (settled_subscription s sub) })
        (settled_subscription s sub)
unfolding settle
settle-Found db now org_id org sub payment s bill input actor found =
    let (here, _) = update_subscription-Found db org_id (settled_subscription s) org sub found in
    let active_now =
      find-update_organization (update_subscription org_id (settled_subscription s) db) org_id
        (λ (o : Organization). record o { is_active = true }) (λ o. refl) in
    (rw here at active_now, refl)

pub returns_parts :
    {A : Type 0} (a b : A) (db db' : Database) → returns a db ≡ returns b db' → (a ≡ b) × (db ≡ db')
returns_parts a b db db' h = (cc, cc)

module _ (json : BreakdownJson) (db : Database) (now : ℕ) (org_id : String) (org : Organization)
    (sub : OrganizationSubscription) (payment : SubscriptionPayment) (input : VerifyPaymentInput)
    (actor : String) where
  abbrev pub the_settlement : Settlement
  the_settlement =
      settlement db now org_id sub payment (parse_pricing_from_notes json payment.notes) input

  abbrev pub the_bill : SubscriptionBill
  the_bill =
      settled_bill the_settlement now org_id sub payment
        (parse_pricing_from_notes json payment.notes)

  abbrev pub the_database : Database
  the_database = settle db now org_id org sub payment the_settlement the_bill input actor

  abbrev pub the_subscription : OrganizationSubscription
  the_subscription = settled_subscription the_settlement sub

  -- A payment that was marked as paid had no bill, and what it left is its settlement.
  pub mark_paid-returns :
      (e : EntitlementPayload) (db' : Database)
      → Found db org_id org sub
      → mark_paid json db now org_id org sub payment input actor ≡ returns e db'
      → let org' = record org { is_active = true; subscription = some the_subscription } in
        (violates_unique the_bill db.subscription_bills ≡ false)
        × (the_database ≡ db')
        × (entitlement_now the_database now org' the_subscription ≡ e)
  unfolding mark_paid
  mark_paid-returns e db' found h =
      elim (Bool-cases (violates_unique the_bill db.subscription_bills)) [
        | inl clash ↦ absurd (throws-returns unique_violation db e db' (rw clash at h))
        | inr free ↦
            let org' = record org { is_active = true; subscription = some the_subscription } in
            let there =
              settle-Found db now org_id org sub payment the_settlement the_bill input actor
                found in
            let done : entitlement_of the_database now org_id ≡ returns e db' = rw free at h in
            let (same_e, same_db) =
              returns_parts (entitlement_now the_database now org' the_subscription) e the_database
                db'
                (sym (entitlement_of-Found the_database now org_id org' the_subscription there)
                  ∙ done) in
            (free, same_db, same_e)
      ]

pub normalize_term_months-has_term :
    (raw : Option ℕ) → has_term all_term_months (normalize_term_months raw) ≡ true
unfolding normalize_term_months
normalize_term_months-has_term none = refl
normalize_term_months-has_term (some raw) = ground arith

pub has_term_pos : (term : ℕ) → has_term all_term_months term ≡ true → 1 ≤ term
has_term_pos term h = ground arith

-- The subscription after a payment, and the bill for it: the term is one that is sold, and the
-- period of that length begins at `start`.
pub record IsRenewed (start : ℕ) (org : Organization) (sub : OrganizationSubscription)
    (bill : SubscriptionBill) : Type 0 where
  pub term_sold : has_term all_term_months sub.term_months ≡ true
  pub ends : sub.expires_at ≡ some (add_months start sub.term_months)
  pub mirrored : sub.current_period_end ≡ sub.expires_at
  pub later : start < add_months start sub.term_months
  pub in_force : sub.status ≡ active
  pub is_paid : sub.payment_status ≡ paid
  pub is_open : org.is_active ≡ true
  pub billed_from : bill.period_start ≡ start
  pub billed_to : some bill.period_end ≡ sub.expires_at
  pub billed_term : bill.term_months ≡ sub.term_months

-- ===== src/Subscription/Carried.antt =====
-- The price that a renewal was quoted is the one that is billed when it is marked as paid.
use prime_detailer_backend.Base.{
  ℕ, ◌≤◌, ◌≡◌, ◌≢◌, refl, ap, ◌∙◌, sym, subst, String, ◌&&◌, Option, some, [], ◌∷◌, ◌++◌, All, find,
  find-append,
}
use prime_detailer_backend.Base.Text.{str_eq}
use text.Mathlib.TextPositions.{eq_refl}
use prime_detailer_backend.Pricing.Calculation.{SubscriptionPricingBreakdown}
use prime_detailer_backend.Subscription.Records.{
  Database, Organization, OrganizationSubscription, SubscriptionBill, SubscriptionPayment, returns,
}
use prime_detailer_backend.Subscription.Entitlement.{EntitlementPayload, to_entitlement}
use prime_detailer_backend.Subscription.Patch.{org_not_found}
use prime_detailer_backend.Subscription.Notes.{BreakdownJson, parse_pricing_from_notes}
use prime_detailer_backend.Subscription.Settlement.{
  VerifyPaymentInput, outcome_paid, settled_bill, settlement,
}
use prime_detailer_backend.Subscription.Rows.{
  with_subscription-returns, Found, with_subscription-Found,
}
use prime_detailer_backend.Subscription.Extension.{mark_paid-returns, the_bill}
use prime_detailer_backend.Subscription.MarkPaid.{
  mark_paid_input, choose_payment, MarkPaidOptions, mark_chosen, admin_mark_subscription_paid,
}
use prime_detailer_backend.Subscription.Billing.{verify_paid-returns}
use prime_detailer_backend.Subscription.Calls.{state_after}
use prime_detailer_backend.Limits.SubscriptionLock.{normalize_term_months}
use prime_detailer_backend.Subscription.Records.{pending}
use prime_detailer_backend.Subscription.Renewal.{
  RenewalOptions, add_payment, after_request, quote_for, renewal_payload, renewal_payment,
  request_quoted, request_subscription_renewal, subscription_missing,
}
use prime_detailer_backend.Subscription.Verify.{verify_subscription_payment, find_payment, settle}
use prime_detailer_backend.Subscription.MarkPaid.{is_pending, open_payment, set_term}
use prime_detailer_backend.Subscription.Newest.{newest-filter-last, find_fresh, set_term-rows}

some_inj : (p q : SubscriptionPayment) → some p ≡ some q → p ≡ q
some_inj p q h = cc

-- What a settlement by a breakdown takes from it.
module _ (db : Database) (now : ℕ) (org_id : String) (sub : OrganizationSubscription)
    (payment : SubscriptionPayment) (input : VerifyPaymentInput)
    (pricing : Option SubscriptionPricingBreakdown) (b : SubscriptionPricingBreakdown)
    (reads : pricing ≡ some b) where
  settlement-priced :
      let s = settlement db now org_id sub payment pricing input in
      let bill = settled_bill s now org_id sub payment pricing in
      (bill.total_amount ≡ some b.final_amount)
      × (bill.extra_branches ≡ some b.extra_branches)
      × (bill.extra_users ≡ some b.extra_users)
      × (bill.term_months ≡ normalize_term_months (some b.term_months))
      × (s.branch_override ≡ b.final_allowed_branches)
      × (s.users_override ≡ b.final_allowed_users)
  unfolding settlement settled_bill
  settlement-priced = rw reads (refl, refl, refl, refl, refl, refl)

-- The payment that was requested last is the open one.
open_payment-requested :
    (db : Database) (id : String) (payment : SubscriptionPayment)
    → All (λ (p : SubscriptionPayment). p.created_at ≤ payment.created_at) db.subscription_payments
    → payment.organization_id ≡ id
    → payment.status ≡ pending
    → open_payment (add_payment payment db) id ≡ some payment
unfolding open_payment
open_payment-requested db id payment earlier own is_open =
    let newest_pending =
      newest-filter-last
        (λ (p : SubscriptionPayment). str_eq p.organization_id id && is_pending p.status) payment
        db.subscription_payments earlier (rw (own, is_open) (rw (eq_refl id) refl)) in
    rw newest_pending refl

found_last :
    (db : Database) (id : String) (payment : SubscriptionPayment)
    → All (λ (p : SubscriptionPayment). p.id ≢ payment.id) db.subscription_payments
    → payment.organization_id ≡ id
    → find_payment (add_payment payment db) payment.id id ≡ some payment
found_last db id payment fresh own =
    find-append (λ (p : SubscriptionPayment). str_eq p.id payment.id && str_eq p.organization_id id)
      db.subscription_payments (payment ∷ [])
    ∙ rw (find_fresh db.subscription_payments payment.id id fresh)
        (rw (own, eq_refl payment.id, eq_refl id) refl)

-- The state after a request that was quoted.
request-state :
    (json : BreakdownJson) (db : Database) (now : ℕ) (new_id org_id actor : String)
    (opts : RenewalOptions) (org : Organization) (sub : OrganizationSubscription)
    (b : SubscriptionPricingBreakdown)
    → Found db org_id org sub
    → quote_for db org_id sub (renewal_payload opts) ≡ some b
    → state_after (request_subscription_renewal json db now new_id org_id actor opts)
      ≡ after_request org_id actor sub b
          (renewal_payment json now new_id org_id sub b opts actor)
          db
unfolding request_subscription_renewal request_quoted
request-state json db now new_id org_id actor opts org sub b found quoted = ap state_after (
    with_subscription-Found db org_id subscription_missing
      (λ o s.
        request_quoted json db now new_id org_id actor opts o s
          (quote_for db org_id s (renewal_payload opts)))
      org sub found
    ∙ ap (request_quoted json db now new_id org_id actor opts org sub) quoted)

-- A bill by this breakdown for this payment, with the limits that it allows.
abbrev pub IsBilledAs :
    SubscriptionPricingBreakdown → String → SubscriptionBill → EntitlementPayload → Type 0
IsBilledAs b payment_id bill e =
    (bill.payment_id ≡ some payment_id)
    × (bill.total_amount ≡ some b.final_amount)
    × (bill.extra_branches ≡ some b.extra_branches)
    × (bill.extra_users ≡ some b.extra_users)
    × (bill.term_months ≡ normalize_term_months (some b.term_months))
    × (e.max_branches_override ≡ b.final_allowed_branches)
    × (e.max_users_override ≡ b.final_allowed_users)

-- Verifying an open payment whose notes hold a breakdown bills it.
verify-IsBilledAs :
    (json : BreakdownJson) (db : Database) (now : ℕ) (org_id : String) (input : VerifyPaymentInput)
    (actor : String) (payment : SubscriptionPayment) (b : SubscriptionPricingBreakdown)
    (e : EntitlementPayload) (db' : Database)
    → input.outcome ≡ outcome_paid
    → find_payment db input.payment_id org_id ≡ some payment
    → parse_pricing_from_notes json payment.notes ≡ some b
    → verify_subscription_payment json db now org_id input actor ≡ returns e db'
    → (bill : SubscriptionBill) × (db'.subscription_bills ≡ db.subscription_bills ++ (bill ∷ []))
      × IsBilledAs b payment.id bill e
unfolding settle to_entitlement settled_bill
verify-IsBilledAs json db now org_id input actor payment b e db' is_paid there reads h =
    let (org, sub, payment', found, there', marked) =
      verify_paid-returns json db now org_id input actor e db' is_paid h in
    let same = some_inj payment' payment (sym there' ∙ there) in
    let (_, same_db, same_e) =
      mark_paid-returns json db now org_id org sub payment' input actor e db' found marked in
    let pricing = parse_pricing_from_notes json payment'.notes in
    let reads' =
      ap (λ (p : SubscriptionPayment). parse_pricing_from_notes json p.notes) same ∙ reads in
    let (total, branches, users, term, branch_limit, user_limit) =
      settlement-priced db now org_id sub payment' input pricing b reads' in
    (
      the_bill json db now org_id org sub payment' input actor,
      sym (ap (λ (d : Database). d.subscription_bills) same_db),
      (
        ap (λ (p : SubscriptionPayment). some p.id) same,
        total,
        branches,
        users,
        term,
        sym (ap (λ (p : EntitlementPayload). p.max_branches_override) same_e) ∙ branch_limit,
        sym (ap (λ (p : EntitlementPayload). p.max_users_override) same_e) ∙ user_limit,
      ),
    )

-- When the platform marks a subscription as paid after a renewal was requested and quoted, it bills
-- the quoted breakdown: its amount, its extras and its term, and the limits become those that it
-- allows, whatever amount or term the platform sends. This holds if no stored payment is later than
-- the request, the id of the requested payment is fresh, and its notes are read back as the quote.
pub admin_mark_subscription_paid-IsBilledAs :
    (json : BreakdownJson) (db : Database) (now later : ℕ) (new_id other_id org_id : String)
    (actor admin : String) (opts : RenewalOptions) (mark : MarkPaidOptions) (org : Organization)
    (sub : OrganizationSubscription) (b : SubscriptionPricingBreakdown) (e : EntitlementPayload)
    (db' : Database)
    → Found db org_id org sub
    → quote_for db org_id sub (renewal_payload opts) ≡ some b
    → All (λ (p : SubscriptionPayment). p.created_at ≤ now) db.subscription_payments
    → All (λ (p : SubscriptionPayment). p.id ≢ new_id) db.subscription_payments
    → parse_pricing_from_notes json (renewal_payment json now new_id org_id sub b opts actor).notes
      ≡ some b
    → let requested_db =
        state_after (request_subscription_renewal json db now new_id org_id actor opts) in
      admin_mark_subscription_paid json requested_db later other_id org_id admin mark
        ≡ returns e db'
      → (bill : SubscriptionBill) × (db'.subscription_bills ≡ db.subscription_bills ++ (bill ∷ []))
        × IsBilledAs b new_id bill e
unfolding admin_mark_subscription_paid mark_chosen after_request renewal_payment
admin_mark_subscription_paid-IsBilledAs json db now later new_id other_id org_id actor admin opts
      mark org sub b e db' found quoted earlier fresh reads h =
    let payment = renewal_payment json now new_id org_id sub b opts actor in
    let db1 = after_request org_id actor sub b payment db in
    let state = request-state json db now new_id org_id actor opts org sub b found quoted in
    let h1 =
      subst
        (λ d. admin_mark_subscription_paid json d later other_id org_id admin mark ≡ returns e db')
        state h in
    let (org1, sub1, _, ran) = with_subscription-returns db1 org_id org_not_found _ e db' h1 in
    let open_one : open_payment db1 org_id ≡ some payment =
      open_payment-requested db org_id payment earlier refl refl in
    let chosen =
      ap
        (λ o.
          mark_chosen json later org_id admin mark
            (choose_payment db1 later other_id org_id sub1 mark admin o))
        open_one in
    let db2 = set_term mark.term_months org_id db1 in
    let (same_payments, same_bills) = set_term-rows mark.term_months org_id db1 in
    let there : find_payment db2 new_id org_id ≡ some payment =
      ap (find (λ (p : SubscriptionPayment). str_eq p.id new_id && str_eq p.organization_id org_id))
        same_payments
      ∙ found_last db org_id payment fresh refl in
    let (bill, added, billed) =
      verify-IsBilledAs json db2 later org_id (mark_paid_input mark new_id) admin payment b e db'
        refl there reads (sym chosen ∙ ran) in
    (bill, added ∙ ap (λ bills. bills ++ (bill ∷ [])) same_bills, billed)

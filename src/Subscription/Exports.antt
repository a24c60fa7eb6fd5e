-- ===== src/Subscription/Exports.antt =====
-- Whether a workshop can export its data after it has paid.
use prime_detailer_backend.Base.{
  ℕ, ◌+◌, ◌*◌, ◌/◌, ◌≤◌, ◌≡◌, ◌↔◌, refl, ap, ◌∙◌, sym, String, true, false, not, Option, none, some,
  Bool-cases, inl, inr, arith,
}
use prime_detailer_backend.Base.Int.{pos, int_laws}
use prime_detailer_backend.Limits.SubscriptionLock.{
  is_export_locked, is_export_locked_iff, ms_per_day, normalize_term_months,
}
use prime_detailer_backend.Subscription.Calendar.{
  add_months, days_from, days_in_month, month_and_day,
}
use prime_detailer_backend.Subscription.Months.{add_months_bounds, days_from_bounds}
use prime_detailer_backend.Subscription.Records.{
  Database, Organization, OrganizationSubscription, returns,
}
use prime_detailer_backend.Subscription.Entitlement.{
  EntitlementPayload, resolve_expires_at, to_entitlement,
}
use prime_detailer_backend.Subscription.Notes.{BreakdownJson}
use prime_detailer_backend.Subscription.Settlement.{
  VerifyPaymentInput, outcome_paid, period_start_at, settlement,
}
use prime_detailer_backend.Subscription.Verify.{verify_subscription_payment}
use prime_detailer_backend.Subscription.Rows.{Found}
use prime_detailer_backend.Subscription.Extension.{mark_paid-returns, the_settlement}
use prime_detailer_backend.Subscription.Billing.{verify_paid-returns}

-- The lock in milliseconds that are natural numbers.
locked_iff :
    (expires_at now : ℕ)
    → (is_export_locked (some (pos expires_at)) (pos now) ≡ true)
      ↔ (expires_at ≤ now + 30 * ms_per_day)
locked_iff expires_at now =
    let (close, far) = is_export_locked_iff (pos expires_at) (pos now) in
    (λ locked. omega (int_laws, close locked), λ h. far (omega int_laws))

-- Three months or more reach beyond the lock.
long_term_unlocked :
    (start now term : ℕ)
    → now ≤ start
    → 3 ≤ term
    → is_export_locked (some (pos (add_months start term))) (pos now) ≡ false
long_term_unlocked start now term h long =
    elim (Bool-cases (is_export_locked (some (pos (add_months start term))) (pos now))) [
      | inl locked ↦
          let close = (locked_iff (add_months start term) now).0 locked in
          let (low, _) = add_months_bounds start term in
          let (days, _) = days_from_bounds (month_and_day (start / ms_per_day)).0 term in
          absurd (omega arith)
      | inr unlocked ↦ unlocked
    ]

-- A month of thirty days or less does not.
short_month_locked :
    (now : ℕ)
    → days_in_month (month_and_day (now / ms_per_day)).0 ≤ 30
    → is_export_locked (some (pos (add_months now 1))) (pos now) ≡ true
unfolding days_from
short_month_locked now short =
    let (_, high) = add_months_bounds now 1 in
    (locked_iff (add_months now 1) now).1 (omega (arith, high))

start_not_past : (until : Option ℕ) (now : ℕ) → now ≤ period_start_at until now
start_not_past none now = omega arith
start_not_past (some end) now = ground arith

sub_unique :
    (db : Database) (id : String) (org org' : Organization) (sub sub' : OrganizationSubscription)
    → Found db id org sub
    → Found db id org' sub'
    → sub ≡ sub'
sub_unique db id org org' sub sub' (found, has) (found', has') =
    let same : some org ≡ some org' = sym found ∙ found' in
    let same_sub : some sub ≡ some sub' = sym has ∙ ap subscription_of same_org ∙ has' in cc
  where
    subscription_of : Organization → Option OrganizationSubscription
    subscription_of o = o.subscription

    same_org : org ≡ org'
    same_org = let same : some org ≡ some org' = sym found ∙ found' in cc

normalize_idempotent :
    (raw : Option ℕ)
    → normalize_term_months (some (normalize_term_months raw)) ≡ normalize_term_months raw
unfolding normalize_term_months
normalize_idempotent none = refl
normalize_idempotent (some raw) = ground arith

-- Right after a payment for three months or more the workshop can export its data. After a payment
-- for one month it cannot, if its paid period was over and the month has thirty days or less.
pub verify_subscription_payment-exports :
    (json : BreakdownJson) (db : Database) (now : ℕ) (org_id : String) (input : VerifyPaymentInput)
    (actor : String) (org : Organization) (sub : OrganizationSubscription) (e : EntitlementPayload)
    (db' : Database)
    → Found db org_id org sub
    → input.outcome ≡ outcome_paid
    → verify_subscription_payment json db now org_id input actor ≡ returns e db'
    → (3 ≤ e.term_months → e.can_export_data ≡ true)
      × (e.term_months ≡ 1
          → period_start_at (resolve_expires_at sub) now ≡ now
          → days_in_month (month_and_day (now / ms_per_day)).0 ≤ 30
          → e.can_export_data ≡ false)
unfolding to_entitlement resolve_expires_at settlement
verify_subscription_payment-exports json db now org_id input actor org sub e db' found is_paid h =
    let (org1, sub1, payment, found1, _, marked) =
      verify_paid-returns json db now org_id input actor e db' is_paid h in
    let same_sub = sub_unique db org_id org org1 sub sub1 found found1 in
    let (_, _, same_e) =
      mark_paid-returns json db now org_id org1 sub1 payment input actor e db' found1 marked in
    let s = the_settlement json db now org_id org1 sub1 payment input actor in
    let start = period_start_at (resolve_expires_at sub1) now in
    let export_is : not (is_export_locked (some (pos (add_months start s.term_months))) (pos now))
        ≡ e.can_export_data =
      ap (λ (p : EntitlementPayload). p.can_export_data) same_e in
    let term_is : e.term_months ≡ s.term_months =
      sym (ap (λ (p : EntitlementPayload). p.term_months) same_e) ∙ search normalize_idempotent in
    (
      λ long.
          sym export_is
          ∙ ap not (
              long_term_unlocked start now s.term_months
                (start_not_past (resolve_expires_at sub1) now) (omega (arith, term_is, long))),
      λ one over short.
          let from_now : start ≡ now =
            ap (λ (o : OrganizationSubscription). period_start_at (resolve_expires_at o) now)
              (sym same_sub)
            ∙ over in
          let one_month : add_months start s.term_months ≡ add_months now 1 =
            ap (λ k. add_months k s.term_months) from_now
            ∙ ap (add_months now) (sym term_is ∙ one) in
          sym export_is
          ∙ ap (λ t. not (is_export_locked (some (pos t)) (pos now))) one_month
          ∙ ap not (short_month_locked now short),
    )

-- ===== src/Limits/Tests.antt =====
-- Tests of src/lib/subscription-lock.ts, src/lib/pagination.ts and src/lib/referral-eligibility.ts.
use prime_detailer_backend.Base.{true, ◌≡◌, refl, none, some, arith}
use prime_detailer_backend.Base.Int.{pos, ◌-ℤ◌}
use prime_detailer_backend.Base.Text.{decimal, parse_int, is_blank}
use prime_detailer_backend.Limits.SubscriptionLock.{
  unlocked, export_locked, expired, ceil_days, days_until_expiry, grace_or_lock_status,
  is_export_locked, term_label_from_months, normalize_term_months,
}
use prime_detailer_backend.Limits.Pagination.{query_number, parse_pagination}
use prime_detailer_backend.Limits.Referral.{ReferralInput, IsLater, is_new_customer_for_referral}

limits : Unit {0}
unfolding decimal parse_int is_blank ceil_days days_until_expiry grace_or_lock_status
    is_export_locked term_label_from_months normalize_term_months query_number parse_pagination
    is_new_customer_for_referral ◌-ℤ◌
limits = tt

-- An hour after the expiry the subscription is locked, a day after it is expired.
around_expiry :
    (grace_or_lock_status (some (pos 0)) (pos 3600000) ≡ export_locked)
    × (grace_or_lock_status (some (pos 0)) (pos 86400000) ≡ expired)
    × (grace_or_lock_status (some (pos 2592000001)) (pos 0) ≡ unlocked)
unfolding limits
around_expiry = (refl, refl, refl)

labels :
    (term_label_from_months 24 ≡ "2 years")
    × (term_label_from_months 18 ≡ "18 months")
    × (normalize_term_months (some 18) ≡ 12)
unfolding limits
labels = (refl, refl, refl)

pages : parse_pagination (some "3x") (some "500") ≡ (3, 100)
unfolding limits
pages = refl

abbrev newcomer : ReferralInput
newcomer = record {
  created_at = some (pos 1000);
  total_visits = 0;
  referred_by = none;
  other_invoice_count = 0;
  other_job_card_count = none;
}

abbrev visitor : ReferralInput
visitor = record newcomer { total_visits = 1 }

newcomer-IsLater : IsLater newcomer visitor
newcomer-IsLater = record {
  invoices_grow = omega arith;
  job_cards_grow = omega arith;
  visits_grow = omega arith;
  same_referrer = refl;
  same_date = refl;
}

visitor_accepted : is_new_customer_for_referral visitor (pos 172801000) ≡ true
unfolding limits
visitor_accepted = refl

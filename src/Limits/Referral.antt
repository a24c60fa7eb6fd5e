-- ===== src/Limits/Referral.antt =====
-- Who may use a referral code, src/lib/referral-eligibility.ts. Times are milliseconds; a date that
-- cannot be read is `none`.
use prime_detailer_backend.Base.{
  ℕ, ◌≤◌, String, Bool, true, false, not, ◌||◌, ◌≡◌, sym, Option, none, some, if◌then◌else◌, ltb,
  or_else, arith,
}
use prime_detailer_backend.Base.Int.{ℤ, pos, ◌-ℤ◌, ◌≤ℤ◌, leb_ℤ, int_laws}
use prime_detailer_backend.Base.Text.{is_blank}

abbrev pub referral_new_customer_window_ms : ℤ
referral_new_customer_window_ms = pos 172800000

pub record ReferralInput : Type 0 where
  pub created_at : Option ℤ
  pub total_visits : ℕ
  pub referred_by : Option String
  pub other_invoice_count : ℕ
  pub other_job_card_count : Option ℕ

abbrev is_recent : Option ℤ → ℤ → Bool
is_recent none now = false
is_recent (some created) now = leb_ℤ (now -ℤ created) referral_new_customer_window_ms

unfoldable pub is_new_customer_for_referral : ReferralInput → ℤ → Bool
is_new_customer_for_referral input now =
    if ltb 0 input.other_invoice_count
    then false
    else if ltb 0 (or_else input.other_job_card_count 0)
    then false
    else if ltb 1 input.total_visits
    then false
    else if not (is_blank (or_else input.referred_by ""))
    then true
    else is_recent input.created_at now

-- `true` where it throws.
unfoldable pub assert_new_customer_referral_allowed : ReferralInput → ℤ → Bool
unfolding is_new_customer_for_referral
assert_new_customer_referral_allowed input now = not (is_new_customer_for_referral input now)

unfoldable pub should_allow_new_invoice_referral : Bool → Bool → Bool → Bool
should_allow_new_invoice_referral payload_carries_referral previous_carries_referral
      is_new_customer =
    if not payload_carries_referral
    then true
    else if previous_carries_referral
    then true
    else is_new_customer

-- One customer later: no count has gone down and neither the referrer nor the date has changed.
pub record IsLater (old new : ReferralInput) : Type 0 where
  pub invoices_grow : old.other_invoice_count ≤ new.other_invoice_count
  pub job_cards_grow : or_else old.other_job_card_count 0 ≤ or_else new.other_job_card_count 0
  pub visits_grow : old.total_visits ≤ new.total_visits
  pub same_referrer : new.referred_by ≡ old.referred_by
  pub same_date : new.created_at ≡ old.created_at

is_recent-earlier :
    (created : Option ℤ) (now later : ℤ)
    → now ≤ℤ later
    → is_recent created later ≡ true
    → is_recent created now ≡ true
is_recent-earlier none now later h r = r
is_recent-earlier (some created) now later h r =
    let close : later -ℤ created ≤ℤ pos 172800000 = ground arith in
    let closer : now -ℤ created ≤ℤ pos 172800000 = omega int_laws in ground arith

-- The conditions of a new customer.
abbrev MeetsConditions : ReferralInput → ℤ → Type 0
MeetsConditions input now =
    (input.other_invoice_count ≤ 0)
    × (or_else input.other_job_card_count 0 ≤ 0)
    × (input.total_visits ≤ 1)
    × ((not (is_blank (or_else input.referred_by "")) || is_recent input.created_at now) ≡ true)

conditions_of_new_customer :
    (input : ReferralInput) (now : ℤ)
    → is_new_customer_for_referral input now ≡ true
    → MeetsConditions input now
unfolding is_new_customer_for_referral
conditions_of_new_customer input now h = (ground arith, ground arith, ground arith, ground arith)

new_customer_of_conditions :
    (input : ReferralInput) (now : ℤ)
    → MeetsConditions input now
    → is_new_customer_for_referral input now ≡ true
unfolding is_new_customer_for_referral
new_customer_of_conditions input now (invoices, job_cards, visits, reason) = ground arith

reason-earlier :
    (referred : Bool) (created : Option ℤ) (now later : ℤ)
    → now ≤ℤ later
    → (referred || is_recent created later) ≡ true
    → (referred || is_recent created now) ≡ true
reason-earlier true created now later h r = r
reason-earlier false created now later h r = is_recent-earlier created now later h r

-- Who has ceased to be a new customer never becomes one again: a later acceptance implies that the
-- customer would have been accepted before.
pub is_new_customer_for_referral_anti :
    (old new : ReferralInput) (now later : ℤ)
    → IsLater old new
    → now ≤ℤ later
    → is_new_customer_for_referral new later ≡ true
    → is_new_customer_for_referral old now ≡ true
is_new_customer_for_referral_anti old new now later h passed ok =
    let (invoices, job_cards, visits, reason) = conditions_of_new_customer new later ok in
    let same_reason : (not (is_blank (or_else old.referred_by ""))
          || is_recent old.created_at later)
        ≡ true =
      rw (sym h.same_referrer) (rw (sym h.same_date) reason) in
    new_customer_of_conditions old now (
      omega (arith, h.invoices_grow),
      omega (arith, h.job_cards_grow),
      omega (arith, h.visits_grow),
      reason-earlier (not (is_blank (or_else old.referred_by ""))) old.created_at now later passed
          same_reason,
    )

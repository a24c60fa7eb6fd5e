-- ===== src/Subscription/Bills.antt =====
-- The lists of payments and bills of an organisation.
use prime_detailer_backend.Base.{
  ℕ, zero, suc, String, Option, none, some, List, [], ◌∷◌, filter, find, if◌then◌else◌, leb, map,
  or_else,
}
use prime_detailer_backend.Base.Int.{ℤ, pos}
use prime_detailer_backend.Base.Text.{str_eq}
use prime_detailer_backend.Base.Assoc.{or_first}
use mathlib.Core.Option
use prime_detailer_backend.Subscription.Records.{
  Database, SubscriptionBill, SubscriptionPayment, SubscriptionPaymentStatus,
}
use prime_detailer_backend.Subscription.Renewal.{SubscriptionPaymentRow, bill_of_org, map_payment}

module _ {ℓ} {A : Type ℓ} (created_at : A → ℕ) where
  -- One more row before those that were created no later.
  abbrev pub insert_newest : A → List A → List A
  insert_newest x [] = x ∷ []
  insert_newest x (y ∷ ys) =
      if leb (created_at y) (created_at x) then x ∷ (y ∷ ys) else y ∷ insert_newest x ys

  -- `orderBy: { createdAt: "desc" }`
  abbrev pub newest_first : List A → List A
  newest_first [] = []
  newest_first (x ∷ xs) = insert_newest x (newest_first xs)

-- `take: count`
abbrev pub take {ℓ} : {A : Type ℓ} → ℕ → List A → List A
take zero xs = []
take (suc count) [] = []
take (suc count) (x ∷ xs) = x ∷ take count xs

unfoldable pub list_subscription_payments : Database → String → List SubscriptionPaymentRow
unfolding map_payment
list_subscription_payments db organization_id = map map_payment (
    take 50 (
      newest_first (λ (p : SubscriptionPayment). p.created_at)
        (filter (λ (p : SubscriptionPayment). str_eq p.organization_id organization_id)
          db.subscription_payments)))

pub record SubscriptionBillRow : Type 0 where
  pub bill_number : String
  pub plan_name : String
  pub term_months : ℕ
  pub term_label : String
  pub period_start : ℕ
  pub period_end : ℕ
  pub base_amount : ℤ
  pub extra_branch_cost : ℤ
  pub extra_user_cost : ℤ
  pub extra_branches : ℕ
  pub extra_users : ℕ
  pub onboarding_fee : ℤ
  pub referral_discount : ℤ
  pub gst_percent : ℤ
  pub gst_amount : ℤ
  pub payment_status : Option SubscriptionPaymentStatus
  pub txn_reference : Option String
  pub amount : Option ℤ
  pub total_amount : ℤ
  pub currency : String
  pub created_at : ℕ

-- `include: { payment: … }`
unfoldable pub payment_of_bill : Database → SubscriptionBill → Option SubscriptionPayment
payment_of_bill db b = elim b.payment_id [
  | none ↦ none
  | some id ↦ find (λ (p : SubscriptionPayment). str_eq p.id id) db.subscription_payments
]

abbrev txn_of : Option SubscriptionPayment → Option String
txn_of none = none
txn_of (some p) = p.txn_reference

abbrev status_of : Option SubscriptionPayment → Option SubscriptionPaymentStatus
status_of payment = Option.map (λ (p : SubscriptionPayment). p.status) payment

-- A bill is told apart by its number, which is unique in the organisation.
unfoldable pub map_bill : SubscriptionBill → Option SubscriptionPayment → SubscriptionBillRow
map_bill b payment = record {
  bill_number = b.bill_number;
  plan_name = b.plan_name;
  term_months = b.term_months;
  term_label = b.term_label;
  period_start = b.period_start;
  period_end = b.period_end;
  base_amount = or_else b.base_amount (pos 0);
  extra_branch_cost = or_else b.extra_branch_cost (pos 0);
  extra_user_cost = or_else b.extra_user_cost (pos 0);
  extra_branches = or_else b.extra_branches 0;
  extra_users = or_else b.extra_users 0;
  onboarding_fee = or_else b.onboarding_fee (pos 0);
  referral_discount = or_else b.referral_discount (pos 0);
  gst_percent = or_else b.gst_percent (pos 0);
  gst_amount = or_else b.gst_amount (pos 0);
  payment_status = status_of payment;
  txn_reference = txn_of payment;
  amount = b.amount;
  total_amount = or_else (or_first b.total_amount b.amount) (pos 0);
  currency = b.currency;
  created_at = b.created_at;
}

-- The fifty newest bills of an organisation.
unfoldable pub newest_bills : Database → String → List SubscriptionBill
newest_bills db organization_id = take 50 (
    newest_first (λ (b : SubscriptionBill). b.created_at)
      (filter (bill_of_org organization_id) db.subscription_bills))

unfoldable pub list_subscription_bills : Database → String → List SubscriptionBillRow
unfolding newest_bills map_bill payment_of_bill
list_subscription_bills db organization_id =
    map (λ b. map_bill b (payment_of_bill db b)) (newest_bills db organization_id)

pub record SubscriptionRenewalHistoryRow : Type 0 where
  pub bill_number : String
  pub previous_expiry : ℕ
  pub new_expiry : ℕ
  pub term_months : ℕ
  pub term_label : String
  pub amount : ℤ
  pub gst_amount : ℤ
  pub payment_status : Option SubscriptionPaymentStatus
  pub txn_reference : Option String
  pub renewal_date : ℕ

unfoldable pub renewal_row :
    SubscriptionBill → Option SubscriptionPayment → SubscriptionRenewalHistoryRow
renewal_row b payment = record {
  bill_number = b.bill_number;
  previous_expiry = b.period_start;
  new_expiry = b.period_end;
  term_months = b.term_months;
  term_label = b.term_label;
  amount = or_else (or_first b.total_amount b.amount) (pos 0);
  gst_amount = or_else b.gst_amount (pos 0);
  payment_status = status_of payment;
  txn_reference = txn_of payment;
  renewal_date = b.created_at;
}

unfoldable pub list_subscription_renewal_history :
    Database → String → List SubscriptionRenewalHistoryRow
unfolding newest_bills renewal_row payment_of_bill
list_subscription_renewal_history db organization_id =
    map (λ b. renewal_row b (payment_of_bill db b)) (newest_bills db organization_id)

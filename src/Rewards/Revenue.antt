-- ===== src/Rewards/Revenue.antt =====
-- The data of src/lib/company-target-engine.ts, its revenue and its role keys. A time is the value of
-- `getTime()`; `none` stands for an invalid date.
use prime_detailer_backend.Base.{
  ℕ, String, Bool, false, ◌&&◌, ◌||◌, Option, none, some, List, [], ◌∷◌, map, if◌then◌else◌, ◌==◌,
  filter,
}
use prime_detailer_backend.Base.Int.{ℤ, leb_ℤ}
use prime_detailer_backend.Base.Money.{round2, sum}
use prime_detailer_backend.Base.Text.{codes, codes_eq, trim, upper, lower, is_space}

pub record CompanyTargetTier : Type 0 where
  pub target_amount : ℤ
  pub reward_percent : ℤ
  pub role : String

pub record RevenueInvoice : Type 0 where
  pub id : String
  pub status : String
  pub grand_total : ℤ
  pub created_at : Option ℤ

pub record EligibleStaffCandidate : Type 0 where
  pub id : String
  pub role : String
  pub is_active : Bool
  pub joining_date : Option String

pub record RoleTierBreakdown : Type 0 where
  pub role : String
  pub tier_index : ℕ
  pub target_amount : ℤ
  pub reward_percent : ℤ
  pub achieved : Bool
  pub pool : ℤ
  pub eligible_staff_count : ℕ
  pub share_per_staff : ℤ

unfoldable pub is_valid_revenue_invoice : String → Bool
unfolding lower
is_valid_revenue_invoice status =
    let is = λ (name : String). codes_eq (lower status) (codes name) in
    is "issued" || is "partial" || is "partially_paid" || is "paid"

-- `t >= from && t <= to`, which an invalid date fails.
abbrev pub is_within : ℤ → ℤ → Option ℤ → Bool
is_within from to none = false
is_within from to (some t) = leb_ℤ from t && leb_ℤ t to

unfoldable pub filter_revenue_invoices : List RevenueInvoice → ℤ → ℤ → List RevenueInvoice
filter_revenue_invoices invoices period_start period_end =
    filter
      (λ inv.
        is_valid_revenue_invoice inv.status && is_within period_start period_end inv.created_at)
      invoices

unfoldable pub calc_revenue : List RevenueInvoice → ℤ
calc_revenue invoices = round2 (sum (map (λ inv. inv.grand_total) invoices))

-- A run of white space and dashes becomes one underscore.
abbrev is_separator : ℕ → Bool
is_separator c = is_space c || c == b'-'

collapse : Bool → List ℕ → List ℕ
unfolding is_space
collapse in_run [] = []
collapse in_run (c ∷ cs) =
    let rest = collapse (is_separator c) cs in
    if is_separator c then (if in_run then rest else b'_' ∷ rest) else c ∷ rest

-- By its code points; the roles are ASCII.
unfoldable pub normalize_role_key : String → List ℕ
unfolding collapse upper trim
normalize_role_key role = collapse false (upper (trim role))

-- ===== src/JobCard/Guard.antt =====
-- The pricing guard, src/lib/job-card-pricing-guard.ts. A number that is not finite counts as
-- missing, as it does in numEq; 0.001 is ten ten-thousandths.
use prime_detailer_backend.Base.{
  String, Bool, true, false, not, ◌&&◌, ◌||◌, Option, none, some, List, [], ◌∷◌, if◌then◌else◌,
  or_else,
}
use prime_detailer_backend.Base.Int.{ℤ, pos, ◌-ℤ◌, abs, ltb_ℤ}
use prime_detailer_backend.Base.Text.{str_eq}
use prime_detailer_backend.Base.Assoc.{entry, by_key}

-- A line of the services.
pub record ServiceLine : Type 0 where
  pub id : Option String
  pub service_catalog_id : Option String
  pub price : Option ℤ
  pub is_custom_price : Option Bool
  pub price_source : Option String

pub record JobCardLike : Type 0 where
  pub job_status : Option String
  pub services : Option (List ServiceLine)
  pub high_end_advance_amount_inr : Option ℤ
  pub high_end_advance_hint_percent : Option ℤ
  pub waive_high_end_advance : Option Bool
  pub high_end_advance_collected_at : Option String
  pub high_end_advance_method : Option String
  pub high_end_advance_reference : Option String

unfoldable pub num_eq : Option ℤ → Option ℤ → Bool
num_eq none none = true
num_eq none (some b) = false
num_eq (some a) none = false
num_eq (some a) (some b) = ltb_ℤ (abs (a -ℤ b)) (pos 10)

-- `s || rest`
abbrev or_text : Option String → String → String
or_text none rest = rest
or_text (some s) rest = if str_eq s "" then rest else s

unfoldable pub service_line_key : ServiceLine → String
service_line_key s = or_text s.id (or_text s.service_catalog_id "")

abbrev is_closed : Option String → Bool
is_closed none = false
is_closed (some status) = str_eq status "DELIVERED" || str_eq status "CANCELLED"

unfoldable pub job_card_pricing_editable : Option String → Bool → Bool
job_card_pricing_editable status has_invoice = if is_closed status then false else not has_invoice

-- `Boolean(a) !== Boolean(b)`
abbrev pub bool_differs : Option Bool → Option Bool → Bool
bool_differs a b = if or_else a false then not (or_else b false) else or_else b false

-- `String(a ?? "") !== String(b ?? "")`
abbrev pub text_differs : Option String → Option String → Bool
text_differs a b = not (str_eq (or_else a "") (or_else b ""))

-- The keys TOP_KEYS.
unfoldable pub top_differs : JobCardLike → JobCardLike → Bool
unfolding num_eq
top_differs prev next =
    not (num_eq prev.high_end_advance_amount_inr next.high_end_advance_amount_inr)
    || not (num_eq prev.high_end_advance_hint_percent next.high_end_advance_hint_percent)
    || bool_differs prev.waive_high_end_advance next.waive_high_end_advance
    || text_differs prev.high_end_advance_collected_at next.high_end_advance_collected_at
    || text_differs prev.high_end_advance_method next.high_end_advance_method
    || text_differs prev.high_end_advance_reference next.high_end_advance_reference

abbrev pub is_custom_source : ServiceLine → Bool
is_custom_source s = str_eq (or_else s.price_source "") "CUSTOM"

abbrev pub is_custom : ServiceLine → Bool
is_custom s = or_else s.is_custom_price false

-- A line of the new card against the line of the same key of the old one.
unfoldable pub line_differs : Option ServiceLine → ServiceLine → Bool
unfolding num_eq
line_differs none n = is_custom n || is_custom_source n
line_differs (some p) n =
    not (num_eq p.price n.price)
    || bool_differs p.is_custom_price n.is_custom_price
    || (text_differs p.price_source n.price_source
        && (is_custom_source n || is_custom_source p || is_custom n || is_custom p))

unfoldable pub any_line_differs : List (String × ServiceLine) → List (String × ServiceLine) → Bool
unfolding line_differs
any_line_differs prev [] = false
any_line_differs prev ((key, n) ∷ next) =
    line_differs (entry key prev) n || any_line_differs prev next

unfoldable pub job_card_has_pricing_delta : JobCardLike → JobCardLike → Bool
unfolding top_differs any_line_differs service_line_key
job_card_has_pricing_delta prev next =
    top_differs prev next
    || any_line_differs (by_key service_line_key (or_else prev.services []) [])
        (by_key service_line_key (or_else next.services []) [])

pub data JobCardPricingWriteDecision : Type 0 where
  allowed : JobCardPricingWriteDecision
  missing_permission : JobCardPricingWriteDecision
  status_or_invoice_lock : JobCardPricingWriteDecision

unfoldable pub evaluate_job_card_pricing_write :
    Bool → JobCardLike → JobCardLike → Bool → JobCardPricingWriteDecision
unfolding job_card_has_pricing_delta job_card_pricing_editable
evaluate_job_card_pricing_write has_pricing_permission prev next has_invoice =
    if not (job_card_has_pricing_delta prev next)
    then allowed
    else if not has_pricing_permission
    then missing_permission
    else if not (job_card_pricing_editable prev.job_status has_invoice)
    then status_or_invoice_lock
    else allowed

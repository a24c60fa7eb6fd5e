-- ===== src/Pricing/Plan.antt =====
-- The limits of a plan, src/lib/plan-catalog.ts. A number is read as an amount is, so that
-- `Math.floor` divides by ten thousand; `none` is the code's `null`: no limit.
use prime_detailer_backend.Base.{
  ℕ, zero, suc, ◌/◌, ◌≤◌, Bool, true, false, Option, none, some, if◌then◌else◌, ltb, or_else, arith,
  List, [], ◌∷◌, any, ◌==◌, String, ◌||◌,
}
use prime_detailer_backend.Base.Text.{trim, upper, is_space}
use prime_detailer_backend.Base.Int.{ℤ, pos, negsuc}

pub record PlanLimits : Type 0 where
  pub max_branches : Option ℕ
  pub max_staff : Option ℕ
  pub max_customers : Option ℕ

-- The limits of DEFAULT_PLAN_CATALOG, by the code of the plan: PLAN_CATALOG.
abbrev pub plan_catalog_limits : List (String × PlanLimits)
plan_catalog_limits =
    ("STARTER", record { max_branches = some 1; max_staff = some 3; max_customers = none })
    ∷ ("GROWTH", record { max_branches = some 3; max_staff = some 10; max_customers = none })
    ∷ ("BUSINESS", record { max_branches = some 10; max_staff = some 25; max_customers = none })
    ∷ ("ENTERPRISE", record { max_branches = none; max_staff = none; max_customers = none })
    ∷ ("CUSTOM", record { max_branches = some 1; max_staff = some 3; max_customers = none })
    ∷ []

-- `replace(/[\s-]+/g, "_")`: the separators of a run, of which `inside` says whether one is open.
underscored : Bool → List ℕ → List ℕ
unfolding is_space
underscored inside [] = []
underscored inside (c ∷ cs) =
    let rest = underscored true cs in
    let after = underscored false cs in
    if is_space c || c == b'-' then (if inside then rest else b'_' ∷ rest) else c ∷ after

-- A plan code is compared by its code points.
unfoldable pub normalize_plan_code : String → List ℕ
unfolding underscored
normalize_plan_code raw = underscored false (upper (trim raw))

abbrev pub all_term_months : List ℕ
all_term_months = 1 ∷ 3 ∷ 12 ∷ 24 ∷ 36 ∷ 60 ∷ []

abbrev pub has_term : List ℕ → ℕ → Bool
has_term terms term_months = any (λ t. t == term_months) terms

-- `list` is the list that is given, unless it is missing or empty.
abbrev terms_or_default : Option (List ℕ) → List ℕ
terms_or_default (some (t ∷ ts)) = t ∷ ts
terms_or_default terms = all_term_months

unfoldable pub is_allowed_term : ℕ → Option (List ℕ) → Bool
is_allowed_term term_months allowed = has_term (terms_or_default allowed) term_months

-- `Math.max(0, Math.floor(x))`
abbrev pub floor_zero : ℤ → ℕ
floor_zero (pos n) = n / 10000
floor_zero (negsuc n) = 0

abbrev override : Option ℤ → Option ℕ → Option ℕ
override none limit = limit
override (some max) limit = some (floor_zero max)

unfoldable pub effective_max_branches : PlanLimits → Option ℤ → Option ℕ
effective_max_branches limits max_branches_override =
    override max_branches_override limits.max_branches

unfoldable pub effective_max_users : PlanLimits → Option ℤ → Option ℕ
effective_max_users limits max_users_override = override max_users_override limits.max_staff

unfoldable pub is_unlimited : Option ℕ → Bool
is_unlimited none = true
is_unlimited (some max) = false

unfoldable pub can_create_with_limit : ℕ → Option ℕ → Bool
unfolding is_unlimited
can_create_with_limit used max = if is_unlimited max then true else ltb used (or_else max 0)

-- The number after creating as often as it is allowed: one at a time, `attempts` times.
unfoldable pub create_up_to : ℕ → Option ℕ → ℕ → ℕ
unfolding can_create_with_limit
create_up_to zero max used = used
create_up_to (suc attempts) max used =
    create_up_to attempts max (if can_create_with_limit used max then suc used else used)

-- However often one tries to create, the number never passes the limit, if it was within it.
pub create_up_to_bounds :
    (attempts max used : ℕ) → used ≤ max → create_up_to attempts (some max) used ≤ max
unfolding create_up_to can_create_with_limit is_unlimited
create_up_to_bounds zero max used h = h
create_up_to_bounds (suc attempts) max used h =
    create_up_to_bounds attempts max
      (if can_create_with_limit used (some max) then suc used else used) (ground arith)

-- ===== src/Subscription/PaidUntil.antt =====
-- The service as a clock for each organisation that says until when it has paid: every sequence of
-- calls moves the clock as this abstract view says.
use prime_detailer_backend.Base.{
  ℕ, ◌≡◌, ◌≢◌, refl, ap, ◌∙◌, sym, subst, String, Bool, true, false, Option, none, some, List, [],
  ◌∷◌, Option-cases, inl, inr,
}
use mathlib.Core.Option
use prime_detailer_backend.Pricing.Plan.{all_term_months, has_term}
use prime_detailer_backend.Subscription.Calendar.{add_months}
use prime_detailer_backend.Subscription.Records.{
  Database, Failure, Organization, OrganizationSubscription, Result, throws,
}
use prime_detailer_backend.Subscription.Entitlement.{
  find_organization, resolve_expires_at, subscribed,
}
use prime_detailer_backend.Subscription.Patch.{found_or, with_subscription}
use prime_detailer_backend.Subscription.Settlement.{
  PaymentOutcome, outcome_failed, outcome_paid, period_start_at,
}
use prime_detailer_backend.Subscription.Rows.{Found, Found-subscribed, subscribed-Found}
use prime_detailer_backend.Subscription.Calls.{
  Call, call_mark_paid, call_patch, call_request, call_verify, has_returned, organization_of,
  state_after,
}

-- Until when an organisation has paid: the inner `none` is for ever, the outer one stands for no
-- subscription.
abbrev pub paid_until : Database → String → Option (Option ℕ)
paid_until db id =
    Option.map (λ (found : Organization × OrganizationSubscription). resolve_expires_at found.1)
      (subscribed (find_organization db id))

-- How a clock may move: not at all, on by a term from its end or from now on, or to an end that is
-- set.
pub data Effect : Type 0 where
  keep : Effect
  pay : ℕ → ℕ → Effect
  set_end : Option ℕ → Effect

abbrev pub moved : Effect → Option ℕ → Option ℕ
moved keep until = until
moved (pay now term) until = some (add_months (period_start_at until now) term)
moved (set_end e) until = e

-- A payment: it moves the clock by a term that is sold.
abbrev pub Pays : ℕ → Effect → Type 0
Pays now effect = (term : ℕ) × (has_term all_term_months term ≡ true) × (effect ≡ pay now term)

-- A patch sets the end that it was given, if any.
abbrev pub Patches : Option (Option ℕ) → Effect → Type 0
Patches none effect = effect ≡ keep
Patches (some e) effect = effect ≡ set_end e

abbrev pub Verifies : PaymentOutcome → ℕ → Effect → Type 0
Verifies outcome_paid now effect = Pays now effect
Verifies outcome_failed now effect = effect ≡ keep

-- The effect that a call must have, by whether it returned: one that threw moves nothing, a payment
-- that is paid pays, a patch with an end sets it, and every other call moves nothing.
abbrev pub MustHave : Bool → Call → Effect → Type 0
MustHave false call effect = effect ≡ keep
MustHave true (call_patch now id actor input) effect = Patches input.expires_at effect
MustHave true (call_request now new_id id actor opts) effect = effect ≡ keep
MustHave true (call_verify now id actor input) effect = Verifies input.outcome now effect
MustHave true (call_mark_paid now new_id id actor opts) effect = Pays now effect

-- What the calls make of the clock of an organisation, each with whether it returned.
pub data Clock (id : String)
    : List (Call × Bool) → Option (Option ℕ) → Option (Option ℕ) → Type 0 where
  ended : {x : Option (Option ℕ)} → Clock id [] x x
  own_call :
      {call : Call} {returned : Bool} {calls : List (Call × Bool)} {x y : Option (Option ℕ)}
      (effect : Effect)
      → organization_of call ≡ id
      → MustHave returned call effect
      → Clock id calls (Option.map (moved effect) x) y
      → Clock id ((call, returned) ∷ calls) x y
  other_call :
      {call : Call} {returned : Bool} {calls : List (Call × Bool)} {x y : Option (Option ℕ)}
      → organization_of call ≢ id
      → Clock id calls x y
      → Clock id ((call, returned) ∷ calls) x y

-- The clock moved by an effect of this kind, which depends on whether the call returned.
abbrev pub Moves : {A : Type 0} → (Bool → Effect → Type 0) → String → Database → Result A → Type 0
Moves P id db r =
    (effect : Effect) × P (has_returned r) effect
    × (paid_until (state_after r) id ≡ Option.map (moved effect) (paid_until db id))

map-keep : (x : Option (Option ℕ)) → x ≡ Option.map (moved keep) x
map-keep none = refl
map-keep (some x) = refl

pub Moves-stay :
    (A : Type 0) (P : Bool → Effect → Type 0) (id : String) (db : Database) (failure : Failure)
    → P false keep
    → Moves {A = A} P id db (throws failure db)
Moves-stay A P id db failure h = (keep, h, map-keep (paid_until db id))

pub paid_until-Found :
    (db : Database) (id : String) (org : Organization) (sub : OrganizationSubscription)
    → Found db id org sub
    → paid_until db id ≡ some (resolve_expires_at sub)
paid_until-Found db id org sub found =
    ap
      (Option.map (λ (found : Organization × OrganizationSubscription). resolve_expires_at found.1))
      (Found-subscribed db id org sub found)

pub Moves-Found :
    {A : Type 0} (P : Bool → Effect → Type 0) (id : String) (db : Database) (r : Result A)
    (org org' : Organization) (sub sub' : OrganizationSubscription) (effect : Effect)
    → has_returned r ≡ true
    → Found db id org sub
    → Found (state_after r) id org' sub'
    → P true effect
    → resolve_expires_at sub' ≡ moved effect (resolve_expires_at sub)
    → Moves P id db r
Moves-Found P id db r org org' sub sub' effect done found found' must h = (
  effect,
  subst (λ b. P b effect) (sym done) must,
  paid_until-Found (state_after r) id org' sub' found'
      ∙ ap some h
      ∙ sym (ap (Option.map (moved effect)) (paid_until-Found db id org sub found)),
)

-- A call that finds no organisation moves nothing.
pub with_subscription-Moves :
    (A : Type 0) (P : Bool → Effect → Type 0) (db : Database) (id : String) (missing : Failure)
    (body : Organization → OrganizationSubscription → Result A)
    → P false keep
    → ((org : Organization) (sub : OrganizationSubscription)
        → Found db id org sub
        → Moves P id db (body org sub))
    → Moves P id db (with_subscription db id missing body)
with_subscription-Moves A P db id missing body stays h =
    elim (Option-cases (subscribed (find_organization db id))) [
      | inl none_there ↦
          subst (λ found. Moves P id db (found_or db missing body found)) (sym none_there)
            (Moves-stay A P id db missing stays)
      | inr ((org, sub), there) ↦
          subst (λ found. Moves P id db (found_or db missing body found)) (sym there)
            (h org sub (subscribed-Found db id org sub there))
    ]

-- ===== src/Subscription/Calls.antt =====
-- The calls of the service that change subscriptions, and sequences of them.
use prime_detailer_backend.Base.{ℕ, String, Bool, true, false, List, [], ◌∷◌}
use prime_detailer_backend.Subscription.Records.{Database, Result, returns, throws}
use prime_detailer_backend.Subscription.Patch.{
  PatchSubscriptionInput, patch_organization_subscription,
}
use prime_detailer_backend.Subscription.Notes.{BreakdownJson}
use prime_detailer_backend.Subscription.Renewal.{RenewalOptions, request_subscription_renewal}
use prime_detailer_backend.Subscription.Settlement.{VerifyPaymentInput}
use prime_detailer_backend.Subscription.Verify.{verify_subscription_payment}
use prime_detailer_backend.Subscription.MarkPaid.{MarkPaidOptions, admin_mark_subscription_paid}

-- The database when a call has ended, by a value or an exception.
abbrev pub state_after : {A : Type 0} → Result A → Database
state_after (returns a db) = db
state_after (throws failure db) = db

-- Whether a call has returned a value.
abbrev pub has_returned : {A : Type 0} → Result A → Bool
has_returned (returns a db) = true
has_returned (throws failure db) = false

-- Each call with its time, the id that the database gives a new row, the organisation, the actor and
-- what was sent.
pub data Call : Type 0 where
  call_patch : ℕ → String → String → PatchSubscriptionInput → Call
  call_request : ℕ → String → String → String → RenewalOptions → Call
  call_verify : ℕ → String → String → VerifyPaymentInput → Call
  call_mark_paid : ℕ → String → String → String → MarkPaidOptions → Call

abbrev pub organization_of : Call → String
organization_of (call_patch now org_id actor input) = org_id
organization_of (call_request now new_id org_id actor opts) = org_id
organization_of (call_verify now org_id actor input) = org_id
organization_of (call_mark_paid now new_id org_id actor opts) = org_id

unfoldable pub run : BreakdownJson → Database → Call → Database
unfolding patch_organization_subscription request_subscription_renewal verify_subscription_payment
    admin_mark_subscription_paid
run json db (call_patch now org_id actor input) =
    state_after (patch_organization_subscription db now org_id input actor)
run json db (call_request now new_id org_id actor opts) =
    state_after (request_subscription_renewal json db now new_id org_id actor opts)
run json db (call_verify now org_id actor input) =
    state_after (verify_subscription_payment json db now org_id input actor)
run json db (call_mark_paid now new_id org_id actor opts) =
    state_after (admin_mark_subscription_paid json db now new_id org_id actor opts)

unfoldable pub run_all : BreakdownJson → Database → List Call → Database
unfolding run
run_all json db [] = db
run_all json db (call ∷ calls) = run_all json (run json db call) calls

unfoldable pub succeeds : BreakdownJson → Database → Call → Bool
unfolding patch_organization_subscription request_subscription_renewal verify_subscription_payment
    admin_mark_subscription_paid
succeeds json db (call_patch now org_id actor input) =
    has_returned (patch_organization_subscription db now org_id input actor)
succeeds json db (call_request now new_id org_id actor opts) =
    has_returned (request_subscription_renewal json db now new_id org_id actor opts)
succeeds json db (call_verify now org_id actor input) =
    has_returned (verify_subscription_payment json db now org_id input actor)
succeeds json db (call_mark_paid now new_id org_id actor opts) =
    has_returned (admin_mark_subscription_paid json db now new_id org_id actor opts)

-- Each call of a sequence with whether it returned where it was made.
unfoldable pub outcomes : BreakdownJson → Database → List Call → List (Call × Bool)
unfolding run succeeds
outcomes json db [] = []
outcomes json db (call ∷ calls) =
    (call, succeeds json db call) ∷ outcomes json (run json db call) calls

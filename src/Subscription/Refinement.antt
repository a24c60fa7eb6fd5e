-- ===== src/Subscription/Refinement.antt =====
-- Each call moves the clock of its organisation as the abstract view says.
use prime_detailer_backend.Base.{
  ℕ, ◌≡◌, ◌≢◌, refl, ap, ◌∙◌, sym, subst, String, Bool, true, false, Option, none, some, List, [],
  ◌∷◌, ◌==◌, Bool-cases, inl, inr,
}
use prime_detailer_backend.Base.Text.{str_eq}
use text.Mathlib.TextEquality.{eq_iff}
use mathlib.Core.Option
use prime_detailer_backend.Limits.SubscriptionLock.{normalize_term_months}
use prime_detailer_backend.Pricing.Plan.{all_term_months, has_term}
use prime_detailer_backend.Subscription.Records.{
  Database, Organization, OrganizationSubscription, SubscriptionPayment,
}
use prime_detailer_backend.Subscription.Entitlement.{
  EntitlementPayload, resolve_expires_at, subscribed,
}
use prime_detailer_backend.Subscription.Patch.{org_not_found, update_subscription}
use prime_detailer_backend.Subscription.Notes.{BreakdownJson}
use prime_detailer_backend.Subscription.Settlement.{outcome_failed, outcome_paid}
use prime_detailer_backend.Subscription.Rows.{Found, update_subscription-Found}
use prime_detailer_backend.Subscription.Calls.{
  Call, call_mark_paid, call_patch, call_request, call_verify, organization_of, outcomes, run,
  run_all, succeeds,
}
use prime_detailer_backend.Subscription.Verify.{verify_subscription_payment}
use prime_detailer_backend.Subscription.MarkPaid.{
  MarkPaidOptions, admin_mark_subscription_paid, choose_payment, mark_chosen, mark_paid_input,
  open_payment, set_term,
}
use prime_detailer_backend.Subscription.History.{run_all-SameFor}
use prime_detailer_backend.Subscription.PaidUntil.{
  Clock, Effect, MustHave, Moves, Patches, Verifies, set_end, ended, keep, moved, other_call,
  own_call, paid_until, paid_until-Found, pay, with_subscription-Moves,
}
use prime_detailer_backend.Subscription.Moves.{patch-Moves, verify-Moves, request-Moves}

-- The clock does not show the term of a subscription.
set_term-paid_until :
    (db : Database) (id : String) (term : Option ℕ) (org : Organization)
    (sub : OrganizationSubscription)
    → Found db id org sub
    → paid_until (set_term term id db) id ≡ paid_until db id
unfolding set_term resolve_expires_at
set_term-paid_until db id none org sub found = refl
set_term-paid_until db id (some term) org sub found = elim (Bool-cases (term == 0)) [
  | inl zero_term ↦ rw zero_term refl
  | inr given ↦
      let f = λ (s : OrganizationSubscription). record s {
        term_months = normalize_term_months (some term);
      } in
      rw given (
        paid_until-Found (update_subscription id f db) id
          (record org { subscription = some (f sub) }) (f sub)
          (update_subscription-Found db id f org sub found)
        ∙ sym (paid_until-Found db id org sub found))
]

paid-ne-failed : outcome_paid ≡ outcome_failed → ⊥
paid-ne-failed e = cc

mark_paid_call-Moves :
    (P : Bool → Effect → Type 0) (json : BreakdownJson) (db : Database) (now : ℕ)
    (new_id id actor : String) (opts : MarkPaidOptions)
    → P false keep
    → ((term : ℕ) → has_term all_term_months term ≡ true → P true (pay now term))
    → Moves P id db (admin_mark_subscription_paid json db now new_id id actor opts)
unfolding admin_mark_subscription_paid mark_chosen
mark_paid_call-Moves P json db now new_id id actor opts fails pays =
    with_subscription-Moves EntitlementPayload P db id org_not_found _ fails
      λ org sub found. by_open org sub found (open_payment db id)
  where
    verified :
        (payment_id : String) (chosen : Database) (org : Organization)
        (sub : OrganizationSubscription)
        → Found chosen id org sub
        → Moves P id chosen (
            verify_subscription_payment json
              (set_term opts.term_months id chosen)
              now
              id
              (mark_paid_input opts payment_id)
              actor)
    verified payment_id chosen org sub found =
        let (effect, must, e) =
          verify-Moves P json (set_term opts.term_months id chosen) now id
            (mark_paid_input opts payment_id) actor fails (λ failed. absurd (paid-ne-failed failed))
            (λ term paid sold. pays term sold) in
        (
          effect,
          must,
          e
              ∙ ap (Option.map (moved effect))
                  (set_term-paid_until chosen id opts.term_months org sub found),
        )

    by_open :
        (org : Organization) (sub : OrganizationSubscription)
        → Found db id org sub
        → (payment : Option SubscriptionPayment)
        → Moves P id db (
            mark_chosen json now id actor opts
              (choose_payment db now new_id id sub opts actor payment))
    by_open org sub found (some payment) = verified payment.id db org sub found
    by_open org sub found none =
        verified new_id (choose_payment db now new_id id sub opts actor none).1 org sub found

-- A call moves the clock of its organisation by the effect that it must have.
run-Moves :
    (json : BreakdownJson) (db : Database) (call : Call)
    → (effect : Effect) × MustHave (succeeds json db call) call effect
      × (paid_until (run json db call) (organization_of call)
          ≡ Option.map (moved effect) (paid_until db (organization_of call)))
unfolding run succeeds
run-Moves json db (call_patch now id actor input) =
    patch-Moves (λ b. MustHave b (call_patch now id actor input)) db now id input actor refl
      (λ none_given. subst (λ g. Patches g keep) (sym none_given) refl)
      (λ e given. subst (λ g. Patches g (set_end e)) (sym given) refl)
run-Moves json db (call_request now new_id id actor opts) =
    request-Moves (λ b. MustHave b (call_request now new_id id actor opts)) json db now new_id id
      actor opts refl refl
run-Moves json db (call_verify now id actor input) =
    verify-Moves (λ b. MustHave b (call_verify now id actor input)) json db now id input actor refl
      (λ failed. subst (λ o. Verifies o now keep) (sym failed) refl)
      (λ term is_paid sold.
        subst (λ o. Verifies o now (pay now term)) (sym is_paid) (term, sold, refl))
run-Moves json db (call_mark_paid now new_id id actor opts) =
    mark_paid_call-Moves (λ b. MustHave b (call_mark_paid now new_id id actor opts)) json db now
      new_id id actor opts refl (λ term sold. (term, sold, refl))

run-other :
    (json : BreakdownJson) (db : Database) (call : Call) (id : String)
    → organization_of call ≢ id
    → paid_until (run json db call) id ≡ paid_until db id
unfolding run_all
run-other json db call id apart =
    ap
      (λ found.
        Option.map (λ (f : Organization × OrganizationSubscription). resolve_expires_at f.1)
          (subscribed found))
      (run_all-SameFor json db (call ∷ []) id (apart, tt)).0

-- Any sequence of calls moves the time until which an organisation has paid exactly as an abstract
-- clock does: a call of its own that throws, a request, a failed payment and a patch without an end
-- leave it; a verification as paid and a mark as paid, where they return, move it on by a term that
-- is sold, from its end or from now on; a patch with an end sets it; calls about others leave it.
pub run_all-Clock :
    (json : BreakdownJson) (calls : List Call) (db : Database) (id : String)
    → Clock id (outcomes json db calls) (paid_until db id) (paid_until (run_all json db calls) id)
unfolding run_all outcomes
run_all-Clock json [] db id = ended
run_all-Clock json (call ∷ calls) db id =
    let after = run json db call in
    let rest = run_all-Clock json calls after id in
    let calls' = outcomes json after calls in
    elim (Bool-cases (str_eq (organization_of call) id)) [
      | inl own ↦
          let same = (eq_iff (organization_of call) id).0 own in
          let (effect, must, e) = run-Moves json db call in
          let e' =
            subst (λ i. paid_until after i ≡ Option.map (moved effect) (paid_until db i)) same e in
          own_call effect same must
            (subst (λ x. Clock id calls' x (paid_until (run_all json after calls) id)) e' rest)
      | inr other ↦
          let apart = λ (e : organization_of call ≡ id). differs e other in
          other_call apart (
            subst (λ x. Clock id calls' x (paid_until (run_all json after calls) id))
              (run-other json db call id apart) rest)
    ]
  where
    differs : organization_of call ≡ id → str_eq (organization_of call) id ≡ false → ⊥
    differs e other = let own = (eq_iff (organization_of call) id).1 e in cc

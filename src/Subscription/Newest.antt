-- ===== src/Subscription/Newest.antt =====
-- The newest of the payments of an organisation, and what marking one of them leaves as it is.
use prime_detailer_backend.Base.{
  ℕ, ◌≤◌, ◌≡◌, ◌≢◌, refl, ap, ◌∙◌, String, Bool, true, ◌&&◌, Option, none, some, List, [], ◌∷◌,
  ◌++◌, All, filter, filter-append, find, arith,
}
use prime_detailer_backend.Base.Text.{str_eq}
use text.Mathlib.TextEquality.{eq_iff}
use prime_detailer_backend.Subscription.Records.{Database, SubscriptionPayment}
use prime_detailer_backend.Subscription.MarkPaid.{newest}
use prime_detailer_backend.Subscription.MarkPaid.{set_term}
use prime_detailer_backend.Base.{Bool-cases, ◌==◌, inl, inr}

module _ (test : SubscriptionPayment → Bool) (payment : SubscriptionPayment) where
  newest-last :
      (ps : List SubscriptionPayment)
      → All (λ (p : SubscriptionPayment). p.created_at ≤ payment.created_at) ps
      → newest (ps ++ (payment ∷ [])) ≡ some payment
  newest-last [] h = refl
  newest-last (p ∷ ps) h = ground (arith, newest-last ps h.1, h.0)

  earlier_filter :
      (ps : List SubscriptionPayment)
      → All (λ (p : SubscriptionPayment). p.created_at ≤ payment.created_at) ps
      → All (λ (p : SubscriptionPayment). p.created_at ≤ payment.created_at) (filter test ps)
  earlier_filter [] h = tt
  earlier_filter (p ∷ ps) h = ground (arith, earlier_filter ps h.1, h.0)

  -- A payment that is inserted last is the newest of its kind.
  pub newest-filter-last :
      (ps : List SubscriptionPayment)
      → All (λ (p : SubscriptionPayment). p.created_at ≤ payment.created_at) ps
      → test payment ≡ true
      → newest (filter test (ps ++ (payment ∷ []))) ≡ some payment
  newest-filter-last ps h passes =
      let kept : filter test (ps ++ (payment ∷ [])) ≡ filter test ps ++ (payment ∷ []) =
        filter-append test ps (payment ∷ []) ∙ rw passes refl in
      ap newest kept ∙ newest-last (filter test ps) (earlier_filter ps h)

pub find_fresh :
    (ps : List SubscriptionPayment) (id org_id : String)
    → All (λ (p : SubscriptionPayment). p.id ≢ id) ps
    → find (λ (p : SubscriptionPayment). str_eq p.id id && str_eq p.organization_id org_id) ps
      ≡ none
find_fresh [] id org_id h = refl
find_fresh (p ∷ ps) id org_id h = ground (arith, find_fresh ps id org_id h.1, h.0, eq_iff p.id id)

pub set_term-rows :
    (term : Option ℕ) (id : String) (db : Database)
    → ((set_term term id db).subscription_payments ≡ db.subscription_payments)
      × ((set_term term id db).subscription_bills ≡ db.subscription_bills)
unfolding set_term
set_term-rows none id db = (refl, refl)
set_term-rows (some term) id db = elim (Bool-cases (term == 0)) [
  | inl zero_term ↦ rw zero_term (refl, refl)
  | inr given ↦ rw given (refl, refl)
]

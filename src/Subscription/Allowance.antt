-- ===== src/Subscription/Allowance.antt =====
-- What an organisation may create under its plan.
use prime_detailer_backend.Base.{
  ℕ, ◌≡◌, ◌<◌, ◌⊎◌, ◌↔◌, refl, ap, ◌∙◌, or_else, sym, subst, String, Bool, true, false, ◌&&◌,
  Option, none, some, Bool-cases, inl, inr, arith,
}
use prime_detailer_backend.Base.Assoc.{entry}
use mathlib.Core.Option
use prime_detailer_backend.Pricing.Plan.{
  PlanLimits, can_create_with_limit, effective_max_branches, effective_max_users, is_unlimited,
  plan_catalog_limits,
}
use prime_detailer_backend.Subscription.Records.{
  Database, Organization, OrganizationSubscription, Result, app_http_error, returns, throws,
}
use prime_detailer_backend.Subscription.Entitlement.{
  EntitlementPayload, assert_can_create_branch, checked, count_active_users_for_org,
  count_branches_for_org, entitlement_now, normalized_limits_for_subscription,
  get_entitlement_for_org, number, status_ok, to_entitlement,
}
use prime_detailer_backend.Subscription.Patch.{
  PatchSubscriptionInput, org_not_found, patch_by, patch_organization_subscription, patched,
  template_for,
}
use prime_detailer_backend.Subscription.Calls.{state_after}
use prime_detailer_backend.Subscription.Extension.{returns_parts}
use prime_detailer_backend.Subscription.Rows.{
  Found, Found-subscribed, update_subscription-Found, with_subscription-returns,
}

-- Nothing is used up yet: no limit at all, or fewer than it.
abbrev pub IsBelow : ℕ → Option ℕ → Type 0
IsBelow used none = Unit
IsBelow used (some max) = used < max

can_create_iff :
    (used : ℕ) (max : Option ℕ) → (can_create_with_limit used max ≡ true) ↔ IsBelow used max
unfolding can_create_with_limit is_unlimited
can_create_iff used none = (λ h. tt, λ h. refl)
can_create_iff used (some max) = ground arith

-- The limit for branches: the override, or the limit of the plan.
abbrev pub branch_limit : OrganizationSubscription → Option ℕ
branch_limit sub = elim sub.max_branches_override [
  | none ↦ sub.limits.max_branches
  | some max ↦ some max
]

effective_branches :
    (sub : OrganizationSubscription) (limits : PlanLimits)
    → limits.max_branches ≡ sub.limits.max_branches
    → effective_max_branches limits (Option.map number sub.max_branches_override) ≡ branch_limit sub
unfolding effective_max_branches
effective_branches sub limits same = by_override sub.max_branches_override
  where
    by_override :
        (given : Option ℕ)
        → effective_max_branches limits (Option.map number given)
          ≡ (elim given [ none ↦ sub.limits.max_branches | some max ↦ some max ])
    by_override none = same
    by_override (some max) = ap some (omega arith)

and_iff : (a b : Bool) → ((a && b) ≡ true) ↔ ((a ≡ true) × (b ≡ true))
and_iff a b = ground arith

-- A check that passes or fails by a test of the entitlement.
abbrev pub Verdict :
    Database → EntitlementPayload → String → Type 0 → Result EntitlementPayload → Type 0
Verdict db e code Allowed r =
    (Allowed × (r ≡ returns e db)) ⊎ (¬ Allowed × (r ≡ throws (app_http_error 403 code) db))

checked-Verdict :
    (db : Database) (test : EntitlementPayload → Bool) (code : String) (e : EntitlementPayload)
    (Allowed : Type 0)
    → (test e ≡ true) ↔ Allowed
    → Verdict db e code Allowed (checked db test (app_http_error 403 code) (some e))
checked-Verdict db test code e Allowed (sound, complete) = elim (Bool-cases (test e)) [
  | inl passes ↦ inl (sound passes, rw passes refl)
  | inr fails ↦ inr (λ allowed. differs (complete allowed) fails, rw fails refl)
]
  where
    differs : test e ≡ true → test e ≡ false → ⊥
    differs passes fails = cc

entitlement-Found :
    (db : Database) (now : ℕ) (id : String) (org : Organization) (sub : OrganizationSubscription)
    → Found db id org sub
    → get_entitlement_for_org db now id ≡ some (entitlement_now db now org sub)
unfolding get_entitlement_for_org
entitlement-Found db now id org sub found =
    ap
      (Option.map (λ (f : Organization × OrganizationSubscription). entitlement_now db now f.0 f.1))
      (Found-subscribed db id org sub found)

-- A branch may be created exactly if the subscription is active or past due and the branches are
-- fewer than the override or, without one, than the limit of the plan; otherwise the call fails with
-- 403. Either way nothing is written.
pub assert_can_create_branch-Verdict :
    (db : Database) (now : ℕ) (id : String) (org : Organization) (sub : OrganizationSubscription)
    → Found db id org sub
    → Verdict db
        (entitlement_now db now org sub)
        "BRANCH_LIMIT_REACHED"
        ((status_ok sub.status ≡ true)
          × IsBelow (count_branches_for_org db org.id) (branch_limit sub))
        (assert_can_create_branch db now id)
unfolding assert_can_create_branch to_entitlement
assert_can_create_branch-Verdict db now id org sub found =
    let e = entitlement_now db now org sub in
    let used = count_branches_for_org db org.id in
    let room = can_create_iff used e.effective_max_branches in
    let both =
      and_iff (status_ok sub.status) (can_create_with_limit used e.effective_max_branches) in
    let limit : e.effective_max_branches ≡ branch_limit sub =
      effective_branches sub e.limits refl in
    subst
      (λ o.
        Verdict db e "BRANCH_LIMIT_REACHED"
          ((status_ok sub.status ≡ true) × IsBelow used (branch_limit sub))
          (checked db (λ p. p.can_create_branch) (app_http_error 403 "BRANCH_LIMIT_REACHED") o))
      (sym (entitlement-Found db now id org sub found))
      (checked-Verdict db (λ p. p.can_create_branch) "BRANCH_LIMIT_REACHED" e
        ((status_ok sub.status ≡ true) × IsBelow used (branch_limit sub))
        (
          λ t.
              let (in_force, below) = both.0 t in
              (in_force, subst (IsBelow used) limit (room.0 below)),
          λ allowed. both.1 (allowed.0, room.1 (subst (IsBelow used) (sym limit) allowed.1)),
        ))

-- Where the stored limits say unlimited staff, and without an override, the limit of the catalogue
-- holds.
to_entitlement-staff_capped :
    (org : Organization) (sub : OrganizationSubscription) (branches users now limit : ℕ)
    (template : PlanLimits)
    → entry sub.plan_code plan_catalog_limits ≡ some template
    → template.max_staff ≡ some limit
    → sub.limits.max_staff ≡ none
    → sub.max_users_override ≡ none
    → (to_entitlement org sub branches users now).effective_max_users ≡ some limit
unfolding to_entitlement normalized_limits_for_subscription effective_max_users
to_entitlement-staff_capped org sub branches users now limit template listed capped unlimited
      open_seats =
    rw (open_seats, unlimited, listed) capped

-- The stored limits are unlimited staff, the entitlement has this limit.
abbrev pub IsCapped : String → ℕ → EntitlementPayload → Database → Type 0
IsCapped id limit e db =
    (org : Organization) × (sub : OrganizationSubscription) × Found db id org sub
    × (sub.limits.max_staff ≡ none)
    × (e.effective_max_users ≡ some limit)

-- The staff limit of a plan of the built-in catalogue cannot be lifted: a patch that moves an
-- organisation to such a plan with unlimited staff and no override stores unlimited staff, but the
-- entitlement that it returns has the limit of the catalogue.
pub patch_organization_subscription-IsCapped :
    (db : Database) (now : ℕ) (id : String) (input : PatchSubscriptionInput) (actor : String)
    (e : EntitlementPayload) (db' : Database) (limits template : PlanLimits) (code : String)
    (limit : ℕ)
    → patch_organization_subscription db now id input actor ≡ returns e db'
    → input.plan_code ≡ some code
    → input.limits ≡ some limits
    → limits.max_staff ≡ none
    → input.max_users_override ≡ some none
    → entry code plan_catalog_limits ≡ some template
    → template.max_staff ≡ some limit
    → IsCapped id limit e db'
unfolding patch_organization_subscription patch_by patched
patch_organization_subscription-IsCapped db now id input actor e db' limits template code limit h
      coded given unlimited cleared listed capped =
    let (org, sub, found, ran) = with_subscription-returns db id org_not_found _ e db' h in
    let updated = patched input none sub in
    let done =
      sym
        (ap (λ l. patch_by db now id org sub input actor (template_for db input.plan_code l)) given)
      ∙ ran in
    let after = state_after (patch_by db now id org sub input actor (some none)) in
    let (same_e, same_db) =
      returns_parts (entitlement_now after now org updated) e after db' done in
    let org' = record org { subscription = some updated } in
    let there : Found after id org' updated =
      update_subscription-Found db id (λ _. updated) org sub found in
    let staff : updated.limits.max_staff ≡ none =
      ap (λ (l : Option PlanLimits). (or_else l sub.limits).max_staff) given ∙ unlimited in
    let seats : updated.max_users_override ≡ none =
      ap (λ (o : Option (Option ℕ)). or_else o sub.max_users_override) cleared in
    let planned : entry updated.plan_code plan_catalog_limits ≡ some template =
      ap (λ (c : Option String). entry (or_else c sub.plan_code) plan_catalog_limits) coded
      ∙ listed in
    (
      org',
      updated,
      subst (λ d. Found d id org' updated) same_db there,
      staff,
      sym (ap (λ (p : EntitlementPayload). p.effective_max_users) same_e)
          ∙ to_entitlement-staff_capped org updated (count_branches_for_org after org.id)
              (count_active_users_for_org after org.id) now limit template planned capped staff
              seats,
    )

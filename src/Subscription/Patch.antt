-- ===== src/Subscription/Patch.antt =====
-- getPlanTemplate of src/lib/platform-settings.ts and patchOrganizationSubscription, with the updates
-- of a subscription that the other operations share.
use prime_detailer_backend.Base.{
  ℕ, String, Option, none, some, [], ◌∷◌, ◌++◌, find, or_else, update_where,
}
use prime_detailer_backend.Base.Text.{unless_empty, str_eq, codes, codes_eq}
use prime_detailer_backend.Access.Gate.{SubscriptionStatus}
use prime_detailer_backend.Limits.SubscriptionLock.{normalize_term_months}
use prime_detailer_backend.Pricing.Plan.{PlanLimits, normalize_plan_code}
use prime_detailer_backend.Subscription.Records.{
  AuditDetails, Database, Failure, Organization, OrganizationSubscription, Result,
  SubscriptionPaymentStatus, app_http_error, returns, subscription_terms, throws,
  DynamicPlanDefinition,
}
use prime_detailer_backend.Subscription.Entitlement.{
  EntitlementPayload, entitlement_now, find_organization, resolve_expires_at, subscribed,
}
use mathlib.Core.Option

-- `prisma.organization.update({ where: { id }, data })`
abbrev pub update_organization : String → (Organization → Organization) → Database → Database
update_organization organization_id f db = record db {
  organizations =
      update_where (λ (o : Organization). str_eq o.id organization_id) f db.organizations;
}

-- `prisma.organizationSubscription.update({ where: { organizationId }, data })`
abbrev pub update_subscription :
    String → (OrganizationSubscription → OrganizationSubscription) → Database → Database
update_subscription organization_id f db =
    update_organization organization_id
      (λ (o : Organization). record o { subscription = Option.map f o.subscription }) db

-- `prisma.platformAuditLog.create({ data })`
abbrev pub log_audit : String → String → String → AuditDetails → AuditDetails → Database → Database
log_audit organization_id actor action before after db = record db {
  platform_audit_logs =
      db.platform_audit_logs
      ++ (record {
        organization_id = organization_id;
        actor = actor;
        action = action;
        before = before;
        after = after;
      }
          ∷ []);
}

unfoldable pub get_plan_template : Database → String → Option DynamicPlanDefinition
unfolding normalize_plan_code
get_plan_template db code =
    find (λ (p : DynamicPlanDefinition). codes_eq (codes p.plan_code) (normalize_plan_code code))
      db.plan_catalog

-- A field that may be missing is an option; one that may also be null, an option of an option.
pub record PatchSubscriptionInput : Type 0 where
  pub plan_code : Option String
  pub plan_name : Option String
  pub status : Option SubscriptionStatus
  pub limits : Option PlanLimits
  pub max_branches_override : Option (Option ℕ)
  pub max_users_override : Option (Option ℕ)
  pub contact_us_url : Option (Option String)
  pub contact_phone : Option (Option String)
  pub upgrade_url : Option (Option String)
  pub term_months : Option ℕ
  pub starts_at : Option (Option ℕ)
  pub expires_at : Option (Option ℕ)
  pub payment_status : Option SubscriptionPaymentStatus
  pub last_payment_txn_id : Option (Option String)

-- The template of a new plan: none is needed if the input has no code, or an empty one, or its own
-- limits. The outer `none` is the unknown plan.
abbrev template_of_code : Database → Option String → Option (Option DynamicPlanDefinition)
template_of_code db none = some none
template_of_code db (some code) = Option.map some (get_plan_template db code)

abbrev pub template_for :
    Database → Option String → Option PlanLimits → Option (Option DynamicPlanDefinition)
template_for db code (some limits) = some none
template_for db code none = template_of_code db (unless_empty code)

-- The name that is given, even an empty one; where a template was needed, its name stands for an
-- empty one.
abbrev next_plan_name : Option DynamicPlanDefinition → Option String → String → String
next_plan_name none given old = or_else given old
next_plan_name (some template) given old = or_else (unless_empty given) template.plan_name

abbrev template_limits : Option DynamicPlanDefinition → Option PlanLimits
template_limits template = Option.map (λ (p : DynamicPlanDefinition). p.limits) template

-- The subscription as the update leaves it.
unfoldable pub patched :
    PatchSubscriptionInput
    → Option DynamicPlanDefinition
    → OrganizationSubscription
    → OrganizationSubscription
unfolding resolve_expires_at normalize_term_months
patched input template sub =
    let next_expires = or_else input.expires_at (resolve_expires_at sub) in
    record sub {
      plan_code = or_else input.plan_code sub.plan_code;
      plan_name = next_plan_name template input.plan_name sub.plan_name;
      status = or_else input.status sub.status;
      limits = or_else (template_limits template) (or_else input.limits sub.limits);
      max_branches_override = or_else input.max_branches_override sub.max_branches_override;
      max_users_override = or_else input.max_users_override sub.max_users_override;
      contact_us_url = or_else input.contact_us_url sub.contact_us_url;
      contact_phone = or_else input.contact_phone sub.contact_phone;
      upgrade_url = or_else input.upgrade_url sub.upgrade_url;
      term_months = normalize_term_months (some (or_else input.term_months sub.term_months));
      starts_at = or_else input.starts_at sub.starts_at;
      expires_at = next_expires;
      current_period_end = next_expires;
      payment_status = or_else input.payment_status sub.payment_status;
      last_payment_txn_id = or_else input.last_payment_txn_id sub.last_payment_txn_id;
    }

abbrev terms_of : OrganizationSubscription → ℕ → AuditDetails
terms_of sub term_months =
    subscription_terms sub.plan_code sub.status (resolve_expires_at sub) sub.payment_status
      term_months

abbrev pub org_not_found : Failure
org_not_found = app_http_error 404 "ORG_NOT_FOUND"

abbrev pub found_or :
    {A : Type 0}
    → Database
    → Failure
    → (Organization → OrganizationSubscription → Result A)
    → Option (Organization × OrganizationSubscription)
    → Result A
found_or db missing body none = throws missing db
found_or db missing body (some (org, sub)) = body org sub

-- The organisation and its subscription, or the exception that there is none.
abbrev pub with_subscription :
    {A : Type 0}
    → Database
    → String
    → Failure
    → (Organization → OrganizationSubscription → Result A)
    → Result A
with_subscription db organization_id missing body =
    found_or db missing body (subscribed (find_organization db organization_id))

-- The update, its entry in the audit log and the entitlement after it.
abbrev pub commit_patch :
    ℕ
    → String
    → Organization
    → OrganizationSubscription
    → OrganizationSubscription
    → String
    → Database
    → Result EntitlementPayload
commit_patch now org_id org sub updated actor db =
    let after =
      log_audit org_id actor "subscription.patch" (terms_of sub sub.term_months)
        (terms_of updated updated.term_months) (update_subscription org_id (λ _. updated) db) in
    returns (entitlement_now after now org updated) after

unfoldable pub patch_by :
    Database
    → ℕ
    → String
    → Organization
    → OrganizationSubscription
    → PatchSubscriptionInput
    → String
    → Option (Option DynamicPlanDefinition)
    → Result EntitlementPayload
unfolding patched
patch_by db now org_id org sub input actor none = throws (app_http_error 400 "UNKNOWN_PLAN") db
patch_by db now org_id org sub input actor (some template) =
    commit_patch now org_id org sub (patched input template sub) actor db

unfoldable pub patch_organization_subscription :
    Database → ℕ → String → PatchSubscriptionInput → String → Result EntitlementPayload
unfolding patch_by
patch_organization_subscription db now org_id input actor =
    with_subscription db org_id org_not_found (λ org sub.
      patch_by db now org_id org sub input actor (template_for db input.plan_code input.limits))

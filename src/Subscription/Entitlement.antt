-- ===== src/Subscription/Entitlement.antt =====
-- toEntitlement, the usage of an organisation and the checks before a branch or a user is created.
use prime_detailer_backend.Base.{
  ℕ, ◌*◌, String, Bool, true, false, not, ◌&&◌, Option, none, some, length, filter, find,
  if◌then◌else◌,
}
use prime_detailer_backend.Base.Int.{ℤ, pos}
use prime_detailer_backend.Base.Text.{str_eq}
use prime_detailer_backend.Base.Assoc.{entry, or_first}
use prime_detailer_backend.Access.Gate.{SubscriptionStatus, active, past_due}
use prime_detailer_backend.Access.Role.{UserRole, platform_owner, mechanic}
use prime_detailer_backend.Limits.SubscriptionLock.{
  GraceOrLockStatus, days_until_expiry, grace_or_lock_status, is_export_locked,
  normalize_term_months,
}
use prime_detailer_backend.Pricing.Plan.{
  PlanLimits, plan_catalog_limits, effective_max_branches, effective_max_users,
  can_create_with_limit, is_unlimited,
}
use prime_detailer_backend.Subscription.Records.{
  Database, Failure, app_http_error, Organization, OrganizationSubscription, Result, returns,
  throws, SubscriptionPaymentStatus,
}
use mathlib.Core.Option

pub record EntitlementPayload : Type 0 where
  pub organization_id : String
  pub organization_name : String
  pub organization_slug : Option String
  pub plan_code : String
  pub plan_name : String
  pub status : SubscriptionStatus
  pub limits : PlanLimits
  pub max_branches_override : Option ℕ
  pub effective_max_branches : Option ℕ
  pub max_users_override : Option ℕ
  pub effective_max_users : Option ℕ
  pub contact_us_url : Option String
  pub contact_phone : Option String
  pub upgrade_url : Option String
  pub current_period_end : Option ℕ
  pub term_months : ℕ
  pub starts_at : Option ℕ
  pub expires_at : Option ℕ
  pub payment_status : SubscriptionPaymentStatus
  pub last_payment_txn_id : Option String
  pub days_remaining : Option ℤ
  pub grace_or_lock : GraceOrLockStatus
  pub export_locked : Bool
  pub branches_used : ℕ
  pub users_used : ℕ
  pub can_create_branch : Bool
  pub can_export_data : Bool

unfoldable pub resolve_expires_at : OrganizationSubscription → Option ℕ
resolve_expires_at sub = or_first sub.expires_at sub.current_period_end

-- `parsed.maxStaff ?? template?.maxStaff`
abbrev or_template : Option ℕ → (PlanLimits → Option ℕ) → Option PlanLimits → Option ℕ
or_template (some limit) field_of template = some limit
or_template none field_of none = none
or_template none field_of (some template) = field_of template

unfoldable pub normalized_limits_for_subscription : OrganizationSubscription → PlanLimits
normalized_limits_for_subscription sub =
    let template = entry sub.plan_code plan_catalog_limits in
    record {
      max_branches = sub.limits.max_branches;
      max_staff = or_template sub.limits.max_staff (λ limits. limits.max_staff) template;
      max_customers =
          or_template sub.limits.max_customers (λ limits. limits.max_customers) template;
    }

-- A natural number, as the amounts are read.
abbrev pub number : ℕ → ℤ
number n = pos (n * 10000)

-- `status === "ACTIVE" || status === "PAST_DUE"`
abbrev pub status_ok : SubscriptionStatus → Bool
status_ok active = true
status_ok past_due = true
status_ok status = false

abbrev time : ℕ → ℤ
time t = pos t

unfoldable pub to_entitlement :
    Organization → OrganizationSubscription → ℕ → ℕ → ℕ → EntitlementPayload
unfolding resolve_expires_at normalized_limits_for_subscription
to_entitlement org sub branches_used users_used now =
    let limits = normalized_limits_for_subscription sub in
    let max = effective_max_branches limits (Option.map number sub.max_branches_override) in
    let max_users = effective_max_users limits (Option.map number sub.max_users_override) in
    let expires_at = resolve_expires_at sub in
    let locked = is_export_locked (Option.map time expires_at) (pos now) in
    record {
      organization_id = org.id;
      organization_name = org.name;
      organization_slug = org.slug;
      plan_code = sub.plan_code;
      plan_name = sub.plan_name;
      status = sub.status;
      limits = limits;
      max_branches_override = sub.max_branches_override;
      effective_max_branches = max;
      max_users_override = sub.max_users_override;
      effective_max_users = max_users;
      contact_us_url = sub.contact_us_url;
      contact_phone = sub.contact_phone;
      upgrade_url = sub.upgrade_url;
      current_period_end = expires_at;
      term_months = normalize_term_months (some sub.term_months);
      starts_at = sub.starts_at;
      expires_at = expires_at;
      payment_status = sub.payment_status;
      last_payment_txn_id = sub.last_payment_txn_id;
      days_remaining = days_until_expiry (Option.map time expires_at) (pos now);
      grace_or_lock = grace_or_lock_status (Option.map time expires_at) (pos now);
      export_locked = locked;
      branches_used = branches_used;
      users_used = users_used;
      can_create_branch = status_ok sub.status && can_create_with_limit branches_used max;
      can_export_data = not locked;
    }

unfoldable pub count_branches_for_org : Database → String → ℕ
count_branches_for_org db organization_id = length (filter (str_eq organization_id) db.branches)

-- `role: { notIn: [...NON_BILLABLE_USER_ROLES] }`
abbrev is_billable : UserRole → Bool
is_billable platform_owner = false
is_billable mechanic = false
is_billable role = true

unfoldable pub count_active_users_for_org : Database → String → ℕ
count_active_users_for_org db organization_id = length (
    filter (λ u. str_eq u.organization_id organization_id && (u.is_active && is_billable u.role))
      db.users)

-- `prisma.organization.findUnique({ where: { id } })`
abbrev pub find_organization : Database → String → Option Organization
find_organization db organization_id =
    find (λ (o : Organization). str_eq o.id organization_id) db.organizations

-- `findUnique` with the subscription included, and `org?.subscription`.
abbrev pub subscribed : Option Organization → Option (Organization × OrganizationSubscription)
subscribed none = none
subscribed (some org) = Option.map (λ sub. (org, sub)) org.subscription

abbrev pub entitlement_now :
    Database → ℕ → Organization → OrganizationSubscription → EntitlementPayload
entitlement_now db now org sub =
    to_entitlement org sub (count_branches_for_org db org.id) (count_active_users_for_org db org.id)
      now

unfoldable pub get_entitlement_for_org : Database → ℕ → String → Option EntitlementPayload
unfolding to_entitlement count_branches_for_org count_active_users_for_org
get_entitlement_for_org db now organization_id =
    Option.map (λ (org, sub). entitlement_now db now org sub)
      (subscribed (find_organization db organization_id))

abbrev missing : Failure
missing = app_http_error 403 "SUBSCRIPTION_MISSING"

abbrev pub checked :
    Database
    → (EntitlementPayload → Bool)
    → Failure
    → Option EntitlementPayload
    → Result EntitlementPayload
checked db test failure none = throws missing db
checked db test failure (some entitlement) =
    if test entitlement then returns entitlement db else throws failure db

unfoldable pub assert_can_create_branch : Database → ℕ → String → Result EntitlementPayload
unfolding get_entitlement_for_org
assert_can_create_branch db now organization_id =
    checked db (λ e. e.can_create_branch) (app_http_error 403 "BRANCH_LIMIT_REACHED")
      (get_entitlement_for_org db now organization_id)

-- No limit, or room under it.
abbrev pub has_user_seat : EntitlementPayload → Bool
has_user_seat e =
    if is_unlimited e.effective_max_users
    then true
    else can_create_with_limit e.users_used e.effective_max_users

unfoldable pub assert_can_create_user : Database → ℕ → String → Result EntitlementPayload
unfolding get_entitlement_for_org
assert_can_create_user db now organization_id =
    checked db has_user_seat (app_http_error 403 "USER_LIMIT_REACHED")
      (get_entitlement_for_org db now organization_id)

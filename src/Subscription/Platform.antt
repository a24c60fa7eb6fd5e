-- ===== src/Subscription/Platform.antt =====
-- What the platform sees of the organisations, and the default organisation of an installation:
-- loadPlatformOrgExtrasMap, withPlatformOrgExtras, ensureDefaultOrganization.
use prime_detailer_backend.Base.{
  ℕ, String, true, false, Option, none, some, List, [], ◌∷◌, ◌++◌, find, length, if◌then◌else◌, leb,
  or_else, is_some,
}
use prime_detailer_backend.Base.Text.{str_eq, trim}
use prime_detailer_backend.Base.Assoc.{or_first}
use mathlib.Core.Option
use prime_detailer_backend.Json
use prime_detailer_backend.Json.{Json, as_string, fields_of}
use prime_detailer_backend.Access.Gate.{active}
use prime_detailer_backend.Limits.SubscriptionLock.{normalize_term_months}
use prime_detailer_backend.Subscription.Calendar.{add_months}
use prime_detailer_backend.Subscription.Records.{
  Database, Organization, OrganizationSubscription, paid,
}
use prime_detailer_backend.Subscription.Entitlement.{find_organization}
use prime_detailer_backend.Subscription.Patch.{update_organization}

-- The rows that the queries return, in their orders: the owners and the branches by id, the entries
-- of the audit log on the provisioning by time.
pub record Owner : Type 0 where
  pub id : String
  pub name : String
  pub email : Option String
  pub phone : Option String
  pub organization_id : String

pub record BranchName : Type 0 where
  pub organization_id : String
  pub name : String

pub record ProvisionAudit : Type 0 where
  pub organization_id : Option String
  pub after : Json

pub record PlatformOrgExtras : Type 0 where
  pub owner_name : Option String
  pub owner_email : Option String
  pub owner_phone : Option String
  pub owner_user_id : Option String
  pub primary_branch_name : Option String
  pub signup_source : Option String
  pub referral_code : Option String

-- `typeof v === "string" && v.trim() ? v.trim() : null`
abbrev trimmed_string : Option String → Option String
trimmed_string none = none
trimmed_string (some s) = if str_eq (trim s) "" then none else some (trim s)

abbrev note_of : String → Option ProvisionAudit → Option String
note_of key audit = elim audit [
  | none ↦ none
  | some a ↦ trimmed_string (as_string (Json.get key (fields_of a.after)))
]

-- The first row of each kind that is of the organisation.
unfoldable pub platform_org_extras :
    List Owner → List BranchName → List ProvisionAudit → String → PlatformOrgExtras
unfolding trim
platform_org_extras owners branches audits org_id =
    let owner = find (λ (u : Owner). str_eq u.organization_id org_id) owners in
    let branch = find (λ (b : BranchName). str_eq b.organization_id org_id) branches in
    let audit =
      find
        (λ (a : ProvisionAudit).
          or_else (Option.map (λ id. str_eq id org_id) a.organization_id) false)
        audits in
    record {
      owner_name = Option.map (λ (u : Owner). u.name) owner;
      owner_email = elim owner [ none ↦ none | some u ↦ u.email ];
      owner_phone = elim owner [ none ↦ none | some u ↦ u.phone ];
      owner_user_id = Option.map (λ (u : Owner). u.id) owner;
      primary_branch_name = Option.map (λ (b : BranchName). b.name) branch;
      signup_source = note_of "source" audit;
      referral_code = note_of "referralCode" audit;
    }

abbrev pub default_org_id : String
default_org_id = "org-default"

-- The subscription that a new installation has, for twelve months from now.
unfoldable pub default_subscription : ℕ → ℕ → OrganizationSubscription
unfolding add_months
default_subscription max_branches now =
    let expires_at = add_months now 12 in
    record {
      id = "sub-default";
      plan_code = "STARTER";
      plan_name = "Starter";
      status = active;
      limits = record {
        max_branches = some max_branches;
        max_staff = some 3;
        max_customers = none;
      };
      max_branches_override = none;
      max_users_override = none;
      contact_us_url = none;
      contact_phone = none;
      upgrade_url = none;
      term_months = 12;
      starts_at = some now;
      expires_at = some expires_at;
      current_period_end = some expires_at;
      payment_status = paid;
      last_payment_txn_id = none;
    }

-- What becomes of the subscription that is there: one without an end gets one.
unfoldable pub ensured_subscription :
    ℕ → ℕ → Option OrganizationSubscription → OrganizationSubscription
unfolding default_subscription normalize_term_months
ensured_subscription max_branches now none = default_subscription max_branches now
ensured_subscription max_branches now (some sub) =
    let expires_at = add_months now 12 in
    if is_some sub.expires_at
    then sub
    else if is_some sub.current_period_end
    then sub
    else record sub {
      term_months = normalize_term_months (some sub.term_months);
      starts_at = or_first sub.starts_at (some now);
      expires_at = some expires_at;
      current_period_end = some expires_at;
    }

abbrev default_organization : String → Organization
default_organization name = record {
  id = default_org_id;
  name = name;
  slug = some "my-detail-os";
  is_active = true;
  subscription = none;
}

-- `organization.upsert`, then the subscription.
unfoldable pub ensure_default_organization : Database → ℕ → Option String → Option ℕ → Database
unfolding ensured_subscription
ensure_default_organization db now given_name given_max =
    let name = or_else given_name "My Detail OS" in
    let branch_count = length db.branches in
    let max_branches = or_else given_max (if leb 1 branch_count then branch_count else 1) in
    let there =
      if is_some (find_organization db default_org_id)
      then db
      else record db { organizations = db.organizations ++ (default_organization name ∷ []) } in
    update_organization default_org_id
      (λ (o : Organization). record o {
        name = name;
        subscription = some (ensured_subscription max_branches now o.subscription);
      })
      there

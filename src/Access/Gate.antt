-- ===== src/Access/Gate.antt =====
-- The middleware of src/middleware/auth.ts: token, organisation gate, customer portal, permissions.
-- The token library and the database are parameters.
use prime_detailer_backend.Base.{
  ℕ, String, Bool, true, false, not, ◌||◌, Option, none, some, List, [], if◌then◌else◌, or_else,
  any,
}
use prime_detailer_backend.Base.Text.{trim, ends_with, str_eq, strip_prefix, before}
use prime_detailer_backend.Access.Role.{AppRole, staff, customer, platform_owner}
use prime_detailer_backend.Access.Permission.{AuthUser, has_permission_for_method}

-- The enum of the database.
pub data SubscriptionStatus : Type 0 where
  active past_due expired cancelled trial : SubscriptionStatus

-- What a verified token holds.
pub record Claims : Type 0 where
  pub sub : String
  pub email : Option String
  pub role : AppRole
  pub branch_id : Option String
  pub organization_id : Option String
  pub customer_id : Option String
  pub name : String
  pub permissions : Option (List String)

-- The columns of an organisation that the gate selects.
pub record OrgRow : Type 0 where
  pub is_active : Bool
  pub subscription : Option SubscriptionStatus

-- A database call resolves or rejects.
pub data Query {ℓ} (A : Type ℓ) : Type ℓ where
  resolved : A → Query A
  rejected : Query A

pub record Request : Type 0 where
  pub authorization : Option String
  pub original_url : String
  pub path : String
  pub method : String

-- How a middleware ends: the next handler runs, the error handler runs, or a response is sent.
pub data Outcome : Type 0 where
  next : AuthUser → Outcome
  next_error : Outcome
  respond : ℕ → Outcome

pub data OrgAccess : Type 0 where
  ok : OrgAccess
  not_found suspended : OrgAccess

abbrev pub is_platform_bypass_role : AppRole → Bool
is_platform_bypass_role (staff platform_owner) = true
is_platform_bypass_role role = false

abbrev pub is_cancelled : Option SubscriptionStatus → Bool
is_cancelled (some cancelled) = true
is_cancelled status = false

-- The path without its query string is that of a logout.
unfoldable pub is_logout_path : Request → Bool
is_logout_path req =
    let path = before b'?' (if str_eq req.original_url "" then req.path else req.original_url) in
    str_eq path "/api/auth/logout" || ends_with "/auth/logout" path

unfoldable pub org_access : Option OrgRow → OrgAccess
org_access none = not_found
org_access (some org) = if not org.is_active || is_cancelled org.subscription then suspended else ok

module _ (find_org : String → Query (Option OrgRow)) where
  unfoldable pub assert_organization_access : Request → AuthUser → Query OrgAccess
  assert_organization_access req auth =
      if is_platform_bypass_role auth.role
      then resolved ok
      else if is_logout_path req
      then resolved ok
      else let org_id = trim (or_else auth.organization_id "") in
        if str_eq org_id "" then resolved ok else elim (find_org org_id) [
          | resolved row ↦ resolved (org_access row)
          | rejected ↦ rejected
        ]

-- `req.auth`
unfoldable pub auth_of : Claims → AuthUser
auth_of c = record {
  id = c.sub;
  email = or_else c.email "";
  role = c.role;
  branch_id = or_else c.branch_id "";
  organization_id = c.organization_id;
  customer_id = c.customer_id;
  name = c.name;
  permissions = some (or_else c.permissions []);
}

-- The token of an `Authorization: Bearer …` header; an empty one counts as missing.
unfoldable pub bearer_token : Option String → Option String
bearer_token none = none
bearer_token (some header) = elim (strip_prefix "Bearer " header) [
  | none ↦ none
  | some token ↦ if str_eq token "" then none else some token
]

abbrev pub answer : AuthUser → Query OrgAccess → Outcome
answer auth (resolved ok) = next auth
answer auth (resolved not_found) = respond 403
answer auth (resolved suspended) = respond 403
answer auth rejected = next_error

-- `verify` is the token library's: `none` where it throws.
module _ (verify : String → Option Claims) (find_org : String → Query (Option OrgRow)) where
  unfoldable pub require_auth : Request → Outcome
  require_auth req = elim (bearer_token req.authorization) [
    | none ↦ respond 401
    | some token ↦ elim (verify token) [
      | none ↦ respond 401
      | some c ↦ answer (auth_of c) (assert_organization_access find_org req (auth_of c))
    ]
  ]

-- The later middleware see `req.auth`, which is missing where `requireAuth` did not run.
abbrev is_customer : AppRole → Bool
is_customer customer = true
is_customer role = false

unfoldable pub require_customer_auth : Option AuthUser → Outcome
require_customer_auth none = respond 401
require_customer_auth (some auth) =
    if not (is_customer auth.role) || str_eq (or_else auth.customer_id "") ""
    then respond 401
    else next auth

unfoldable pub require_permission : String → Request → Option AuthUser → Outcome
require_permission permission req none = respond 401
require_permission permission req (some auth) =
    if has_permission_for_method auth permission req.method then next auth else respond 403

unfoldable pub require_any_permission : List String → Request → Option AuthUser → Outcome
require_any_permission permissions req none = respond 401
require_any_permission permissions req (some auth) =
    if any (λ p. has_permission_for_method auth p req.method) permissions
    then next auth
    else respond 403

-- ===== src/Access/Tests.antt =====
-- Tests of the middleware of src/middleware/auth.ts, and its theorems at concrete requests.
use prime_detailer_backend.Base.{
  ◌⊎◌, String, Bool, true, false, ◌≡◌, ◌≢◌, ◌↔◌, inl, refl, Option, none, some, List, [], ◌∷◌,
  or_else,
}
use prime_detailer_backend.Base.Text.{
  before_suffix, trim, ends_with, strip_prefix, before, includes,
}
use prime_detailer_backend.Access.Role.{
  manager, staff, mechanic, platform_owner, super_admin, admin, can_assign_user_role,
}
use prime_detailer_backend.Access.Keys.{
  delete, granular_permission_key, is_granular_permission_module,
}
use prime_detailer_backend.Access.Permission.{
  AuthUser, has_permission_for_method, action_from_http_method,
}
use prime_detailer_backend.Access.PermissionRules.{Grants}
use prime_detailer_backend.Access.Documented.{
  Documented, Undocumented, has_permission_for_method-Documented,
}
use prime_detailer_backend.Access.Gate.{
  Claims, OrgRow, Query, resolved, active, Request, next, respond, auth_of, bearer_token,
  is_logout_path, require_auth, require_permission, org_access, assert_organization_access,
}
use prime_detailer_backend.Access.GateRules.{
  IsOpen, require_auth_iff, require_auth-suspended, require_permission-Grants,
}
use prime_detailer_backend.Access.StaffAccess.{
  derive_staff_access_level, expand_legacy_base_keys, module_of, permissions_for_staff_access_level,
  with_edit_access,
}
use prime_detailer_backend.Access.StaffDefaults.{
  get_default_module_keys_for_role, resolve_permissions_on_create,
}
use prime_detailer_backend.Access.StaffDeletion.{
  has_permission_for_method-permissions_for_staff_access_level,
}
use prime_detailer_backend.Access.StaffRules.{derive-resolve_permissions_on_create}
use text.Mathlib.TextEquality.{eq_iff}

chain : Unit {0}
unfolding has_permission_for_method action_from_http_method granular_permission_key
    is_granular_permission_module require_auth require_permission auth_of bearer_token
    is_logout_path org_access assert_organization_access trim ends_with strip_prefix before includes
chain = tt

abbrev held : List String
held = "JOB_CARDS_CREATE" ∷ "SETTINGS_VIEW" ∷ []

abbrev claims : Claims
claims = record {
  sub = "u1";
  email = none;
  role = staff mechanic;
  branch_id = some "b1";
  organization_id = some " org ";
  customer_id = none;
  name = "Asha";
  permissions = some held;
}

abbrev user : AuthUser
user = record {
  id = "u1";
  email = "";
  role = staff mechanic;
  branch_id = "b1";
  organization_id = some " org ";
  customer_id = none;
  name = "Asha";
  permissions = some held;
}

abbrev senior : AuthUser
senior = record user { permissions = some ("BILLING" ∷ held) }

abbrev verify : String → Option Claims
verify token = some claims

abbrev find_org : Bool → String → Query (Option OrgRow)
find_org on id = resolved (some (record { is_active = on; subscription = some active }))

abbrev put_job_card : Request
put_job_card = record {
  authorization = some "Bearer abc";
  original_url = "/api/job-cards?x=1";
  path = "/";
  method = "put";
}

-- CREATE authorises a PUT of a job card, and no DELETE; any key of a simple module is enough.
resolver_tests :
    (has_permission_for_method user "JOB_CARDS" "put" ≡ true)
    × (has_permission_for_method user "JOB_CARDS" "DELETE" ≡ false)
    × (has_permission_for_method user "SETTINGS" "DELETE" ≡ true)
    × (has_permission_for_method user "CUSTOMERS" "GET" ≡ false)
    × (has_permission_for_method user "JOB_CARDS" "TRACE" ≡ false)
unfolding chain
resolver_tests = (refl, refl, refl, refl, refl)

gate_tests :
    (require_auth verify (find_org true) put_job_card ≡ next user)
    × (require_auth verify (find_org false) put_job_card ≡ respond 403)
    × (require_auth verify
          (find_org false)
          (record put_job_card { original_url = "/api/auth/logout?now" })
        ≡ next user)
    × (require_auth verify (find_org true) (record put_job_card { authorization = some "Bearer " })
        ≡ respond 401)
unfolding chain
gate_tests = (refl, refl, refl, refl)

assignment_tests :
    (can_assign_user_role (staff super_admin) admin ≡ true)
    × (can_assign_user_role (staff super_admin) platform_owner ≡ false)
    × (can_assign_user_role (staff admin) mechanic ≡ false)
unfolding can_assign_user_role
assignment_tests = (refl, refl, refl)

has_permission_for_method-Documented_example :
    (has_permission_for_method user "JOB_CARDS" "put" ≡ true)
    ↔ (Documented user "JOB_CARDS" "put" ⊎ Undocumented user "JOB_CARDS" "put")
has_permission_for_method-Documented_example =
    has_permission_for_method-Documented user "JOB_CARDS" "put"

delete_job_cards : action_from_http_method "DELETE" ≡ some delete
unfolding chain
delete_job_cards = refl

job_cards_granular : is_granular_permission_module "JOB_CARDS" ≡ true
unfolding chain
job_cards_granular = refl

require_auth_iff_example : (require_auth verify (find_org true) put_job_card ≡ next user) ↔ (
    (token : String) × (c : Claims) × (bearer_token put_job_card.authorization ≡ some token)
    × (verify token ≡ some c)
    × (user ≡ auth_of c)
    × IsOpen (find_org true) put_job_card user)
require_auth_iff_example = require_auth_iff verify (find_org true) put_job_card user

has_token : bearer_token put_job_card.authorization ≡ some "abc"
unfolding chain
has_token = refl

stays : is_logout_path put_job_card ≡ false
unfolding chain
stays = refl

named : trim (or_else claims.organization_id "") ≢ ""
unfolding chain
named e = cc ((eq_iff "org" "").1 e)

require_auth-suspended_example : require_auth verify (find_org false) put_job_card ≡ respond 403
require_auth-suspended_example =
    require_auth-suspended verify (find_org false) put_job_card has_token refl refl stays named refl
      (inl refl)

permitted : require_permission "JOB_CARDS" put_job_card (some user) ≡ next user
unfolding chain
permitted = refl

require_permission-Grants_example :
    (user ≡ user) × Grants user "JOB_CARDS" "put" × IsOpen (find_org true) put_job_card user
require_permission-Grants_example =
    require_permission-Grants verify (find_org true) put_job_card "JOB_CARDS" user user gate_tests.0
      permitted

abbrev head_of_staff : List String
head_of_staff = "STAFF" ∷ "STAFF_DELETE" ∷ "JOB_CARDS_VIEW" ∷ []

abbrev head_mechanic : AuthUser
head_mechanic = record user {
  permissions = some (permissions_for_staff_access_level (some head_of_staff) with_edit_access);
}

has_permission_for_method-permissions_for_staff_access_level_example :
    has_permission_for_method head_mechanic "JOB_CARDS" "DELETE" ≡ false
has_permission_for_method-permissions_for_staff_access_level_example =
    has_permission_for_method-permissions_for_staff_access_level head_mechanic "JOB_CARDS" "DELETE"
      (some head_of_staff) with_edit_access refl refl job_cards_granular delete_job_cards

edits_granted :
    permissions_for_staff_access_level (some head_of_staff) with_edit_access
    ≡ "STAFF_CREATE" ∷ "STAFF_VIEW" ∷ "STAFF_EDIT" ∷ "JOB_CARDS_VIEW" ∷ "JOB_CARDS_EDIT" ∷ []
unfolding chain permissions_for_staff_access_level expand_legacy_base_keys module_of before_suffix
edits_granted = refl

has_defaults : get_default_module_keys_for_role manager ≢ []
has_defaults e = cc

derive-resolve_permissions_on_create_example :
    derive_staff_access_level
      (some (resolve_permissions_on_create manager (some []) (some with_edit_access)))
    ≡ with_edit_access
derive-resolve_permissions_on_create_example =
    derive-resolve_permissions_on_create manager with_edit_access (some []) has_defaults refl

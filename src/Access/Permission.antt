-- ===== src/Access/Permission.antt =====
-- The permission resolver of src/middleware/auth.ts.
use prime_detailer_backend.Base.{
  String, Bool, true, false, not, ◌&&◌, ◌||◌, Option, none, some, List, [], ◌∷◌, if◌then◌else◌,
  or_else,
}
use prime_detailer_backend.Base.Text.{includes, upper, codes, codes_eq}
use prime_detailer_backend.Access.Role.{AppRole, staff, platform_owner, super_admin, admin}
use prime_detailer_backend.Access.Keys.{
  GranularAction, create, view, edit, delete, is_granular_permission_module,
  granular_permission_key,
}

pub record AuthUser : Type 0 where
  pub id : String
  pub email : String
  pub role : AppRole
  pub branch_id : String
  pub organization_id : Option String
  pub customer_id : Option String
  pub name : String
  pub permissions : Option (List String)

-- The method names are ASCII, so `toUpperCase` is that of the ASCII letters.
unfoldable pub action_from_http_method : String → Option GranularAction
unfolding upper
action_from_http_method method =
    let is = λ (name : String). codes_eq (upper method) (codes name) in
    if is "GET" || is "HEAD"
    then some view
    else if is "POST"
    then some create
    else if is "PUT" || is "PATCH"
    then some edit
    else if is "DELETE"
    then some delete
    else none

abbrev pub upsert_via_put_modules : List String
upsert_via_put_modules =
    "JOB_CARDS" ∷ "BOOKINGS" ∷ "APPOINTMENTS" ∷ "QUOTATIONS" ∷ "PICKUP_DROP" ∷ "BILLING"
    ∷ "MEMBERSHIP" ∷ "REFERRALS" ∷ "EXPENSES" ∷ "INVENTORY" ∷ "ATTENDANCE" ∷ []

-- SUPER_ADMIN, ADMIN and PLATFORM_OWNER pass every check.
abbrev pub bypasses : AppRole → Bool
bypasses (staff super_admin) = true
bypasses (staff admin) = true
bypasses (staff platform_owner) = true
bypasses role = false

abbrev pub is_edit : GranularAction → Bool
is_edit edit = true
is_edit action = false

-- An EDIT of a module that is created by PUT needs the CREATE key only.
unfoldable pub writes_by_create : List String → String → GranularAction → Bool
writes_by_create held permission action =
    is_edit action
    && includes upsert_via_put_modules permission
    && includes held (granular_permission_key permission create)

unfoldable pub holds_any_action : List String → String → Bool
holds_any_action held permission =
    includes held (granular_permission_key permission view)
    || includes held (granular_permission_key permission create)
    || includes held (granular_permission_key permission edit)
    || includes held (granular_permission_key permission delete)

-- The tests that need the action of the method.
unfoldable pub allowed_by_action : List String → String → Option GranularAction → Bool
allowed_by_action held permission none = false
allowed_by_action held permission (some action) =
    if includes held (granular_permission_key permission action)
    then true
    else if writes_by_create held permission action
    then true
    else if not (is_granular_permission_module permission)
    then holds_any_action held permission
    else false

unfoldable pub has_permission_for_method : AuthUser → String → String → Bool
unfolding allowed_by_action writes_by_create holds_any_action
has_permission_for_method auth permission method =
    if bypasses auth.role
    then true
    else if includes (or_else auth.permissions []) permission
    then true
    else allowed_by_action (or_else auth.permissions []) permission (action_from_http_method method)

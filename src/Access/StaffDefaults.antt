-- ===== src/Access/StaffDefaults.antt =====
-- The permissions of a new account, src/lib/staff-role-defaults.ts, and who may change them,
-- src/lib/staff-permissions-policy.ts.
use prime_detailer_backend.Base.{
  String, Bool, true, false, ◌||◌, Option, some, List, [], ◌∷◌, ◌++◌, if◌then◌else◌, or_else,
}
use prime_detailer_backend.Base.Text.{includes}
use prime_detailer_backend.Access.Role.{
  AppRole, UserRole, admin, branch_manager, manager, mechanic, platform_owner, receptionist, staff,
  super_admin, supervisor,
}
use prime_detailer_backend.Access.Keys.{create, granular_permission_key, view}
use prime_detailer_backend.Access.Permission.{AuthUser}
use prime_detailer_backend.Access.StaffAccess.{
  StaffAccessLevel, add_all, permissions_for_staff_access_level, with_edit_access,
}

abbrev receptionist_modules : List String
receptionist_modules =
    "DASHBOARD" ∷ "CUSTOMERS" ∷ "VEHICLES" ∷ "MEMBERSHIP" ∷ "BOOKINGS" ∷ "APPOINTMENTS"
    ∷ "JOB_CARDS" ∷ "REMINDERS" ∷ "FOLLOW_UPS" ∷ "BILLING" ∷ "REPORTS" ∷ "CASH_BANK" ∷ "LEAVE" ∷ []

abbrev supervisor_extra_modules : List String
supervisor_extra_modules =
    "JOB_CARD_PRICING" ∷ "PICKUP_DROP" ∷ "QUOTATIONS" ∷ "EXPENSES" ∷ "ATTENDANCE" ∷ "STAFF_REWARDS"
    ∷ []

abbrev operations_manager_modules : List String
operations_manager_modules =
    "DASHBOARD" ∷ "JOB_CARDS" ∷ "JOB_CARD_PRICING" ∷ "BOOKINGS" ∷ "PICKUP_DROP" ∷ "QUOTATIONS"
    ∷ "APPOINTMENTS" ∷ "CUSTOMERS" ∷ "MEMBERSHIP" ∷ "VEHICLES" ∷ "REMINDERS" ∷ "FOLLOW_UPS"
    ∷ "REFERRALS" ∷ "BILLING" ∷ "REPORTS" ∷ "CASH_BANK" ∷ "PARTIES" ∷ "SHARED_LEDGER" ∷ "EXPENSES"
    ∷ "VENDORS" ∷ "STAFF" ∷ "ATTENDANCE" ∷ "LEAVE" ∷ "PAYROLL" ∷ "STAFF_REWARDS" ∷ "SERVICES"
    ∷ "INVENTORY" ∷ "PERFORMANCE" ∷ "MECHANICS" ∷ "ANALYTICS" ∷ []

abbrev mechanic_modules : List String
mechanic_modules =
    "DASHBOARD" ∷ "JOB_CARDS" ∷ "JOB_CARD_PRICING" ∷ "BOOKINGS" ∷ "PICKUP_DROP" ∷ "QUOTATIONS"
    ∷ "APPOINTMENTS" ∷ "CUSTOMERS" ∷ "VEHICLES" ∷ "BILLING" ∷ "EXPENSES" ∷ "REPORTS" ∷ "ATTENDANCE"
    ∷ "LEAVE" ∷ []

-- `mergeModuleKeys` of two groups.
abbrev merge_module_keys : List String → List String → List String
merge_module_keys a b = add_all [] (a ++ b)

abbrev pub get_default_module_keys_for_role : UserRole → List String
get_default_module_keys_for_role platform_owner = []
get_default_module_keys_for_role super_admin = []
get_default_module_keys_for_role admin = []
get_default_module_keys_for_role branch_manager = operations_manager_modules
get_default_module_keys_for_role manager = operations_manager_modules
get_default_module_keys_for_role supervisor =
    merge_module_keys receptionist_modules supervisor_extra_modules
get_default_module_keys_for_role receptionist = receptionist_modules
get_default_module_keys_for_role mechanic = mechanic_modules

abbrev pub modules_to_create_view_keys : List String → List String
modules_to_create_view_keys [] = []
modules_to_create_view_keys (key ∷ keys) =
    granular_permission_key key create
    ∷ granular_permission_key key view
    ∷ modules_to_create_view_keys keys

abbrev pub initial_from : List String → StaffAccessLevel → List String
initial_from [] level = []
initial_from (key ∷ keys) level = permissions_for_staff_access_level (some (key ∷ keys)) level

unfoldable pub build_initial_permissions : UserRole → StaffAccessLevel → List String
unfolding granular_permission_key permissions_for_staff_access_level
build_initial_permissions role level =
    initial_from (modules_to_create_view_keys (get_default_module_keys_for_role role)) level

-- The permissions that are sent win, unless there are none.
unfoldable pub resolve_permissions_on_create :
    UserRole → Option (List String) → Option StaffAccessLevel → List String
unfolding build_initial_permissions
resolve_permissions_on_create role (some (p ∷ permissions)) level = p ∷ permissions
resolve_permissions_on_create role permissions level =
    build_initial_permissions role (or_else level with_edit_access)

abbrev is_head : AppRole → Bool
is_head (staff super_admin) = true
is_head (staff admin) = true
is_head role = false

unfoldable pub can_manage_user_permissions : AuthUser → Bool
can_manage_user_permissions auth =
    let held = or_else auth.permissions [] in
    if is_head auth.role then true else includes held "STAFF" || includes held "STAFF_EDIT"

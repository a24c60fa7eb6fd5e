-- ===== src/Access/Role.antt =====
-- Staff roles (the database enum) and the roles of a token, src/lib/rbac.ts.
use prime_detailer_backend.Base.{ℕ, Bool, true, false, Option, some, List, [], ◌∷◌, any, ◌==◌}

pub data UserRole : Type 0 where
  platform_owner super_admin admin branch_manager manager supervisor receptionist mechanic :
      UserRole

-- `UserRole | "CUSTOMER"`
pub data AppRole : Type 0 where
  staff : UserRole → AppRole
  customer : AppRole

abbrev pub role_code : UserRole → ℕ
role_code platform_owner = 0
role_code super_admin = 1
role_code admin = 2
role_code branch_manager = 3
role_code manager = 4
role_code supervisor = 5
role_code receptionist = 6
role_code mechanic = 7

abbrev pub role_eq : UserRole → UserRole → Bool
role_eq a b = role_code a == role_code b

-- `(roles as readonly string[]).includes(role)`
abbrev pub includes_role : List UserRole → AppRole → Bool
includes_role roles (staff r) = any (role_eq r) roles
includes_role roles customer = false

abbrev pub staff_management_roles : List UserRole
staff_management_roles = super_admin ∷ admin ∷ branch_manager ∷ manager ∷ []

abbrev pub role_assignment_roles : List UserRole
role_assignment_roles = super_admin ∷ []

abbrev pub branch_mutation_roles : List UserRole
branch_mutation_roles = super_admin ∷ admin ∷ branch_manager ∷ manager ∷ []

abbrev pub payroll_access_roles : List UserRole
payroll_access_roles = super_admin ∷ admin ∷ manager ∷ branch_manager ∷ []

unfoldable pub is_staff_manager : AppRole → Bool
is_staff_manager role = includes_role staff_management_roles role

unfoldable pub can_assign_user_role : AppRole → UserRole → Bool
can_assign_user_role actor platform_owner = false
can_assign_user_role (staff super_admin) target = true
can_assign_user_role actor target = false

unfoldable pub is_platform_owner : Option AppRole → Bool
is_platform_owner (some (staff platform_owner)) = true
is_platform_owner role = false

unfoldable pub can_change_roles : AppRole → Bool
can_change_roles actor = includes_role role_assignment_roles actor

unfoldable pub can_create_staff_accounts : AppRole → Bool
can_create_staff_accounts (staff super_admin) = true
can_create_staff_accounts (staff admin) = true
can_create_staff_accounts actor = false

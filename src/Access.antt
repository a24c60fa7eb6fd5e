-- ===== src/Access.antt =====
-- Who may do what: src/lib/rbac.ts, src/constants/permission-keys.ts, src/middleware/auth.ts,
-- src/lib/staff-access.ts, src/lib/staff-role-defaults.ts.
pub mod Role
pub mod Keys
pub mod Permission
pub mod PermissionRules
pub mod Documented
pub mod StaffAccess
pub mod StaffDefaults
pub mod StaffKeys
pub mod StaffRules
pub mod StaffDeletion
pub mod Gate
pub mod GateRules
mod Tests

-- ===== src/Scope.antt =====
-- Which rows a user sees: src/lib/data-scope.ts.
pub mod Payload
pub mod Resolve
pub mod Branches
pub mod Home
pub mod Visible
mod Tests

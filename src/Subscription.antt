-- ===== src/Subscription.antt =====
-- The subscription of an organisation: src/modules/organization/organization-subscription.service.ts
-- and the calendar of src/lib/subscription-lock.ts.
pub mod Calendar
pub mod Months
pub mod Records
pub mod Entitlement
pub mod Patch
pub mod Notes
pub mod Renewal
pub mod Settlement
pub mod Verify
pub mod MarkPaid
pub mod Rows
pub mod Extension
pub mod Billing
pub mod Once
pub mod Calls
pub mod Writes
pub mod History
pub mod PaidUntil
pub mod Moves
pub mod Refinement
pub mod Newest
pub mod Carried
pub mod Bills
pub mod Platform
pub mod Listing
pub mod Exports
pub mod Allowance
pub mod Samples
mod Tests

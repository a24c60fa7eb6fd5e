-- ===== src/Limits.antt =====
-- Small guards of the service: src/lib/subscription-lock.ts, src/lib/pagination.ts and
-- src/lib/referral-eligibility.ts.
pub mod SubscriptionLock
pub mod Pagination
pub mod Referral
mod Tests

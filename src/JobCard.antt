-- ===== src/JobCard.antt =====
-- Who may change the prices of a job card, src/lib/job-card-pricing-guard.ts.
pub mod Guard
pub mod Protection
mod Tests

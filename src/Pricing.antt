-- ===== src/Pricing.antt =====
-- The price of a subscription, src/lib/subscription-pricing.ts, and the limits of a plan,
-- src/lib/plan-catalog.ts.
pub mod Plan
pub mod Calculation
pub mod Sums
mod Tests

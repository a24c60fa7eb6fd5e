-- ===== src/Rewards.antt =====
-- Company-target incentives: src/lib/company-target-engine.ts, src/lib/company-target-periods.ts.
pub mod Revenue
pub mod Engine
pub mod TierChoice
pub mod Shares
pub mod Periods
pub mod Calendar
mod Tests

-- ===== src/Ledger.antt =====
-- The ledger of a party, src/lib/party-ledger.ts.
pub mod Documents
pub mod Statement
pub mod Sorting
pub mod Net
pub mod Closing
pub mod Agreement
pub mod Summary
pub mod Public
pub mod PublicClosing
mod Tests

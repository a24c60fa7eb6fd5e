-- ===== src/Wallet.antt =====
-- The wallet of a customer against an invoice: src/modules/invoices/wallet-sync.service.ts.
pub mod Records
pub mod Sync
pub mod Running
pub mod Balance
pub mod Resync
mod Tests

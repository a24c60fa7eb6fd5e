-- ===== src/Store.antt =====
-- The storage of JSON rows, src/modules/collections/app-json-store.ts.
pub mod Rows
pub mod Payload
pub mod Write
pub mod Replace
mod Outcome
pub mod Isolation
pub mod Lookup
pub mod LastItem
pub mod Snapshot
pub mod ListRows
mod Tests

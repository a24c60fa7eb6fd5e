-- ===== src/Endpoints.antt =====
-- The HTTP handlers of the collections: src/modules/collections/collection.controller.ts, with the
-- handlers of src/modules/collections/collection.dispatcher.ts that they call and the input checks of
-- src/validations/collection-payloads.ts.
pub mod Validate
pub mod Handlers
pub mod Controller
pub mod TenantSafe
pub mod Refusals
pub mod Confined
mod Tests

-- ===== src/Lib.antt =====
-- A verification library for Prime Detailer, the backend of a workshop management service: its
-- access control, the storage and scoping of its JSON documents, and its money.
--
-- The program is a server with several organisations as tenants. A request passes requireAuth and
-- requirePermission (src/middleware/auth.ts), which verify the token, ask the organisation gate
-- and apply the permission keys (src/constants/permission-keys.ts). A collection request then
-- needs the permission of its collection (src/constants/collection-permissions.ts), reads or
-- writes rows of the table AppJsonRow (src/modules/collections/app-json-store.ts) and shows those
-- of the branches of the user (src/lib/data-scope.ts). Saving an invoice synchronises the wallet
-- of its customer (src/modules/invoices/wallet-sync.service.ts); the ledger of a party is computed
-- from the stored invoices and expenses (src/lib/party-ledger.ts); incentives are computed from
-- the revenue of a period (src/lib/company-target-engine.ts, src/lib/company-target-periods.ts).
-- An organisation pays for its subscription, which limits what it may create and export
-- (src/modules/organization/organization-subscription.service.ts).
--
-- Base holds what the components share: lists with Boolean tests, signed integers (Int), amounts
-- (Money), the string methods of the language (Text) and maps with string keys (Assoc).
-- The components are
--   Access       src/middleware/auth.ts (Permission: hasPermissionForMethod; Gate: requireAuth,
--                requirePermission, assertOrganizationAccess), src/lib/rbac.ts (Role),
--                src/constants/permission-keys.ts (Keys), src/lib/staff-access.ts (StaffAccess),
--                src/lib/staff-role-defaults.ts and src/lib/staff-permissions-policy.ts
--                (StaffDefaults);
--   Json         the payloads: JSON values with their fields in order;
--   Collections  src/constants/json-collections.ts and src/constants/collection-permissions.ts;
--   Scope        src/lib/data-scope.ts (Payload: the filters; Resolve: resolveBranchScope,
--                intersectQueryBranchId, collectReferencedCustomerVehicleIds);
--   Store        src/modules/collections/app-json-store.ts (Payload: user tracking; Write:
--                getCollectionItem, upsertCollectionItem, deleteCollectionItem, upsertSingleton;
--                Replace: replaceCollectionArray), over the interface RowStore (Rows);
--   Wallet       src/modules/invoices/wallet-sync.service.ts (Records: what it reads and writes;
--                Sync: handleInvoiceWalletSync);
--   Ledger       src/lib/party-ledger.ts (Documents: the balances; Statement:
--                buildPartyStatement; Public: buildPublicCustomerStatement; Summary:
--                buildPartySummary) with src/types/party.ts and src/types/finance-documents.ts;
--   JobCard      src/lib/job-card-pricing-guard.ts (Guard: evaluateJobCardPricingWrite);
--   Pricing      src/lib/subscription-pricing.ts (Calculation: calculateSubscriptionPricing) and
--                src/lib/plan-catalog.ts (Plan);
--   Subscription src/modules/organization/organization-subscription.service.ts (Records: the rows
--                and the database; Entitlement: toEntitlement and the checks before a branch or a
--                user is created; Patch: patchOrganizationSubscription; Notes: the breakdown in the
--                notes of a payment; Renewal: the quote and the request; Settlement, Verify:
--                verifySubscriptionPayment; MarkPaid: adminMarkSubscriptionPaid; Bills, Platform:
--                the lists, the extras of the platform and ensureDefaultOrganization; Calls: the
--                calls as steps and sequences of them), with addMonths of
--                src/lib/subscription-lock.ts (Calendar);
--   Rewards      src/lib/company-target-engine.ts (Revenue, Engine) and
--                src/lib/company-target-periods.ts (Periods);
--   Limits       src/lib/subscription-lock.ts, src/lib/pagination.ts and
--                src/lib/referral-eligibility.ts;
--   Endpoints    the HTTP handlers of src/modules/collections/collection.controller.ts (Controller)
--                with the checks of src/validations/collection-payloads.ts (Validate) and the
--                dispatch of src/modules/collections/collection.dispatcher.ts to the storage
--                (Handlers).
-- The other modules of a component hold its lemmas and are named for what they show.
--
-- How the code is read. Functions in camel case have the same name in snake case. A state is
-- passed and returned; an exception is a value of a result type. A JavaScript number that stands
-- for an amount is an integer of ten-thousandths, with the rounding to two places written out and
-- no floating-point error. Loops are structural recursion; fuel stands in the decimal numerals
-- (Base/Text.antt), where a number is given more than its digits, and in the walk over the months
-- (Subscription/Calendar.antt), where a day is given one step more than its number. Upper and
-- lower case are those of the ASCII letters.
--
-- Parameters of the definitions: the verification of a token, the lookups in the database, random
-- ids, the clock, whether and when a string is a date, the format of a date, the test of a report
-- period (src/lib/report-period.ts), an environment variable, and what JSON.stringify and
-- JSON.parse make of a price breakdown; in Endpoints also the schemas of the payloads, the paged
-- list and the handlers of the collections that have services of their own. A transaction is one
-- step, which a unique index may refuse. The database client is the record Store.Rows.RowStore:
-- its calls and what each does to the row of every key. Store/ListRows.antt gives it for lists of
-- rows, so that the interface can be met.
--
-- Not modelled: the paged listing of a collection with its SQL, the transport (routes, the other
-- controllers, the upload of a logo), the transaction and item-wise rows of the ledger, messaging,
-- object storage, the scheduled jobs, the services of users and customers, the provisioning of
-- organisations, and concurrent requests; each write of the store is one step. A stamp that a
-- failed wallet synchronisation leaves on the invoice object in memory is not modelled, nor an
-- array in the place of a singleton object, nor a year before 100, nor a stored price breakdown
-- that lacks one of its fields.
pub mod Base
pub mod Access
pub mod Wallet
pub mod Pricing
pub mod Rewards
pub mod JobCard
pub mod Json
pub mod Ledger
pub mod Limits
pub mod Subscription
pub mod Collections
pub mod Scope
pub mod Store
pub mod Endpoints

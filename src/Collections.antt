-- ===== src/Collections.antt =====
-- The names of the JSON collections, src/constants/json-collections.ts, and the permission of each,
-- src/constants/collection-permissions.ts.
pub mod Permissions
use prime_detailer_backend.Base.{
  String, Bool, true, false, not, ◌&&◌, ◌||◌, Option, none, some, List, [], ◌∷◌, ◌++◌, map, all,
  length, if◌then◌else◌, ◌==◌, is_some,
}
use prime_detailer_backend.Base.Text.{includes, str_eq}
use Prim.Native.String

abbrev pub array_json_collections : List String
array_json_collections =
    "jobCards" ∷ "invoices" ∷ "quotations" ∷ "appointments" ∷ "expenses" ∷ "activityLogs"
    ∷ "serviceReminders" ∷ "walletTransactions" ∷ "serviceCatalog" ∷ "parts" ∷ "stockMovements"
    ∷ "productPurchases" ∷ "branchStocks" ∷ "stockTransfers" ∷ "partCategories" ∷ "followUps"
    ∷ "serviceCategories" ∷ "notifications" ∷ "pickupDropRequests" ∷ "communications"
    ∷ "leaveRequests" ∷ "staffRewardLedger" ∷ "staffTargets" ∷ []

abbrev pub singleton_collections : List String
singleton_collections =
    "dashboardStats" ∷ "expenseMeta" ∷ "cashBank" ∷ "payroll" ∷ "membership" ∷ "appSettings"
    ∷ "referralProgram" ∷ "balanceSheetManual" ∷ "highEndServices" ∷ "reportSchedules"
    ∷ "vehicleCatalog" ∷ "leaveConfig" ∷ "staffRewardSettings" ∷ "customerRewardSettings" ∷ []

abbrev pub singleton_entity_id : String
singleton_entity_id = "default"

unfoldable pub is_array_collection : String → Bool
is_array_collection name = includes array_json_collections name

unfoldable pub is_singleton_collection : String → Bool
is_singleton_collection name = includes singleton_collections name

-- `${organizationId}::default`
unfoldable pub singleton_storage_entity_id : String → String
singleton_storage_entity_id organization_id =
    String.◌++◌ organization_id (String.◌++◌ "::" singleton_entity_id)

unfoldable pub is_singleton_storage_entity_id_for_org : String → String → Bool
unfolding singleton_storage_entity_id
is_singleton_storage_entity_id_for_org entity_id organization_id =
    str_eq entity_id (singleton_storage_entity_id organization_id)
    || str_eq entity_id singleton_entity_id

abbrev pub collection_permission_map : List (String × String)
collection_permission_map =
    ("jobCards", "JOB_CARDS")
    ∷ ("invoices", "BILLING")
    ∷ ("quotations", "QUOTATIONS")
    ∷ ("appointments", "APPOINTMENTS")
    ∷ ("expenses", "EXPENSES")
    ∷ ("activityLogs", "ACTIVITY")
    ∷ ("serviceReminders", "REMINDERS")
    ∷ ("walletTransactions", "REFERRALS")
    ∷ ("serviceCatalog", "SERVICES")
    ∷ ("parts", "INVENTORY")
    ∷ ("stockMovements", "INVENTORY")
    ∷ ("productPurchases", "INVENTORY")
    ∷ ("branchStocks", "INVENTORY")
    ∷ ("stockTransfers", "INVENTORY")
    ∷ ("partCategories", "INVENTORY")
    ∷ ("followUps", "FOLLOW_UPS")
    ∷ ("serviceCategories", "SERVICES")
    ∷ ("notifications", "DASHBOARD")
    ∷ ("pickupDropRequests", "PICKUP_DROP")
    ∷ ("communications", "MESSAGES")
    ∷ ("dashboardStats", "DASHBOARD")
    ∷ ("expenseMeta", "EXPENSES")
    ∷ ("cashBank", "CASH_BANK")
    ∷ ("payroll", "PAYROLL")
    ∷ ("membership", "MEMBERSHIP")
    ∷ ("appSettings", "SETTINGS")
    ∷ ("referralProgram", "REFERRALS")
    ∷ ("balanceSheetManual", "SHARED_LEDGER")
    ∷ ("highEndServices", "SERVICES")
    ∷ ("reportSchedules", "ADVANCED_REPORTS")
    ∷ ("vehicleCatalog", "VEHICLES")
    ∷ ("leaveRequests", "LEAVE")
    ∷ ("leaveConfig", "LEAVE")
    ∷ ("staffRewardLedger", "STAFF_REWARDS")
    ∷ ("staffTargets", "STAFF_REWARDS")
    ∷ ("staffRewardSettings", "STAFF_REWARDS")
    ∷ ("customerRewardSettings", "MEMBERSHIP")
    ∷ []

unfoldable pub lookup : String → List (String × String) → Option String
lookup key [] = none
lookup key ((k, v) ∷ pairs) = if str_eq k key then some v else lookup key pairs

unfoldable pub get_collection_permission : String → Option String
unfolding lookup
get_collection_permission collection = lookup collection collection_permission_map

unfoldable pub all_registered_collections : List String
all_registered_collections = array_json_collections ++ singleton_collections

-- Every mapped name is registered and every registered name is mapped, to a key that is not empty;
-- the two have as many names. The registered names are distinct, so they are their own set.
abbrev pub is_key : Option String → Bool
is_key none = false
is_key (some permission) = not (str_eq permission "")

abbrev pub is_mapped : String → Bool
is_mapped name = is_key (lookup name collection_permission_map)

unfoldable pub collection_permission_map_is_complete : Bool
unfolding all_registered_collections lookup includes
collection_permission_map_is_complete =
    if length collection_permission_map == length all_registered_collections
    then all (λ entry. includes all_registered_collections entry.0 && is_mapped entry.0)
        collection_permission_map
      && all is_mapped all_registered_collections
    else false

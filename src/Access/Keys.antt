-- ===== src/Access/Keys.antt =====
-- The permission keys of src/constants/permission-keys.ts.
use prime_detailer_backend.Base.{String, Bool, not, List, [], ◌∷◌, filter}
use prime_detailer_backend.Base.Text.{includes}
use Prim.Native.String

abbrev pub permission_keys : List String
permission_keys =
    "DASHBOARD" ∷ "JOB_CARDS" ∷ "JOB_CARD_PRICING" ∷ "BOOKINGS" ∷ "PICKUP_DROP" ∷ "QUOTATIONS"
    ∷ "APPOINTMENTS" ∷ "CUSTOMERS" ∷ "MEMBERSHIP" ∷ "VEHICLES" ∷ "REMINDERS" ∷ "FOLLOW_UPS"
    ∷ "REFERRALS" ∷ "BILLING" ∷ "REPORTS" ∷ "CASH_BANK" ∷ "PARTIES" ∷ "SHARED_LEDGER" ∷ "EXPENSES"
    ∷ "VENDORS" ∷ "STAFF" ∷ "ATTENDANCE" ∷ "LEAVE" ∷ "PAYROLL" ∷ "STAFF_REWARDS" ∷ "SERVICES"
    ∷ "INVENTORY" ∷ "BRANCHES" ∷ "PERFORMANCE" ∷ "MECHANICS" ∷ "ANALYTICS" ∷ "ADVANCED_REPORTS"
    ∷ "ACTIVITY" ∷ "MESSAGES" ∷ "SETTINGS" ∷ []

abbrev pub granular_permission_modules : List String
granular_permission_modules =
    "JOB_CARDS" ∷ "BOOKINGS" ∷ "PICKUP_DROP" ∷ "QUOTATIONS" ∷ "APPOINTMENTS" ∷ "CUSTOMERS"
    ∷ "VEHICLES" ∷ "MEMBERSHIP" ∷ "BILLING" ∷ "EXPENSES" ∷ "INVENTORY" ∷ "STAFF" ∷ "ATTENDANCE"
    ∷ "REFERRALS" ∷ []

pub data GranularAction : Type 0 where
  create view edit delete : GranularAction

abbrev pub action_text : GranularAction → String
action_text create = "CREATE"
action_text view = "VIEW"
action_text edit = "EDIT"
action_text delete = "DELETE"

unfoldable pub is_granular_permission_module : String → Bool
is_granular_permission_module permission = includes granular_permission_modules permission

-- `${moduleKey}_${action}`
unfoldable pub granular_permission_key : String → GranularAction → String
granular_permission_key module_key action =
    String.◌++◌ module_key (String.◌++◌ "_" (action_text action))

unfoldable pub simple_permissions_for_ui : List String
unfolding is_granular_permission_module
simple_permissions_for_ui = filter (λ key. not (is_granular_permission_module key)) permission_keys

-- ===== src/Scope/Payload.antt =====
-- The filters of src/lib/data-scope.ts on payloads. `none` for the branches is the code's `null`:
-- all branches.
use prime_detailer_backend.Base.{
  String, Bool, true, false, ◌&&◌, ◌||◌, Option, none, some, List, [], ◌∷◌, map, if◌then◌else◌,
  is_some, filter,
}
use prime_detailer_backend.Base.Text.{unless_empty, str_eq, is_blank, includes}
use prime_detailer_backend.Json.{
  Json, str, arr, obj, Fields, end, to_list, of_list, get, set, as_string, fields_of,
}
use prime_detailer_backend.Collections.{is_array_collection, is_singleton_collection}

abbrev pub branch_nested_singletons : List String
branch_nested_singletons = "payroll" ∷ "cashBank" ∷ "membership" ∷ "leaveConfig" ∷ []

abbrev pub payroll_nested_keys : List String
payroll_nested_keys =
    "salaryStructures" ∷ "payrollRecords" ∷ "salaryAdvances" ∷ "salaryAdvanceRecoveries" ∷ []

abbrev pub cash_bank_nested_keys : List String
cash_bank_nested_keys = "accounts" ∷ "transactions" ∷ []

abbrev pub membership_nested_keys : List String
membership_nested_keys = "packages" ∷ "subscriptions" ∷ []

-- A string that is not blank.
abbrev pub unless_blank : Option String → Option String
unless_blank none = none
unless_blank (some s) = if is_blank s then none else some s

unfoldable pub payload_branch_id : Json → Option String
payload_branch_id payload = unless_blank (as_string (get "branchId" (fields_of payload)))

-- `from != null && allowed.includes(from)`
abbrev pub is_allowed : List String → Option String → Bool
is_allowed allowed none = false
is_allowed allowed (some id) = includes allowed id

-- A transfer between two branches: an empty id does not count as given, but it is looked up.
unfoldable pub is_transfer_in_scope : Fields → List String → Bool
is_transfer_in_scope rec allowed =
    let from = as_string (get "fromBranchId" rec) in
    let to = as_string (get "toBranchId" rec) in
    if is_some (unless_empty from) || is_some (unless_empty to)
    then is_allowed allowed from || is_allowed allowed to
    else true

abbrev pub is_in_branches : Json → List String → Option String → Bool
is_in_branches payload allowed (some branch_id) = includes allowed branch_id
is_in_branches payload allowed none = is_transfer_in_scope (fields_of payload) allowed

unfoldable pub is_payload_in_branch_scope : Json → Option (List String) → Bool
unfolding is_transfer_in_scope payload_branch_id
is_payload_in_branch_scope payload none = true
is_payload_in_branch_scope payload (some allowed) =
    is_in_branches payload allowed (payload_branch_id payload)

unfoldable pub filter_payloads_by_branch : List Json → Option (List String) → List Json
unfolding is_payload_in_branch_scope
filter_payloads_by_branch items none = items
filter_payloads_by_branch items (some allowed) =
    filter (λ item. is_payload_in_branch_scope item (some allowed)) items

-- What is no array becomes an empty one.
unfoldable pub filter_nested_array_by_branch : Json → Option (List String) → Json
unfolding filter_payloads_by_branch
filter_nested_array_by_branch (arr vs) allowed =
    arr (of_list (filter_payloads_by_branch (to_list vs) allowed))
filter_nested_array_by_branch v allowed = arr (of_list [])

-- `if (key in src) next[key] = filterNestedArrayByBranch(src[key], …)`
abbrev pub filter_found : String → Option (List String) → Fields → Option Json → Fields
filter_found key allowed next none = next
filter_found key allowed next (some v) = set key (filter_nested_array_by_branch v allowed) next

unfoldable pub filter_keys : List String → Fields → Option (List String) → Fields → Fields
unfolding filter_nested_array_by_branch
filter_keys [] src allowed next = next
filter_keys (key ∷ keys) src allowed next =
    filter_keys keys src allowed (filter_found key allowed next (get key src))

-- The keys of each singleton that nests rows of branches.
unfoldable pub nested_keys : String → Option (List String)
nested_keys collection =
    if str_eq collection "payroll"
    then some payroll_nested_keys
    else if str_eq collection "cashBank"
    then some cash_bank_nested_keys
    else if str_eq collection "leaveConfig"
    then some ("balances" ∷ [])
    else if str_eq collection "membership"
    then some membership_nested_keys
    else none

abbrev pub filter_object : Option (List String) → Fields → Option (List String) → Json
filter_object none src allowed = obj src
filter_object (some keys) src allowed = obj (filter_keys keys src allowed src)

-- The singletons are objects; an array in their place is left alone.
unfoldable pub filter_nested_singleton_payload : String → Json → Option (List String) → Json
unfolding nested_keys filter_keys
filter_nested_singleton_payload collection payload none = payload
filter_nested_singleton_payload collection (obj src) (some allowed) =
    filter_object (nested_keys collection) src (some allowed)
filter_nested_singleton_payload collection payload (some allowed) = payload

unfoldable pub apply_collection_branch_scope : String → List Json → Option (List String) → List Json
unfolding filter_payloads_by_branch filter_nested_singleton_payload
apply_collection_branch_scope collection items none = items
apply_collection_branch_scope collection items (some allowed) =
    if is_array_collection collection
    then filter_payloads_by_branch items (some allowed)
    else if is_singleton_collection collection && includes branch_nested_singletons collection
    then map (λ p. filter_nested_singleton_payload collection p (some allowed)) items
    else items

abbrev pub branding_keys : List String
branding_keys =
    "businessName" ∷ "businessLogo" ∷ "businessTagline" ∷ "businessPhone" ∷ "businessWhatsApp"
    ∷ "businessEmail" ∷ "businessAddress" ∷ "businessWebsite" ∷ "brandPrimary"
    ∷ "gstRegistrationStatus" ∷ []

abbrev pub copy_string : String → Fields → Option String → Fields
copy_string key out none = out
copy_string key out (some s) = set key (str s) out

unfoldable pub extract_from : List String → Fields → Fields → Fields
extract_from [] src out = out
extract_from (key ∷ keys) src out =
    extract_from keys src (copy_string key out (as_string (get key src)))

unfoldable pub extract_branding : Json → Fields
unfolding extract_from
extract_branding app_settings = extract_from branding_keys (fields_of app_settings) end

-- ===== src/Scope/Tests.antt =====
-- The scope of branches, run on examples.
use prime_detailer_backend.Base.{String, ◌≡◌, refl, Option, none, some, List, [], ◌∷◌}
use prime_detailer_backend.Base.Text.{includes, is_blank, trim}
use prime_detailer_backend.Json.{Json, str, arr, obj, end, field, get, of_list, null, fields_of}
use prime_detailer_backend.Access.Role.{staff, mechanic}
use prime_detailer_backend.Access.Permission.{AuthUser}
use prime_detailer_backend.Collections.{is_array_collection}
use prime_detailer_backend.Scope.Payload.{
  filter_keys, nested_keys, filter_nested_array_by_branch, filter_nested_singleton_payload,
  is_payload_in_branch_scope, payload_branch_id, is_transfer_in_scope, filter_payloads_by_branch,
  apply_collection_branch_scope, cash_bank_nested_keys,
}
use prime_detailer_backend.Scope.Resolve.{
  BranchScope, can_use_org_wide_branch_scope, home_branches, resolve_branch_scope,
  intersect_query_branch_id, collect_from, collect_referenced_customer_vehicle_ids,
}
use prime_detailer_backend.Scope.Visible.{ShowsField, get-filter_nested_singleton_payload}

scoping : Unit {0}
unfolding filter_keys nested_keys filter_nested_array_by_branch filter_nested_singleton_payload
    is_payload_in_branch_scope payload_branch_id is_transfer_in_scope filter_payloads_by_branch
    apply_collection_branch_scope can_use_org_wide_branch_scope home_branches resolve_branch_scope
    intersect_query_branch_id collect_from collect_referenced_customer_vehicle_ids includes is_blank
    trim is_array_collection
scoping = tt

abbrev mechanic_of_b1 : AuthUser
mechanic_of_b1 = record {
  id = "u1";
  email = "m@x.in";
  role = staff mechanic;
  branch_id = "b1";
  organization_id = some "o1";
  customer_id = none;
  name = "M";
  permissions = none;
}

abbrev scope_of_b1 : BranchScope
scope_of_b1 = record { organization_id = "o1"; allowed_branch_ids = some ("b1" ∷ []) }

abbrev no_org : String → Option String
no_org id = none

abbrev two_branches : String → List String
two_branches id = "b1" ∷ "b2" ∷ []

abbrev row_of : String → Json
row_of branch = obj (field "branchId" (str branch) (field "customerId" (str branch) end))

abbrev transfer : String → Json
transfer to = obj (field "fromBranchId" (str "b2") (field "toBranchId" (str to) end))

abbrev rows : List Json
rows = row_of "b1" ∷ row_of "b2" ∷ transfer "b1" ∷ transfer "b3" ∷ null ∷ []

rows_seen :
    apply_collection_branch_scope "expenses" rows (some ("b1" ∷ []))
    ≡ row_of "b1" ∷ transfer "b1" ∷ null ∷ []
unfolding scoping
rows_seen = refl

-- The rows in scope name the customers; the vehicles are named by none.
referenced :
    collect_referenced_customer_vehicle_ids (row_of "b1" ∷ rows) (some ("b1" ∷ []))
    ≡ (some ("b1" ∷ []), some [])
unfolding scoping
referenced = refl

asked_b2 :
    intersect_query_branch_id
      (record { organization_id = "o1"; allowed_branch_ids = some ("b1" ∷ "b2" ∷ []) })
      (some " b2 ")
    ≡ some ("b2" ∷ [])
unfolding scoping
asked_b2 = refl

cash_bank_keys : nested_keys "cashBank" ≡ some cash_bank_nested_keys
unfolding scoping
cash_bank_keys = refl

get-filter_nested_singleton_payload_example :
    ShowsField (includes cash_bank_nested_keys "accounts") ("b1" ∷ []) (some (arr (of_list rows))) (
      get "accounts" (
        fields_of (
          filter_nested_singleton_payload "cashBank"
            (obj (field "accounts" (arr (of_list rows)) (field "note" null end)))
            (some ("b1" ∷ [])))))
get-filter_nested_singleton_payload_example =
    get-filter_nested_singleton_payload "cashBank" "accounts" cash_bank_nested_keys
      (field "accounts" (arr (of_list rows)) (field "note" null end)) ("b1" ∷ []) cash_bank_keys

abbrev settings : Json
settings = obj (field "businessName" (str "Prime") (field "gstin" (str "29A") end))

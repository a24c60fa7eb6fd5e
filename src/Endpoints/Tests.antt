-- ===== src/Endpoints/Tests.antt =====
-- The handlers of the collections on a list of rows, and their theorems there.
use prime_detailer_backend.Base.{
  ℕ, String, Bool, true, false, ◌≡◌, refl, Option, none, some, List, [], ◌∷◌, inr,
}
use prime_detailer_backend.Base.Text.{str_eq, includes, is_blank, trim, lower, is_space}
use prime_detailer_backend.Json.{Json, null, str, obj, end, field}
use prime_detailer_backend.Access.Role.{staff, mechanic}
use prime_detailer_backend.Access.Permission.{AuthUser}
use prime_detailer_backend.Collections.{
  is_array_collection, is_singleton_collection, singleton_storage_entity_id,
}
use prime_detailer_backend.Limits.Pagination.{parse_pagination}
use prime_detailer_backend.Scope.Resolve.{
  BranchScope, can_use_org_wide_branch_scope, home_branches, intersect_query_branch_id,
  resolve_branch_scope,
}
use prime_detailer_backend.Store.Rows.{Row}
use prime_detailer_backend.Store.Write
use prime_detailer_backend.Store.Payload.{
  is_pickup_drop_write_blocked, is_collection_write_allowed, spread, tracked, created_at_of,
}
use prime_detailer_backend.Store.Write.{
  activity_log, storage_entity_id, migrate_legacy, new_row, upsert_collection_item,
  upsert_singleton, delete_collection_item,
}
use prime_detailer_backend.Store.Replace.{
  items_by_id, created_by, snapshot_row, create_many, has_foreign_id, loses_financial_rows,
  replace_rows, replace_unique, replace_collection_array,
}
use prime_detailer_backend.Endpoints.Controller
use prime_detailer_backend.Store.ListRows.{
  rows, upsert, create_unless_exists, delete_many, find_many,
}
use prime_detailer_backend.Store.ListRows
use prime_detailer_backend.Endpoints.Validate.{
  assert_payload_entity_id_match, parse_collection_payload, parse_collection_snapshot_items,
}
use prime_detailer_backend.Endpoints.Handlers.{
  threw, ran, CollectionDomainHandlers, Listed, as_document_handlers,
  get_collection_domain_handlers, items,
}
use prime_detailer_backend.Endpoints.TenantSafe.{
  as_document_handlers-IsTenantSafe, get_collection_domain_handlers-IsTenantSafe,
}
use prime_detailer_backend.Endpoints.Controller.{
  Request, Response, Body, assert_payroll_access, assert_pickup_drop_writes_allowed,
  delete_collection_row, get_collection, message, ok_body, one_item, passed_on, post_snapshot,
  put_collection_item, replied, write_context,
}
use prime_detailer_backend.Endpoints.Refusals.{
  Endpoint, IsRefused, delete_row, get_one, put, serve, serve-IsRefused, snapshot,
}
use prime_detailer_backend.Endpoints.Confined.{serve-Keeps}

serving : Unit {0}
unfolding rows upsert create_unless_exists ListRows.delete_row delete_many find_many
    is_pickup_drop_write_blocked is_collection_write_allowed spread tracked created_at_of
    activity_log storage_entity_id Write.get_collection_item migrate_legacy new_row
    upsert_collection_item upsert_singleton delete_collection_item items_by_id created_by
    snapshot_row create_many has_foreign_id loses_financial_rows replace_rows replace_unique
    replace_collection_array includes is_space is_blank trim lower is_array_collection
    is_singleton_collection singleton_storage_entity_id Controller.get_collection_item
    assert_payload_entity_id_match parse_collection_payload parse_collection_snapshot_items
    as_document_handlers get_collection_domain_handlers assert_payroll_access
    assert_pickup_drop_writes_allowed delete_collection_row get_collection post_snapshot
    put_collection_item write_context serve parse_pagination can_use_org_wide_branch_scope
    home_branches intersect_query_branch_id resolve_branch_scope
serving = tt

foreign_e2 : str_eq "o2" "o1" ≡ false
unfolding serving
foreign_e2 = refl

abbrev any_date : String → Bool
any_date raw = true

abbrev no_org : String → Option String
no_org id = none

abbrev two_branches : String → List String
two_branches id = "b1" ∷ "b2" ∷ []

abbrev no_schema : String → Option (Json → Option Json)
no_schema collection = none

abbrev mechanic_of_o1 : AuthUser
mechanic_of_o1 = record {
  id = "u1";
  email = "m@x.in";
  role = staff mechanic;
  branch_id = "b1";
  organization_id = some "o1";
  customer_id = none;
  name = "M";
  permissions = none;
}

abbrev scope_of_b1 : BranchScope
scope_of_b1 = record { organization_id = "o1"; allowed_branch_ids = some ("b1" ∷ []) }

abbrev expense : String → Json
expense title = obj (field "id" (str "e1") (field "title" (str title) end))

abbrev expense_row : String → String → Row
expense_row id organization_id = record {
  collection = "expenses";
  entity_id = id;
  organization_id = organization_id;
  payload = expense "Old";
  created_at = none;
}

-- One expense of each of two organisations.
abbrev table : List Row
table = expense_row "e1" "o1" ∷ expense_row "e2" "o2" ∷ []

abbrev no_items : String → String → Option (List String) → ℕ → ℕ → List Row → Listed
no_items collection org_id allowed page page_size db = items []

-- Handlers of a collection that holds nothing.
abbrev idle : String → CollectionDomainHandlers (List Row)
idle collection = record {
  list = λ org_id allowed page page_size db. ran (items []) db;
  get_item = λ org_id id db. none;
  upsert = λ id payload ctx db. threw db;
  delete_item = λ org_id id ctx db. ran false db;
  replace = λ items ctx db. threw db;
}

abbrev documents : String → CollectionDomainHandlers (List Row)
documents = as_document_handlers rows any_date none no_items idle

abbrev handlers : String → CollectionDomainHandlers (List Row)
handlers = get_collection_domain_handlers rows any_date none no_items documents

abbrev request : String → String → Option AuthUser → Json → Request
request collection id auth body = record {
  collection = collection;
  entity_id = id;
  auth = auth;
  branch_id = none;
  page = none;
  page_size = none;
  body = body;
}

abbrev served : Endpoint → Request → Response × List Row
served endpoint req = serve no_org two_branches none no_schema handlers endpoint req table

abbrev put_oil : Request
put_oil = request "expenses" "e1" (some mechanic_of_o1) (expense "Oil")

abbrev served_code : Response × List Row → ℕ
served_code (replied code body, db) = code
served_code (passed_on, db) = 500

-- Own rows are written and deleted; rows of another organisation, ids that do not match the address
-- and unknown collections are not.
codes :
    (served_code (served put put_oil) ≡ 200)
    × (served_code (served put (request "expenses" "e2" (some mechanic_of_o1) (expense "Oil")))
        ≡ 500)
    × (served_code (served put (request "expenses" "e2" (some mechanic_of_o1) (obj end))) ≡ 500)
    × (served_code (served put (request "nothing" "e1" (some mechanic_of_o1) (obj end))) ≡ 400)
    × (served_code (served put (request "appSettings" "e1" (some mechanic_of_o1) (obj end))) ≡ 400)
    × (served_code (served delete_row (request "expenses" "e1" (some mechanic_of_o1) null)) ≡ 200)
    × (served_code (served delete_row (request "expenses" "e2" (some mechanic_of_o1) null)) ≡ 404)
    × (served_code (served get_one (request "expenses" "e2" (some mechanic_of_o1) null)) ≡ 404)
    × (served_code (served get_one (request "payroll" "p" (some mechanic_of_o1) null)) ≡ 403)
    × (served_code (served snapshot (request "expenses" "" none null)) ≡ 401)
unfolding serving
codes = (refl, refl, refl, refl, refl, refl, refl, refl, refl, refl)

in_scope : resolve_branch_scope no_org two_branches mechanic_of_o1 ≡ some scope_of_b1
unfolding serving
in_scope = refl

e2_there : rows.find_unique table "expenses" "e2" ≡ some (expense_row "e2" "o2")
unfolding serving
e2_there = refl

serve-Keeps_example :
    rows.find_unique
      ((serve no_org two_branches none no_schema handlers put put_oil table).1)
      "expenses"
      "e2"
    ≡ some (expense_row "e2" "o2")
serve-Keeps_example =
    serve-Keeps no_org two_branches none no_schema handlers rows put_oil table mechanic_of_o1
      scope_of_b1 refl in_scope
      (get_collection_domain_handlers-IsTenantSafe rows any_date none no_items documents
        (as_document_handlers-IsTenantSafe rows any_date none no_items idle) "expenses")
      put "expenses" "e2" (expense_row "e2" "o2") e2_there foreign_e2

abbrev read_payroll : Request
read_payroll = request "payroll" "p" (some mechanic_of_o1) null

no_payroll : assert_payroll_access "payroll" (some mechanic_of_o1) ≡ false
unfolding serving
no_payroll = refl

serve-IsRefused_example :
    IsRefused no_org two_branches none no_schema handlers table
      (serve no_org two_branches none no_schema handlers get_one read_payroll table)
serve-IsRefused_example =
    serve-IsRefused no_org two_branches none no_schema handlers get_one read_payroll table
      (inr (refl, no_payroll))

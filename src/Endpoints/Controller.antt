-- ===== src/Endpoints/Controller.antt =====
-- getCollection, getCollectionItem, postSnapshot, putCollectionItem and deleteCollectionRow of
-- src/modules/collections/collection.controller.ts.
use prime_detailer_backend.Base.{
  ℕ, String, Bool, true, false, not, ◌&&◌, ◌||◌, Option, none, some, List, [], if◌then◌else◌,
  or_else,
}
use prime_detailer_backend.Base.Text.{str_eq, includes}
use prime_detailer_backend.Json.{Json, arr, fields_of, get, null, to_list}
use prime_detailer_backend.Access.Role.{
  AppRole, includes_role, payroll_access_roles, staff, super_admin,
}
use prime_detailer_backend.Access.Permission.{AuthUser}
use prime_detailer_backend.Collections.{
  is_array_collection, is_singleton_collection, singleton_entity_id,
}
use prime_detailer_backend.Limits.Pagination.{parse_pagination}
use prime_detailer_backend.Scope.Resolve.{
  BranchScope, intersect_query_branch_id, resolve_branch_scope,
}
use prime_detailer_backend.Store.Payload.{is_pickup_drop_write_blocked}
use prime_detailer_backend.Endpoints.Validate.{
  assert_payload_entity_id_match, parse_collection_payload, parse_collection_snapshot_items,
  then_check,
}
use prime_detailer_backend.Endpoints.Handlers.{
  CollectionDomainHandlers, CollectionWriteContext, Listed, Ran, items, ran, threw,
}

pub record Request : Type 0 where
  pub collection : String
  pub entity_id : String
  pub auth : Option AuthUser
  pub branch_id : Option String
  pub page : Option String
  pub page_size : Option String
  pub body : Json

pub data Body : Type 0 where
  message : String → Body
  listed : Listed → Body
  one_item : Json → Body
  ok_body : Body

-- A response, or an exception that goes to the error handler.
pub data Response : Type 0 where
  replied : ℕ → Body → Response
  passed_on : Response

abbrev pub forbidden : String → Response
forbidden text = replied 403 (message text)

abbrev is_payroll_role : Option AuthUser → Bool
is_payroll_role none = false
is_payroll_role (some auth) = includes_role payroll_access_roles auth.role

unfoldable pub assert_payroll_access : String → Option AuthUser → Bool
assert_payroll_access collection auth =
    if not (str_eq collection "payroll") then true else is_payroll_role auth

unfoldable pub assert_pickup_drop_writes_allowed : Option String → String → Bool
unfolding is_pickup_drop_write_blocked
assert_pickup_drop_writes_allowed raw collection =
    if not (str_eq collection "pickupDropRequests")
    then true
    else not (is_pickup_drop_write_blocked raw)

abbrev is_super_admin : AppRole → Bool
is_super_admin (staff super_admin) = true
is_super_admin role = false

unfoldable pub write_context : AuthUser → String → CollectionWriteContext
write_context auth organization_id = record {
  organization_id = organization_id;
  has_job_card_pricing_permission =
      is_super_admin auth.role || includes (or_else auth.permissions []) "JOB_CARD_PRICING";
  user_id = some auth.id;
  skip_generic_activity_log = false;
}

abbrev pub is_known : String → Bool
is_known collection = is_array_collection collection || is_singleton_collection collection

-- `snapshotSchema.parse(body).items`
abbrev pub body_items : Json → Option (List Json)
body_items body = elim (get "items" (fields_of body)) [
  | some (arr vs) ↦ some (to_list vs)
  | v ↦ none
]

-- `item === null || item === undefined`
abbrev item_reply : Option Json → Response
item_reply none = replied 404 (message "Not found")
item_reply (some null) = replied 404 (message "Not found")
item_reply (some item) = replied 200 (one_item item)

module _ {Db : Type 0} (find_org : String → Option String) (list_branches : String → List String)
    (blocked : Option String) (schema_of : String → Option (Json → Option Json))
    (handlers : String → CollectionDomainHandlers Db) where
  abbrev pub scope_or :
      Response → (BranchScope → Db → Response × Db) → Db → Option BranchScope → Response × Db
  scope_or unscoped body db none = (unscoped, db)
  scope_or unscoped body db (some scope) = body scope db

  -- The part of a handler behind the check of the user: 401 without one.
  abbrev pub with_scope :
      Response
      → (AuthUser → BranchScope → Db → Response × Db)
      → Db
      → Option AuthUser
      → Response × Db
  with_scope unscoped body db none = (replied 401 (message "Unauthorized"), db)
  with_scope unscoped body db (some auth) =
      scope_or unscoped (body auth) db (resolve_branch_scope find_org list_branches auth)

  abbrev pub list_reply : Ran Db Listed → Response × Db
  list_reply (ran result db) = (replied 200 (listed result), db)
  list_reply (threw db) = (passed_on, db)

  abbrev pub done_reply : Ran Db (Unit {0}) → Response × Db
  done_reply (ran result db) = (replied 200 ok_body, db)
  done_reply (threw db) = (passed_on, db)

  abbrev pub deleted_reply : Ran Db Bool → Response × Db
  deleted_reply (ran true db) = (replied 200 ok_body, db)
  deleted_reply (ran false db) = (replied 404 (message "Not found"), db)
  deleted_reply (threw db) = (passed_on, db)

  unfoldable pub get_collection : Request → Db → Response × Db
  unfolding assert_payroll_access resolve_branch_scope intersect_query_branch_id parse_pagination
  get_collection req db =
      if not (is_known req.collection)
      then (replied 400 (message "Unknown collection"), db)
      else if not (assert_payroll_access req.collection req.auth)
      then (forbidden "You do not have access to payroll data.", db)
      else with_scope (replied 200 (listed (items [])))
          (λ auth scope d.
            let (page, page_size) = parse_pagination req.page req.page_size in
            list_reply (
              (handlers req.collection).list scope.organization_id
                (intersect_query_branch_id scope req.branch_id) page page_size d))
          db req.auth

  unfoldable pub get_collection_item : Request → Db → Response × Db
  unfolding assert_payroll_access resolve_branch_scope
  get_collection_item req db =
      if not (is_known req.collection)
      then (replied 400 (message "Unknown collection"), db)
      else if not (assert_payroll_access req.collection req.auth)
      then (forbidden "You do not have access to payroll data.", db)
      else with_scope (replied 404 (message "Not found"))
          (λ auth scope d. (
            item_reply ((handlers req.collection).get_item scope.organization_id req.entity_id d),
            d,
          ))
          db req.auth

  abbrev pub replace_parsed :
      Request → AuthUser → BranchScope → Option (List Json) → Db → Response × Db
  replace_parsed req auth scope none d = (passed_on, d)
  replace_parsed req auth scope (some rows) d =
      done_reply
        ((handlers req.collection).replace rows (write_context auth scope.organization_id) d)

  unfoldable pub post_snapshot : Request → Db → Response × Db
  unfolding assert_pickup_drop_writes_allowed assert_payroll_access resolve_branch_scope
      write_context parse_collection_snapshot_items
  post_snapshot req db =
      if not (is_array_collection req.collection)
      then (replied 400 (message "Snapshot only for array collections"), db)
      else if not (assert_pickup_drop_writes_allowed blocked req.collection)
      then (forbidden "Pickup/Drop writes are temporarily blocked.", db)
      else if not (assert_payroll_access req.collection req.auth)
      then (forbidden "You do not have access to payroll data.", db)
      else with_scope (forbidden "Organization not found on user")
          (λ auth scope d.
            replace_parsed req auth scope
              (then_check (body_items req.body)
                (parse_collection_snapshot_items schema_of req.collection))
              d)
          db req.auth

  abbrev pub upsert_parsed : Request → AuthUser → BranchScope → Option Json → Db → Response × Db
  upsert_parsed req auth scope none d = (passed_on, d)
  upsert_parsed req auth scope (some payload) d =
      if not (assert_payload_entity_id_match req.collection req.entity_id payload)
      then (passed_on, d)
      else done_reply (
          (handlers req.collection).upsert req.entity_id payload
            (write_context auth scope.organization_id) d)

  unfoldable pub put_collection_item : Request → Db → Response × Db
  unfolding assert_pickup_drop_writes_allowed assert_payroll_access resolve_branch_scope
      write_context parse_collection_payload assert_payload_entity_id_match
  put_collection_item req db =
      if not (is_known req.collection)
      then (replied 400 (message "Unknown collection"), db)
      else if is_singleton_collection req.collection
          && not (str_eq req.entity_id singleton_entity_id)
      then (replied 400 (message "Invalid singleton id"), db)
      else if not (assert_pickup_drop_writes_allowed blocked req.collection)
      then (forbidden "Pickup/Drop writes are temporarily blocked.", db)
      else if not (assert_payroll_access req.collection req.auth)
      then (forbidden "You do not have access to payroll data.", db)
      else with_scope (forbidden "Organization not found on user")
          (λ auth scope d.
            upsert_parsed req auth scope
              (parse_collection_payload schema_of req.collection req.body) d)
          db req.auth

  unfoldable pub delete_collection_row : Request → Db → Response × Db
  unfolding assert_payroll_access resolve_branch_scope write_context
  delete_collection_row req db =
      if not (is_array_collection req.collection)
      then (replied 400 (message "Delete only for array collections"), db)
      else if not (assert_payroll_access req.collection req.auth)
      then (forbidden "You do not have access to payroll data.", db)
      else with_scope (forbidden "Organization not found on user")
          (λ auth scope d. deleted_reply (
            (handlers req.collection).delete_item scope.organization_id req.entity_id
              (write_context auth scope.organization_id) d))
          db req.auth

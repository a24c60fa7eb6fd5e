-- ===== src/Endpoints/Confined.antt =====
-- A request reaches the rows of the organisation of the user only.
use prime_detailer_backend.Base.{
  String, Bool, true, false, not, ◌&&◌, ◌≡◌, Option, none, some, List, if◌then◌else◌, Bool-cases,
  inl, inr,
}
use prime_detailer_backend.Base.Text.{str_eq}
use prime_detailer_backend.Json.{Json}
use prime_detailer_backend.Access.Permission.{AuthUser}
use prime_detailer_backend.Collections.{
  is_array_collection, is_singleton_collection, singleton_entity_id,
}
use prime_detailer_backend.Limits.Pagination.{parse_pagination}
use prime_detailer_backend.Scope.Resolve.{
  BranchScope, intersect_query_branch_id, resolve_branch_scope,
}
use prime_detailer_backend.Store.Rows.{RowStore}
use prime_detailer_backend.Store.Isolation.{Keeps}
use prime_detailer_backend.Endpoints.Validate.{
  parse_collection_payload, parse_collection_snapshot_items, then_check,
}
use prime_detailer_backend.Endpoints.Handlers.{CollectionDomainHandlers, Listed, Ran, ran, threw}
use prime_detailer_backend.Endpoints.Controller.{
  body_items, assert_pickup_drop_writes_allowed, Request, Response, assert_payroll_access,
  delete_collection_row, get_collection, get_collection_item, post_snapshot, put_collection_item,
  is_known, write_context, list_reply, done_reply, deleted_reply, upsert_parsed, replace_parsed,
}
use prime_detailer_backend.Endpoints.TenantSafe.{IsTenantSafe, Keeps-refl, database_of}
use prime_detailer_backend.Endpoints.Refusals.{
  Endpoint, serve, get_list, get_one, snapshot, put, delete_row,
}

-- A property of the end of a handler holds if it holds of the early return and of the rest.
guarded :
    {A : Type 0} (Q : A → Type 0) (b : Bool) (early rest : A)
    → Q early
    → Q rest
    → Q (if b then early else rest)
guarded Q true early rest h h' = h
guarded Q false early rest h h' = h'

module _ {Db : Type 0} (find_org : String → Option String) (list_branches : String → List String)
    (blocked : Option String) (schema_of : String → Option (Json → Option Json))
    (handlers : String → CollectionDomainHandlers Db) where
  module _ (store : RowStore Db) (req : Request) (db : Db) (auth : AuthUser) (scope : BranchScope)
      (signed_in : req.auth ≡ some auth)
      (in_scope : resolve_branch_scope find_org list_branches auth ≡ some scope)
      (safe : IsTenantSafe store (handlers req.collection)) where
    abbrev KeepsOthers : Response × Db → Type 0
    KeepsOthers result = Keeps store scope.organization_id db result.1

    same : Keeps store scope.organization_id db db
    same = Keeps-refl store scope.organization_id db

    listed_Keeps :
        (r : Ran Db Listed)
        → Keeps store scope.organization_id db (database_of r)
        → KeepsOthers (list_reply find_org list_branches blocked schema_of handlers r)
    listed_Keeps (ran a d) h = h
    listed_Keeps (threw d) h = h

    done_Keeps :
        (r : Ran Db (Unit {0}))
        → Keeps store scope.organization_id db (database_of r)
        → KeepsOthers (done_reply find_org list_branches blocked schema_of handlers r)
    done_Keeps (ran a d) h = h
    done_Keeps (threw d) h = h

    deleted_Keeps :
        (r : Ran Db Bool)
        → Keeps store scope.organization_id db (database_of r)
        → KeepsOthers (deleted_reply find_org list_branches blocked schema_of handlers r)
    deleted_Keeps (ran true d) h = h
    deleted_Keeps (ran false d) h = h
    deleted_Keeps (threw d) h = h

    list_Keeps : KeepsOthers (
        let (page, page_size) = parse_pagination req.page req.page_size in
        list_reply find_org list_branches blocked schema_of handlers (
          (handlers req.collection).list scope.organization_id
            (intersect_query_branch_id scope req.branch_id)
            page
            page_size
            db))
    list_Keeps =
        let (page, page_size) = parse_pagination req.page req.page_size in
        let allowed = intersect_query_branch_id scope req.branch_id in
        listed_Keeps
          ((handlers req.collection).list scope.organization_id allowed page page_size db)
          (safe.list_keeps scope.organization_id allowed page page_size db)

    delete_Keeps : KeepsOthers (
        deleted_reply find_org list_branches blocked schema_of handlers (
          (handlers req.collection).delete_item scope.organization_id req.entity_id
            (write_context auth scope.organization_id)
            db))
    delete_Keeps =
        let ctx = write_context auth scope.organization_id in
        deleted_Keeps
          ((handlers req.collection).delete_item scope.organization_id req.entity_id ctx db)
          (safe.delete_keeps scope.organization_id req.entity_id ctx db)

    replace_Keeps :
        (rows : Option (List Json))
        → KeepsOthers (
            replace_parsed find_org list_branches blocked schema_of handlers req auth scope rows db)
    unfolding write_context
    replace_Keeps none = same
    replace_Keeps (some rows) =
        done_Keeps
          ((handlers req.collection).replace rows (write_context auth scope.organization_id) db)
          (safe.replace_keeps rows (write_context auth scope.organization_id) db)

    upsert_Keeps :
        (payload : Option Json)
        → KeepsOthers (
            upsert_parsed find_org list_branches blocked schema_of handlers req auth scope payload
              db)
    unfolding write_context
    upsert_Keeps none = same
    upsert_Keeps (some payload) = guarded KeepsOthers _ _ _ same (
        done_Keeps
          ((handlers req.collection).upsert req.entity_id payload
            (write_context auth scope.organization_id) db)
          (safe.upsert_keeps req.entity_id payload (write_context auth scope.organization_id) db))

    -- Whatever a signed-in user with a scope sends to a handler, the rows of the organisations other
    -- than that of the scope stay as they were, if the handlers of the collection write only for the
    -- organisation that they are called with.
    pub serve-Keeps :
        (endpoint : Endpoint)
        → Keeps store scope.organization_id db
            (serve find_org list_branches blocked schema_of handlers endpoint req db).1
    unfolding serve get_collection get_collection_item post_snapshot put_collection_item
        delete_collection_row
    serve-Keeps get_list = elim (Bool-cases (is_known req.collection)) [
      | inl known ↦ elim (Bool-cases (assert_payroll_access req.collection req.auth)) [
        | inl may ↦ rw (known, may, signed_in, in_scope) list_Keeps
        | inr may_not ↦ rw (known, may_not) same
      ]
      | inr unknown ↦ rw unknown same
    ]
    serve-Keeps get_one = elim (Bool-cases (is_known req.collection)) [
      | inl known ↦ elim (Bool-cases (assert_payroll_access req.collection req.auth)) [
        | inl may ↦ rw (known, may, signed_in, in_scope) same
        | inr may_not ↦ rw (known, may_not) same
      ]
      | inr unknown ↦ rw unknown same
    ]
    serve-Keeps snapshot = elim (Bool-cases (is_array_collection req.collection)) [
      | inl array ↦ elim (Bool-cases (assert_pickup_drop_writes_allowed blocked req.collection)) [
        | inl open_now ↦ elim (Bool-cases (assert_payroll_access req.collection req.auth)) [
          | inl may ↦
              rw (array, open_now, may, signed_in, in_scope)
                (replace_Keeps (
                  then_check (body_items req.body)
                    (parse_collection_snapshot_items schema_of req.collection)))
          | inr may_not ↦ rw (array, open_now, may_not) same
        ]
        | inr shut ↦ rw (array, shut) same
      ]
      | inr other ↦ rw other same
    ]
    serve-Keeps put = elim (Bool-cases (is_known req.collection)) [
      | inl known ↦
          elim (Bool-cases (
            is_singleton_collection req.collection
            && not (str_eq req.entity_id singleton_entity_id))) [
              | inl other_id ↦ rw (known, other_id) same
              | inr own_id ↦
                  elim (Bool-cases (assert_pickup_drop_writes_allowed blocked req.collection)) [
                    | inl open_now ↦
                        elim (Bool-cases (assert_payroll_access req.collection req.auth)) [
                          | inl may ↦
                              rw (known, own_id, open_now, may, signed_in, in_scope)
                                (upsert_Keeps
                                  (parse_collection_payload schema_of req.collection req.body))
                          | inr may_not ↦ rw (known, own_id, open_now, may_not) same
                        ]
                    | inr shut ↦ rw (known, own_id, shut) same
                  ]
            ]
      | inr unknown ↦ rw unknown same
    ]
    serve-Keeps delete_row = elim (Bool-cases (is_array_collection req.collection)) [
      | inl array ↦ elim (Bool-cases (assert_payroll_access req.collection req.auth)) [
        | inl may ↦ rw (array, may, signed_in, in_scope) delete_Keeps
        | inr may_not ↦ rw (array, may_not) same
      ]
      | inr other ↦ rw other same
    ]

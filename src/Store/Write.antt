-- ===== src/Store/Write.antt =====
-- Reading and writing single rows: getCollectionItem, upsertCollectionItem, deleteCollectionItem and
-- upsertSingleton of src/modules/collections/app-json-store.ts.
use prime_detailer_backend.Base.{
  ℕ, String, Bool, true, false, not, ◌&&◌, Option, none, some, List, [], ◌∷◌, if◌then◌else◌,
  is_some,
}
use prime_detailer_backend.Base.Text.{str_eq, upper}
use prime_detailer_backend.Json.{Json, obj}
use prime_detailer_backend.Collections.{
  is_singleton_collection, singleton_entity_id, singleton_storage_entity_id,
}
use prime_detailer_backend.Base.Text.{unless_empty}
use prime_detailer_backend.Store.Rows.{Row, RowStore}
use prime_detailer_backend.Store.Payload.{is_collection_write_allowed, tracked, created_at_of}
use mathlib.Core.Option

-- The context of a write, as far as the storage reads it.
pub record CollectionWriteContext : Type 0 where
  pub user_id : Option String
  pub skip_generic_activity_log : Bool

-- A call of `logBusinessActivity`; the action is the word in front and the name in capitals.
pub record Activity : Type 0 where
  pub action : String × List ℕ
  pub entity_type : String
  pub entity_id : String

pub data StoreError : Type 0 where
  writes_blocked : StoreError
  other_organization : StoreError
  empty_snapshot : StoreError
  foreign_ids : StoreError
  not_array_collection : StoreError
  not_singleton_collection : StoreError

-- A write leaves a database and the activities that it logged, or an error.
pub data Result (Db : Type 0) : Type 0 where
  done : Db → List Activity → Result Db
  failed : StoreError → Result Db

abbrev pub no_context : CollectionWriteContext
no_context = record { user_id = none; skip_generic_activity_log = false }

-- `ctx?.userId`
abbrev pub user_of : Option CollectionWriteContext → Option String
user_of none = none
user_of (some ctx) = unless_empty ctx.user_id

abbrev skips_log : Option CollectionWriteContext → Bool
skips_log none = true
skips_log (some ctx) = ctx.skip_generic_activity_log

unfoldable pub activity_log :
    Option CollectionWriteContext → String → String → String → List Activity
activity_log ctx action collection entity_id =
    if is_some (user_of ctx) && not (str_eq collection "activityLogs") && not (skips_log ctx)
    then record {
      action = (action, upper collection);
      entity_type = collection;
      entity_id = entity_id;
    }
      ∷ []
    else []

-- The payload of a row, if it is of this organisation.
abbrev pub payload_in : String → Option Row → Option Json
payload_in organization_id none = none
payload_in organization_id (some row) =
    if str_eq row.organization_id organization_id then some row.payload else none

abbrev is_default : String → String → Bool
is_default collection entity_id =
    is_singleton_collection collection && str_eq entity_id singleton_entity_id

-- Singletons are stored under the id of their organisation.
unfoldable pub storage_entity_id : String → String → String → String
storage_entity_id collection entity_id organization_id =
    if is_default collection entity_id
    then singleton_storage_entity_id organization_id
    else entity_id

abbrev pub is_owned : String → Option Row → Bool
is_owned organization_id none = false
is_owned organization_id (some row) = str_eq row.organization_id organization_id

module _ {Db : Type 0} (store : RowStore Db) where
  abbrev or_legacy : String → String → Db → Option Json → Option Json
  or_legacy collection organization_id db (some payload) = some payload
  or_legacy collection organization_id db none =
      payload_in organization_id (store.find_unique db collection singleton_entity_id)

  abbrev get_in : String → String → Option String → Db → Option Json
  get_in collection entity_id none db =
      Option.map (λ (row : Row). row.payload) (store.find_unique db collection entity_id)
  get_in collection entity_id (some organization_id) db =
      if is_default collection entity_id
      then or_legacy collection organization_id db (
          payload_in organization_id
            (store.find_unique db collection (singleton_storage_entity_id organization_id)))
      else payload_in organization_id (store.find_unique db collection entity_id)

  -- An empty organisation id counts as none.
  unfoldable pub get_collection_item : String → String → Option String → Db → Option Json
  get_collection_item collection entity_id organization_id db =
      get_in collection entity_id (unless_empty organization_id) db

  -- A shared row from before the organisations were separated is deleted on the first write.
  unfoldable pub migrate_legacy : String → String → String → Option Row → Db → Db
  migrate_legacy collection entity_id organization_id existing db =
      if is_default collection entity_id
        && not (is_some existing)
        && is_owned organization_id (store.find_unique db collection singleton_entity_id)
      then store.delete_row collection singleton_entity_id db
      else db

  -- `is_date` tells whether `new Date` reads a string, and `raw` is the environment variable.
  module _ (is_date : String → Bool) (raw : Option String) where
    -- The row that is created or whose payload replaces the old one.
    unfoldable pub new_row :
        String → String → Json → String → Option CollectionWriteContext → Option Row → Row
    new_row collection entity_id payload organization_id ctx existing =
        let fs = tracked (user_of ctx) (Option.map (λ (row : Row). row.payload) existing) payload in
        record {
          collection = collection;
          entity_id = storage_entity_id collection entity_id organization_id;
          organization_id = organization_id;
          payload = obj fs;
          created_at = if is_some existing then none else created_at_of is_date fs;
        }

    abbrev upsert_over :
        String
        → String
        → Json
        → String
        → Option CollectionWriteContext
        → Option Row
        → Db
        → Result Db
    upsert_over collection entity_id payload organization_id ctx existing db =
        if is_some existing && not (is_owned organization_id existing)
        then failed other_organization
        else done
            (store.upsert (new_row collection entity_id payload organization_id ctx existing)
              (migrate_legacy collection entity_id organization_id existing db))
            (activity_log ctx (if is_some existing then "UPDATE_" else "CREATE_") collection
              (if is_singleton_collection collection then singleton_entity_id else entity_id))

    unfoldable pub upsert_collection_item :
        String → String → Json → String → Option CollectionWriteContext → Db → Result Db
    upsert_collection_item collection entity_id payload organization_id ctx db =
        if not (is_collection_write_allowed raw collection)
        then failed writes_blocked
        else upsert_over collection entity_id payload organization_id ctx
            (store.find_unique db collection
              (storage_entity_id collection entity_id organization_id))
            db

    unfoldable pub upsert_singleton :
        String → Json → String → Option CollectionWriteContext → Db → Result Db
    unfolding upsert_collection_item
    upsert_singleton collection payload organization_id ctx db =
        if not (is_singleton_collection collection)
        then failed not_singleton_collection
        else upsert_collection_item collection singleton_entity_id payload organization_id ctx db

  -- Whether a row was deleted, the database and the activities.
  unfoldable pub delete_collection_item :
      String → String → String → Option CollectionWriteContext → Db → Bool × Db × List Activity
  delete_collection_item collection entity_id organization_id ctx db =
      if is_owned organization_id (store.find_unique db collection entity_id)
      then (
        true,
        store.delete_row collection entity_id db,
        activity_log ctx "DELETE_" collection entity_id,
      )
      else (false, db, [])

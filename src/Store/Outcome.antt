-- ===== src/Store/Outcome.antt =====
-- What a write that succeeds has checked, and the database that it leaves.
use prime_detailer_backend.Base.{
  String, Bool, true, false, not, ◌&&◌, ◌==◌, length, ◌≡◌, refl, ap, Option, List, [],
  if◌then◌else◌, arith, is_some,
}
use prime_detailer_backend.Json.{Json}
use prime_detailer_backend.Collections.{
  is_array_collection, is_singleton_collection, singleton_entity_id,
}
use prime_detailer_backend.Store.Rows.{Row, RowStore}
use prime_detailer_backend.Store.Payload.{is_collection_write_allowed}
use prime_detailer_backend.Store.Write.{
  CollectionWriteContext, Activity, Result, done, failed, writes_blocked, other_organization,
  empty_snapshot, foreign_ids, not_array_collection, is_owned, activity_log, migrate_legacy,
  new_row, upsert_collection_item, storage_entity_id, StoreError,
}
use prime_detailer_backend.Store.Replace.{
  items_by_id, has_foreign_id, loses_financial_rows, replace_rows, replace_unique,
  replace_collection_array,
}

module _ {Db : Type 0} where
  abbrev database : Db → Result Db → Db
  database db (done db' log) = db'
  database db (failed e) = db

  -- A guard that a write that succeeds has passed.
  guard_done :
      (b : Bool) (r : StoreError) (result : Result Db) (db : Db) (log : List Activity)
      → (if b then failed r else result) ≡ done db log
      → (b ≡ false) × (result ≡ done db log)
  guard_done true r result db log e = cc
  guard_done false r result db log e = (refl, e)

  done_injective : (db db' : Db) (log log' : List Activity) → done db log ≡ done db' log' → db ≡ db'
  done_injective db db' log log' e = ap (database db) e

-- A key of which the organisation owns the row, or that has none.
abbrev pub IsFree : String → Option Row → Type 0
IsFree organization_id existing =
    (is_some existing && not (is_owned organization_id existing)) ≡ false

module _ {Db : Type 0} (store : RowStore Db) (is_date : String → Bool) (raw : Option String) where
  -- The row at the key under which an item is stored.
  abbrev pub existing_at : String → String → String → Db → Option Row
  existing_at collection entity_id organization_id db =
      store.find_unique db collection (storage_entity_id collection entity_id organization_id)

  pub upsert_collection_item_done :
      (collection entity_id : String) (payload : Json) (organization_id : String)
      (ctx : Option CollectionWriteContext) (log : List Activity) (db db' : Db)
      → upsert_collection_item store is_date raw collection entity_id payload organization_id ctx db
        ≡ done db' log
      → IsFree organization_id (existing_at collection entity_id organization_id db)
        × (store.upsert
              (new_row store is_date raw collection entity_id payload organization_id ctx
                (existing_at collection entity_id organization_id db))
              (migrate_legacy store collection entity_id organization_id
                (existing_at collection entity_id organization_id db)
                db)
            ≡ db')
  unfolding upsert_collection_item
  upsert_collection_item_done collection entity_id payload organization_id ctx log db db' e =
      let existing = existing_at collection entity_id organization_id db in
      let written =
        store.upsert
          (new_row store is_date raw collection entity_id payload organization_id ctx existing)
          (migrate_legacy store collection entity_id organization_id existing db) in
      let logged =
        activity_log ctx (if is_some existing then "UPDATE_" else "CREATE_") collection
          (if is_singleton_collection collection then singleton_entity_id else entity_id) in
      let allowed =
        guard_done (not (is_collection_write_allowed raw collection)) writes_blocked
          (if is_some existing && not (is_owned organization_id existing)
            then failed other_organization
            else done written logged)
          db' log e in
      let free =
        guard_done (is_some existing && not (is_owned organization_id existing)) other_organization
          (done written logged) db' log allowed.1 in
      (free.0, done_injective written db' logged log free.1)

  pub replace_collection_array_done :
      (collection : String) (items : List Json) (organization_id : String)
      (ctx : Option CollectionWriteContext) (log : List Activity) (db db' : Db)
      → replace_collection_array store is_date raw collection items organization_id ctx db
        ≡ done db' log
      → (is_array_collection collection ≡ true)
        × (loses_financial_rows store collection organization_id (items_by_id items []) db ≡ false)
        × (has_foreign_id store collection organization_id (items_by_id items []) db ≡ false)
        × (replace_rows store is_date raw collection (items_by_id items []) organization_id ctx db
            ≡ db')
  unfolding replace_collection_array replace_unique
  replace_collection_array_done collection items organization_id ctx log db db' e =
      let unique = items_by_id items [] in
      let replaced = replace_rows store is_date raw collection unique organization_id ctx db in
      let logged =
        (if length unique == 0 then [] else activity_log ctx "REPLACE_" collection "BULK") in
      let allowed =
        guard_done (not (is_collection_write_allowed raw collection)) writes_blocked
          (if not (is_array_collection collection)
            then failed not_array_collection
            else replace_unique store is_date raw collection unique organization_id ctx db)
          db' log e in
      let array =
        guard_done (not (is_array_collection collection)) not_array_collection
          (replace_unique store is_date raw collection unique organization_id ctx db) db' log
          allowed.1 in
      let safe =
        guard_done (loses_financial_rows store collection organization_id unique db) empty_snapshot
          (if has_foreign_id store collection organization_id unique db
            then failed foreign_ids
            else done replaced logged)
          db' log array.1 in
      let ours =
        guard_done (has_foreign_id store collection organization_id unique db) foreign_ids
          (done replaced logged) db' log safe.1 in
      (ground (arith, array.0), safe.0, ours.0, done_injective replaced db' logged log ours.1)

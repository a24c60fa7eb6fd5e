-- ===== src/Store/Replace.antt =====
-- Replacing a collection by a snapshot, replaceCollectionArray of
-- src/modules/collections/app-json-store.ts. Its transaction is one step.
use prime_detailer_backend.Base.{
  String, Bool, false, not, ◌&&◌, Option, none, some, List, [], ◌∷◌, if◌then◌else◌, or_else,
  is_some, any, map, length, ◌==◌,
}
use prime_detailer_backend.Base.Text.{str_eq, trim, includes}
use prime_detailer_backend.Base.Assoc.{put}
use prime_detailer_backend.Json.{Json, obj, str, Fields, get, set, as_string, fields_of}
use prime_detailer_backend.Collections.{is_array_collection}
use prime_detailer_backend.Base.Text.{unless_empty}
use prime_detailer_backend.Store.Rows.{Row, RowStore}
use prime_detailer_backend.Store.Payload.{
  is_collection_write_allowed, financial_collections, created_at_of,
}
use prime_detailer_backend.Store.Write.{
  CollectionWriteContext, Result, done, failed, writes_blocked, empty_snapshot, foreign_ids,
  not_array_collection, user_of, activity_log,
}

abbrev trimmed : Option String → Option String
trimmed none = none
trimmed (some id) = some (trim id)

-- The id of an item without the space around it, unless that is empty.
abbrev pub item_id : Json → Option String
item_id item = unless_empty (trimmed (as_string (get "id" (fields_of item))))

-- `byId.set(id, { ...item, id })`: an id keeps its place and takes the last item.
abbrev add_item : Option String → Json → List (String × Fields) → List (String × Fields)
add_item none item by_id = by_id
add_item (some id) item by_id = put id (set "id" (str id) (fields_of item)) by_id

unfoldable pub items_by_id : List Json → List (String × Fields) → List (String × Fields)
items_by_id [] by_id = by_id
items_by_id (item ∷ items) by_id = items_by_id items (add_item (item_id item) item by_id)

-- `createdByMap.get(id)` over the rows of the collection; the last row of an id counts.
unfoldable pub created_by : String → List Row → Option String
created_by id [] = none
created_by id (row ∷ rows) =
    let rest = created_by id rows in
    if is_some rest
    then rest
    else if str_eq row.entity_id id
    then as_string (get "createdByUserId" (fields_of row.payload))
    else none

abbrev restored : Option String → Option String → Fields → Fields
restored none none item = item
restored none (some creator) item = set "createdByUserId" (str creator) item
restored (some user) creator item =
    set "updatedByUserId" (str user) (set "createdByUserId" (str (or_else creator user)) item)

-- The row of an item; an empty creator counts as none.
unfoldable pub snapshot_row :
    (String → Bool) → String → String → Option String → List Row → String × Fields → Row
unfolding created_by
snapshot_row is_date collection organization_id user existing (id, item) =
    let fs = restored user (unless_empty (created_by id existing)) item in
    record {
      collection = collection;
      entity_id = id;
      organization_id = organization_id;
      payload = obj fs;
      created_at = created_at_of is_date fs;
    }

module _ {Db : Type 0} (store : RowStore Db) where
  -- `createMany` with `skipDuplicates`
  unfoldable pub create_many : List Row → Db → Db
  create_many [] db = db
  create_many (row ∷ rows) db = create_many rows (store.create_unless_exists row db)

  abbrev is_foreign : String → Option Row → Bool
  is_foreign organization_id none = false
  is_foreign organization_id (some row) = not (str_eq row.organization_id organization_id)

  -- An id of the snapshot that belongs to another organisation.
  unfoldable pub has_foreign_id : String → String → List (String × Fields) → Db → Bool
  has_foreign_id collection organization_id items db =
      any
        (λ (item : String × Fields).
          is_foreign organization_id (store.find_unique db collection item.0))
        items

  -- An empty snapshot of a financial collection that has rows.
  unfoldable pub loses_financial_rows : String → String → List (String × Fields) → Db → Bool
  loses_financial_rows collection organization_id items db =
      includes financial_collections collection
      && length items == 0
      && not (length (store.find_many db collection organization_id) == 0)

  -- `is_date` tells whether `new Date` reads a string, and `raw` is the environment variable.
  module _ (is_date : String → Bool) (raw : Option String) where
    -- The transaction: the rows of the organisation are deleted and those of the snapshot created.
    unfoldable pub replace_rows :
        String → List (String × Fields) → String → Option CollectionWriteContext → Db → Db
    unfolding create_many snapshot_row
    replace_rows collection items organization_id ctx db =
        create_many
          (map
            (snapshot_row is_date collection organization_id (user_of ctx)
              (store.find_many db collection organization_id))
            items)
          (store.delete_many collection organization_id db)

    unfoldable pub replace_unique :
        String → List (String × Fields) → String → Option CollectionWriteContext → Db → Result Db
    unfolding loses_financial_rows has_foreign_id replace_rows
    replace_unique collection items organization_id ctx db =
        if loses_financial_rows collection organization_id items db
        then failed empty_snapshot
        else if has_foreign_id collection organization_id items db
        then failed foreign_ids
        else done (replace_rows collection items organization_id ctx db)
            (if length items == 0 then [] else activity_log ctx "REPLACE_" collection "BULK")

    unfoldable pub replace_collection_array :
        String → List Json → String → Option CollectionWriteContext → Db → Result Db
    unfolding replace_unique items_by_id
    replace_collection_array collection items organization_id ctx db =
        if not (is_collection_write_allowed raw collection)
        then failed writes_blocked
        else if not (is_array_collection collection)
        then failed not_array_collection
        else replace_unique collection (items_by_id items []) organization_id ctx db

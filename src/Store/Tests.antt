-- ===== src/Store/Tests.antt =====
-- Tests of src/modules/collections/app-json-store.ts on a table that is a list of rows, and its
-- theorems there.
use prime_detailer_backend.Base.{
  String, Bool, true, false, ◌≡◌, ◌≢◌, refl, Option, none, some, List, [], ◌∷◌, is_some,
}
use prime_detailer_backend.Base.Text.{decimal, includes, is_space, is_blank, trim, lower}
use prime_detailer_backend.Json.{Json, null, str, obj, end, field}
use prime_detailer_backend.Collections.{
  is_array_collection, is_singleton_collection, singleton_storage_entity_id,
}
use prime_detailer_backend.Store.Rows.{Row}
use prime_detailer_backend.Store.ListRows.{
  rows, upsert, create_unless_exists, delete_row, delete_many, find_many,
}
use prime_detailer_backend.Store.Payload.{
  is_pickup_drop_write_blocked, is_collection_write_allowed, spread, tracked, created_at_of,
}
use prime_detailer_backend.Store.Write.{
  CollectionWriteContext, Activity, Result, done, failed, writes_blocked, other_organization,
  empty_snapshot, foreign_ids, activity_log, storage_entity_id, get_collection_item, migrate_legacy,
  new_row, upsert_collection_item, upsert_singleton, delete_collection_item,
}
use prime_detailer_backend.Store.Replace.{
  items_by_id, created_by, snapshot_row, create_many, has_foreign_id, loses_financial_rows,
  replace_rows, replace_unique, replace_collection_array,
}
use prime_detailer_backend.Store.Isolation.{stop, step, upserts, replaces, Runs-Keeps}
use prime_detailer_backend.Store.Lookup.{delete_collection_item-get}
use prime_detailer_backend.Store.Snapshot.{
  get-replace_collection_array, replace_collection_array-financial,
}
use prime_detailer_backend.Store.LastItem.{last_with}
use mathlib.Core.List.{Memᴰ}
use text.Mathlib.TextEquality.{eq_iff}

storage : Unit {0}
unfolding rows upsert create_unless_exists delete_row delete_many find_many
    is_pickup_drop_write_blocked is_collection_write_allowed spread tracked created_at_of
    activity_log storage_entity_id get_collection_item migrate_legacy new_row upsert_collection_item
    upsert_singleton delete_collection_item items_by_id created_by snapshot_row create_many
    has_foreign_id loses_financial_rows replace_rows replace_unique replace_collection_array decimal
    includes is_space is_blank trim lower is_array_collection is_singleton_collection
    singleton_storage_entity_id last_with
storage = tt

decimal_120 : decimal 120 ≡ "120"
unfolding storage
decimal_120 = refl

abbrev any_date : String → Bool
any_date raw = true

abbrev expense : String → Json
expense title = obj (field "id" (str "e1") (field "title" (str title) end))

abbrev expense_row : String → String → Row
expense_row id organization_id = record {
  collection = "expenses";
  entity_id = id;
  organization_id = organization_id;
  payload = obj (field "createdByUserId" (str "u1") end);
  created_at = none;
}

-- One expense of each of two organisations.
abbrev table : List Row
table = expense_row "e1" "o1" ∷ expense_row "e2" "o2" ∷ []

abbrev by_u2 : Option CollectionWriteContext
by_u2 = some (record { user_id = some "u2"; skip_generic_activity_log = false })

abbrev database_of : Result (List Row) → List Row
database_of (done db log) = db
database_of (failed e) = []

abbrev log_of : Result (List Row) → List Activity
log_of (done db log) = log
log_of (failed e) = []

abbrev written : Result (List Row)
written = upsert_collection_item rows any_date none "expenses" "e1" (expense "Oil") "o1" by_u2 table

abbrev replaced : Result (List Row)
replaced =
    replace_collection_array rows any_date none "expenses"
      (expense "Oil" ∷ null ∷ expense "Wax" ∷ []) "o1" by_u2 (database_of written)

written_done : written ≡ done (database_of written) (log_of written)
unfolding storage
written_done = refl

replaced_done : replaced ≡ done (database_of replaced) (log_of replaced)
unfolding storage
replaced_done = refl

e2_there : rows.find_unique table "expenses" "e2" ≡ some (expense_row "e2" "o2")
unfolding storage
e2_there = refl

o2-ne-o1 : ¬ Memᴰ {A = String} "o2" ("o1" ∷ [])
o2-ne-o1 (Memᴰ.head e) = let same : false ≡ true = (eq_iff "o2" "o1").1 e in cc
o2-ne-o1 (Memᴰ.tail m) = elim m [ ]

-- Nobody may write the expense of another organisation, or take over its id by a snapshot.
not_ours :
    (upsert_collection_item rows any_date none "expenses" "e2" (expense "Oil") "o1" by_u2 table
      ≡ failed other_organization)
    × (replace_collection_array rows any_date none "expenses"
          (obj (field "id" (str " e2 ") end) ∷ [])
          "o1"
          by_u2
          table
        ≡ failed foreign_ids)
    × (replace_collection_array rows any_date none "expenses" (null ∷ []) "o1" by_u2 table
        ≡ failed empty_snapshot)
    × (upsert_collection_item rows any_date
          (some " Yes")
          "pickupDropRequests"
          "p"
          null
          "o1"
          by_u2
          []
        ≡ failed writes_blocked)
unfolding storage
not_ours = (refl, refl, refl, refl)

Runs-Keeps_example :
    rows.find_unique (database_of replaced) "expenses" "e2" ≡ some (expense_row "e2" "o2")
Runs-Keeps_example =
    Runs-Keeps rows any_date none ("o1" ∷ []) table (database_of replaced) "expenses" "e2"
      (expense_row "e2" "o2")
      (step "o1" (Memᴰ.head refl)
        (upserts "expenses" "e1" (expense "Oil") by_u2 (log_of written) written_done)
        (step "o1" (Memᴰ.head refl)
          (replaces "expenses" (expense "Oil" ∷ null ∷ expense "Wax" ∷ []) by_u2 (log_of replaced)
            replaced_done)
          stop))
      e2_there o2-ne-o1

-- A singleton moves from the shared key to that of its organisation.
abbrev shared_settings : List Row
shared_settings =
    record {
      collection = "appSettings";
      entity_id = "default";
      organization_id = "o1";
      payload = null;
      created_at = none;
    }
    ∷ []

abbrev moved : Result (List Row)
moved =
    upsert_collection_item rows any_date none "appSettings" "default" (obj end) "o1" by_u2
      shared_settings

moved_away : rows.find_unique (database_of moved) "appSettings" "default" ≡ none
unfolding storage
moved_away = refl

abbrev deleted : Bool × List Row × List Activity
deleted = delete_collection_item rows "expenses" "e1" "o1" by_u2 table

delete_collection_item-get_example :
    (deleted.0 ≡ is_some (get_collection_item rows "expenses" "e1" (some "o1") table))
    × (get_collection_item rows "expenses" "e1" (some "o1") deleted.1 ≡ none)
unfolding storage
delete_collection_item-get_example =
    delete_collection_item-get rows "expenses" "e1" "o1" by_u2 table refl refl

get-replace_collection_array_example :
    get_collection_item rows "expenses" "e1" (some "o1") (database_of replaced)
    ≡ some (
        obj (
          field "id" (str "e1") (
            field "title"
              (str "Wax")
              (field "createdByUserId" (str "u1") (field "updatedByUserId" (str "u2") end)))))
unfolding storage
get-replace_collection_array_example =
    get-replace_collection_array rows any_date none "expenses" "e1" "o1"
      (expense "Oil" ∷ null ∷ expense "Wax" ∷ []) by_u2 (log_of replaced) (database_of written)
      (database_of replaced) refl replaced_done

e1_there :
    rows.find_unique (database_of written) "expenses" "e1"
    ≡ some (record (expense_row "e1" "o1") {
      payload = obj (tracked (some "u2") (some (expense_row "e1" "o1").payload) (expense "Oil"));
    })
unfolding storage
e1_there = refl

replace_collection_array-financial_example :
    (id : String) × (get_collection_item rows "expenses" id (some "o1") (database_of replaced)
      ≢ none)
unfolding storage
replace_collection_array-financial_example =
    replace_collection_array-financial rows any_date none "expenses" "e1" "o1"
      (expense "Oil" ∷ null ∷ expense "Wax" ∷ []) _ by_u2 (log_of replaced) (database_of written)
      (database_of replaced) refl refl e1_there refl replaced_done

-- ===== src/Store/Snapshot.antt =====
-- What replacing a collection by a snapshot leaves.
use prime_detailer_backend.Base.{
  String, Bool, true, false, not, ◌≡◌, ◌∙◌, ◌≢◌, refl, ap, sym, inl, inr, Bool-cases, Option, none,
  some, List, [], ◌∷◌, map, arith, length, ◌==◌, all, find, and-parts,
}
use prime_detailer_backend.Base.Text.{str_eq, includes, includes_iff}
use prime_detailer_backend.Json.{Json, Fields}
use prime_detailer_backend.Collections.{
  is_array_collection, is_singleton_collection, array_json_collections,
}
use prime_detailer_backend.Collections.Permissions.{all-Memᴰ}
use prime_detailer_backend.Store.Rows.{Row, RowStore, has_key, is_of, unless_row}
use prime_detailer_backend.Store.Payload.{financial_collections}
use prime_detailer_backend.Store.Write.{
  CollectionWriteContext, Activity, done, user_of, payload_in, get_collection_item,
}
use prime_detailer_backend.Store.Replace.{
  items_by_id, snapshot_row, create_many, has_foreign_id, loses_financial_rows, replace_rows,
  replace_collection_array,
}
use prime_detailer_backend.Store.Outcome.{replace_collection_array_done}
use mathlib.Core.Option
use mathlib.Core.List.{Memᴰ}
use text.Mathlib.TextEquality.{eq_iff}
use text.Mathlib.TextPositions.{eq_refl}
use prime_detailer_backend.Store.LastItem.{last_with, entry_unique}
use prime_detailer_backend.Base.Assoc.{entry, or_first, or_first-none}

module _ {Db : Type 0} (store : RowStore Db) where
  find-create_many :
      (c e : String) (rows : List Row) (db : Db)
      → store.find_unique (create_many store rows db) c e
        ≡ or_first (store.find_unique db c e) (find (has_key c e) rows)
  unfolding create_many
  find-create_many c e [] db = sym (or_first-none (store.find_unique db c e))
  find-create_many c e (row ∷ rows) db =
      find-create_many c e rows (store.create_unless_exists row db)
      ∙ ground (arith, store.find-create db row c e)

  module _ (is_date : String → Bool) (collection organization_id : String) where
    find-snapshot :
        (user : Option String) (existing : List Row) (id : String) (items : List (String × Fields))
        → find
            (has_key collection id)
            (map (snapshot_row is_date collection organization_id user existing) items)
          ≡ Option.map
              (λ item. snapshot_row is_date collection organization_id user existing (id, item))
              (entry id items)
    unfolding snapshot_row
    find-snapshot user existing id [] = refl
    find-snapshot user existing id ((i, item) ∷ items) =
        rw (eq_refl collection) (elim (Bool-cases (str_eq i id)) [
          | inl same ↦ rw same (
              ap
                (λ j.
                  some (snapshot_row is_date collection organization_id user existing (j, item)))
                ((eq_iff i id).0 same))
          | inr other ↦ rw other (find-snapshot user existing id items)
        ])

    unforeign :
        (id : String) (item : Fields) (items : List (String × Fields)) (db : Db) (row : Row)
        → has_foreign_id store collection organization_id items db ≡ false
        → entry id items ≡ some item
        → store.find_unique db collection id ≡ some row
        → str_eq row.organization_id organization_id ≡ true
    unfolding has_foreign_id
    unforeign id item [] db row ours e found = cc
    unforeign id item ((i, old) ∷ items) db row ours e found = elim (Bool-cases (str_eq i id)) [
      | inl same ↦
          let here : store.find_unique db collection i ≡ some row =
            rw ((eq_iff i id).0 same) found in
          ground (arith, here)
      | inr other ↦ unforeign id item items db row (ground arith) (rw other at e) found
    ]

disjoint : all (λ c. not (is_singleton_collection c)) array_json_collections ≡ true
unfolding is_singleton_collection includes
disjoint = refl

array-ne-singleton :
    (collection : String)
    → is_array_collection collection ≡ true
    → is_singleton_collection collection ≡ false
unfolding is_array_collection
array-ne-singleton collection h = ground (
  arith,
  all-Memᴰ (λ c. not (is_singleton_collection c)) array_json_collections collection disjoint
      ((includes_iff array_json_collections collection).0 h),
)

length-Memᴰ : (rows : List Row) (row : Row) → Memᴰ row rows → (length rows == 0) ≡ false
length-Memᴰ [] row m = elim m [ ]
length-Memᴰ (r ∷ rows) row m = ground arith

some-ne-none :
    {A B : Type 0} (f : A → B) (x : Option A) (a : A) → x ≡ some a → Option.map f x ≢ none
some-ne-none f none a e h = cc
some-ne-none f (some b) a e h = cc

first_item :
    (items : List (String × Fields))
    → (length items == 0) ≡ false
    → (id : String) × (item : Fields) × (entry id items ≡ some item)
first_item [] h = cc
first_item ((id, item) ∷ items) h = (id, item, rw (eq_refl id) refl)

-- The row of a key after the transaction, as its organisation reads it.
payload_in-replaced :
    (collection organization_id id : String) (old : Option Row) (row_of : Fields → Row)
    (item : Option Fields)
    → ((row : Row) → old ≡ some row → has_key collection id row ≡ true)
    → ((f : Fields) → (row_of f).organization_id ≡ organization_id)
    → ((f : Fields) (row : Row)
        → item ≡ some f
        → old ≡ some row
        → str_eq row.organization_id organization_id ≡ true)
    → payload_in organization_id
        (or_first (unless_row (is_of collection organization_id) old) (Option.map row_of item))
      ≡ Option.map (λ f. (row_of f).payload) item
payload_in-replaced collection organization_id id none row_of none key own ours = refl
payload_in-replaced collection organization_id id none row_of (some f) key own ours =
    rw (own f) (rw (eq_refl organization_id) refl)
payload_in-replaced collection organization_id id (some row) row_of none key own ours =
    let keyed = key row refl in ground arith
payload_in-replaced collection organization_id id (some row) row_of (some f) key own ours =
    let keyed =
      and-parts (str_eq row.collection collection) (str_eq row.entity_id id) (key row refl) in
    rw keyed.0 (rw (ours f row refl refl) (rw (own f) (rw (eq_refl organization_id) refl)))

module _ {Db : Type 0} (store : RowStore Db) (is_date : String → Bool) (raw : Option String) where
  -- After a collection has been replaced, its organisation reads for every id the last item of the
  -- snapshot with that id, as the row is made of it, and nothing for any other id.
  pub get-replace_collection_array :
      (collection id organization_id : String) (items : List Json)
      (ctx : Option CollectionWriteContext) (log : List Activity) (db db' : Db)
      → str_eq organization_id "" ≡ false
      → replace_collection_array store is_date raw collection items organization_id ctx db
        ≡ done db' log
      → get_collection_item store collection id (some organization_id) db'
        ≡ Option.map
            (λ item.
              (snapshot_row is_date collection organization_id
                (user_of ctx)
                (store.find_many db collection organization_id)
                (id, item)).payload)
            (last_with id items)
  unfolding get_collection_item replace_rows snapshot_row
  get-replace_collection_array collection id organization_id items ctx log db db' named e =
      let existing = store.find_many db collection organization_id in
      let row_of = λ (item : Fields).
        snapshot_row is_date collection organization_id (user_of ctx) existing (id, item) in
      let unique = items_by_id items [] in
      let (array, safe, ours, written) =
        replace_collection_array_done store is_date raw collection items organization_id ctx log db
          db' e in
      let last = entry_unique id items in
      let found : store.find_unique db' collection id
          ≡ or_first
              (unless_row (is_of collection organization_id) (store.find_unique db collection id))
              (Option.map row_of (entry id unique)) =
        rw (sym written) (
          find-create_many store collection id
            (map (snapshot_row is_date collection organization_id (user_of ctx) existing) unique)
            (store.delete_many collection organization_id db)
          ∙ rw (store.find-delete_many db collection organization_id collection id) (
              rw
                (find-snapshot store is_date collection organization_id (user_of ctx) existing id
                  unique)
                refl)) in
      let read =
        payload_in-replaced collection organization_id id (store.find_unique db collection id)
          row_of (entry id unique) (λ row. store.find-key db collection id row) (λ f. refl)
          (λ f row known there.
            unforeign store is_date collection organization_id id f unique db row ours known
              there) in
      rw named (rw (array-ne-singleton collection array) (rw found (rw (sym last) read)))

  -- A snapshot never empties a financial collection: where the organisation has a row in it before,
  -- there is an item that it reads afterwards.
  pub replace_collection_array-financial :
      (collection entity_id organization_id : String) (items : List Json) (row : Row)
      (ctx : Option CollectionWriteContext) (log : List Activity) (db db' : Db)
      → str_eq organization_id "" ≡ false
      → includes financial_collections collection ≡ true
      → store.find_unique db collection entity_id ≡ some row
      → str_eq row.organization_id organization_id ≡ true
      → replace_collection_array store is_date raw collection items organization_id ctx db
        ≡ done db' log
      → (id : String) × (get_collection_item store collection id (some organization_id) db' ≢ none)
  unfolding loses_financial_rows
  replace_collection_array-financial collection entity_id organization_id items row ctx log db db'
        named financial there ours e =
      let unique = items_by_id items [] in
      let (array, safe, foreign, written) =
        replace_collection_array_done store is_date raw collection items organization_id ctx log db
          db' e in
      let listed = store.find-find_many db collection organization_id entity_id row there ours in
      let (id, item, first) = first_item unique (
        ground (
          arith,
          safe,
          financial,
          length-Memᴰ (store.find_many db collection organization_id) row listed,
        )) in
      let last : last_with id items ≡ some item = sym (entry_unique id items) ∙ first in
      let read =
        get-replace_collection_array collection id organization_id items ctx log db db' named e in
      (id, λ gone. some-ne-none _ (last_with id items) item last (sym read ∙ gone))

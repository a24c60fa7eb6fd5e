-- ===== src/Store/Isolation.antt =====
-- No write of one organisation touches a row of another.
use prime_detailer_backend.Base.{
  String, Bool, true, false, not, ◌&&◌, ◌≡◌, ap, sym, subst, inl, inr, Bool-cases, Option, some,
  List, [], ◌∷◌, map, arith, and-parts,
}
use prime_detailer_backend.Base.Text.{str_eq}
use prime_detailer_backend.Json.{Json}
use prime_detailer_backend.Collections.{singleton_entity_id}
use prime_detailer_backend.Store.Rows.{Row, RowStore, has_key}
use prime_detailer_backend.Store.Write.{
  CollectionWriteContext, Activity, done, is_owned, migrate_legacy, new_row, user_of,
  upsert_collection_item, delete_collection_item,
}
use prime_detailer_backend.Store.Replace.{
  create_many, items_by_id, snapshot_row, replace_rows, replace_collection_array,
}
use prime_detailer_backend.Store.Outcome.{
  IsFree, existing_at, upsert_collection_item_done, replace_collection_array_done,
}
use mathlib.Core.List.{Memᴰ}
use text.Mathlib.TextEquality.{eq_iff}

module _ {Db : Type 0} (store : RowStore Db) where
  -- Every row of another organisation is still there, as it was.
  abbrev pub Keeps : String → Db → Db → Type 0
  Keeps organization_id db db' =
      (c e : String) (row : Row)
      → store.find_unique db c e ≡ some row
      → str_eq row.organization_id organization_id ≡ false
      → store.find_unique db' c e ≡ some row

  delete_row-Keeps :
      (organization_id collection entity_id : String) (db : Db)
      → is_owned organization_id (store.find_unique db collection entity_id) ≡ true
      → Keeps organization_id db (store.delete_row collection entity_id db)
  delete_row-Keeps organization_id collection entity_id db owned c e row found foreign =
      elim (Bool-cases (str_eq collection c && str_eq entity_id e)) [
        | inl same ↦
            let keys = and-parts (str_eq collection c) (str_eq entity_id e) same in
            let here : store.find_unique db collection entity_id ≡ some row =
              rw ((eq_iff collection c).0 keys.0) (rw ((eq_iff entity_id e).0 keys.1) found) in
            let owned_here : str_eq row.organization_id organization_id ≡ true = rw here at owned in
            cc
        | inr other ↦ rw (store.find-delete_row db collection entity_id c e) (rw other found)
      ]

  migrate_legacy-Keeps :
      (collection entity_id organization_id : String) (existing : Option Row) (db : Db)
      → Keeps organization_id db
          (migrate_legacy store collection entity_id organization_id existing db)
  unfolding migrate_legacy
  migrate_legacy-Keeps collection entity_id organization_id existing db c e row found foreign =
      let owned = is_owned organization_id (store.find_unique db collection singleton_entity_id) in
      elim (Bool-cases owned) [
        | inl mine ↦
            let kept =
              delete_row-Keeps organization_id collection singleton_entity_id db mine c e row found
                foreign in
            ground arith
        | inr other ↦ ground arith
      ]

  upsert-Keeps :
      (organization_id : String) (new : Row) (db : Db)
      → IsFree organization_id (store.find_unique db new.collection new.entity_id)
      → Keeps organization_id db (store.upsert new db)
  upsert-Keeps organization_id new db free c e row found foreign =
      elim (Bool-cases (has_key c e new)) [
        | inl same ↦
            let keys = and-parts (str_eq new.collection c) (str_eq new.entity_id e) same in
            let here : store.find_unique db new.collection new.entity_id ≡ some row =
              rw ((eq_iff new.collection c).0 keys.0)
                (rw ((eq_iff new.entity_id e).0 keys.1) found) in
            let taken : not (str_eq row.organization_id organization_id) ≡ false =
              rw here at free in
            ground arith
        | inr other ↦ rw (store.find-upsert db new c e) (rw other found)
      ]

  IsFree-migrate_legacy :
      (collection entity_id organization_id c e : String) (existing : Option Row) (db : Db)
      → IsFree organization_id (store.find_unique db c e)
      → IsFree organization_id (
          store.find_unique
            (migrate_legacy store collection entity_id organization_id existing db)
            c
            e)
  unfolding migrate_legacy
  IsFree-migrate_legacy collection entity_id organization_id c e existing db free =
      ground (arith, store.find-delete_row db collection singleton_entity_id c e)

  delete_many-Keeps :
      (organization_id collection : String) (db : Db)
      → Keeps organization_id db (store.delete_many collection organization_id db)
  delete_many-Keeps organization_id collection db c e row found foreign =
      rw (store.find-delete_many db collection organization_id c e) (rw found (ground arith))

  create_many-Keeps :
      (organization_id : String) (rows : List Row) (db : Db)
      → Keeps organization_id db (create_many store rows db)
  unfolding create_many
  create_many-Keeps organization_id [] db c e row found foreign = found
  create_many-Keeps organization_id (new ∷ rows) db c e row found foreign =
      let kept : store.find_unique (store.create_unless_exists new db) c e ≡ some row =
        rw (store.find-create db new c e) (rw found (ground arith)) in
      create_many-Keeps organization_id rows (store.create_unless_exists new db) c e row kept
        foreign

  module _ (is_date : String → Bool) (raw : Option String) where
    -- The writes of one organisation that succeed.
    pub data Writes (organization_id : String) : Db → Db → Type 0 where
      upserts :
          {db db' : Db} (collection entity_id : String) (payload : Json)
          (ctx : Option CollectionWriteContext) (log : List Activity)
          → upsert_collection_item store is_date raw collection entity_id payload organization_id
              ctx db
            ≡ done db' log
          → Writes organization_id db db'
      deletes :
          {db db' : Db} (collection entity_id : String) (ctx : Option CollectionWriteContext)
          (reply : Bool) (log : List Activity)
          → delete_collection_item store collection entity_id organization_id ctx db
            ≡ (reply, db', log)
          → Writes organization_id db db'
      replaces :
          {db db' : Db} (collection : String) (items : List Json)
          (ctx : Option CollectionWriteContext) (log : List Activity)
          → replace_collection_array store is_date raw collection items organization_id ctx db
            ≡ done db' log
          → Writes organization_id db db'

    -- Any sequence of writes, each of some organisation of the list.
    pub data Runs (organizations : List String) : Db → Db → Type 0 where
      stop : {db : Db} → Runs organizations db db
      step :
          {db db' db'' : Db} (organization_id : String)
          → Memᴰ organization_id organizations
          → Writes organization_id db db'
          → Runs organizations db' db''
          → Runs organizations db db''

    upsert_collection_item-Keeps :
        (organization_id collection entity_id : String) (payload : Json)
        (ctx : Option CollectionWriteContext) (log : List Activity) (db db' : Db)
        → upsert_collection_item store is_date raw collection entity_id payload organization_id ctx
            db
          ≡ done db' log
        → Keeps organization_id db db'
    unfolding new_row
    upsert_collection_item-Keeps organization_id collection entity_id payload ctx log db db' e c d
          row found foreign =
        let existing = existing_at store is_date raw collection entity_id organization_id db in
        let new =
          new_row store is_date raw collection entity_id payload organization_id ctx existing in
        let next = migrate_legacy store collection entity_id organization_id existing db in
        let (free, written) =
          upsert_collection_item_done store is_date raw collection entity_id payload organization_id
            ctx log db db' e in
        subst (λ x. store.find_unique x c d ≡ some row) written
          (upsert-Keeps organization_id new next
            (IsFree-migrate_legacy collection entity_id organization_id collection new.entity_id
              existing db free)
            c d row
            (migrate_legacy-Keeps collection entity_id organization_id existing db c d row found
              foreign)
            foreign)

    delete_collection_item-Keeps :
        (organization_id collection entity_id : String) (ctx : Option CollectionWriteContext)
        (reply : Bool) (log : List Activity) (db db' : Db)
        → delete_collection_item store collection entity_id organization_id ctx db
          ≡ (reply, db', log)
        → Keeps organization_id db db'
    unfolding delete_collection_item
    delete_collection_item-Keeps organization_id collection entity_id ctx reply log db db' e c d row
          found foreign =
        let here = is_owned organization_id (store.find_unique db collection entity_id) in
        let after : store.find_unique db' c d ≡ some row = elim (Bool-cases here) [
          | inl mine ↦
              let kept =
                delete_row-Keeps organization_id collection entity_id db mine c d row found
                  foreign in
              let gone : store.delete_row collection entity_id db ≡ db' =
                ap (λ (t : Bool × Db × List Activity). t.1) (rw mine at e) in
              subst (λ x. store.find_unique x c d ≡ some row) gone kept
          | inr other ↦
              let same : db ≡ db' = ap (λ (t : Bool × Db × List Activity). t.1) (rw other at e) in
              subst (λ x. store.find_unique x c d ≡ some row) same found
        ] in
        after

    replace_collection_array-Keeps :
        (organization_id collection : String) (items : List Json)
        (ctx : Option CollectionWriteContext) (log : List Activity) (db db' : Db)
        → replace_collection_array store is_date raw collection items organization_id ctx db
          ≡ done db' log
        → Keeps organization_id db db'
    unfolding replace_rows
    replace_collection_array-Keeps organization_id collection items ctx log db db' e c d row found
          foreign =
        let existing = store.find_many db collection organization_id in
        let (array, safe, ours, written) =
          replace_collection_array_done store is_date raw collection items organization_id ctx log
            db db' e in
        subst (λ x. store.find_unique x c d ≡ some row) written
          (create_many-Keeps organization_id
            (map (snapshot_row is_date collection organization_id (user_of ctx) existing)
              (items_by_id items []))
            (store.delete_many collection organization_id db) c d row
            (delete_many-Keeps organization_id collection db c d row found foreign) foreign)

    pub Writes-Keeps :
        (organization_id : String) (db db' : Db)
        → Writes organization_id db db'
        → Keeps organization_id db db'
    Writes-Keeps o db db' (upserts c e p ctx log r) =
        upsert_collection_item-Keeps o c e p ctx log db db' r
    Writes-Keeps o db db' (deletes c e ctx reply log r) =
        delete_collection_item-Keeps o c e ctx reply log db db' r
    Writes-Keeps o db db' (replaces c items ctx log r) =
        replace_collection_array-Keeps o c items ctx log db db' r

    -- Whatever the organisations of a list write, in any order, a row of an organisation outside the
    -- list is still there as it was.
    pub Runs-Keeps :
        (organizations : List String) (db db' : Db) (c e : String) (row : Row)
        → Runs organizations db db'
        → store.find_unique db c e ≡ some row
        → ¬ Memᴰ row.organization_id organizations
        → store.find_unique db' c e ≡ some row
    Runs-Keeps organizations db db' c e row stop found outside = found
    Runs-Keeps organizations db db' c e row (step {db' = next} o member write run) found outside =
        elim (Bool-cases (str_eq row.organization_id o)) [
          | inl same ↦ absurd (
              outside (
                subst (λ x. Memᴰ x organizations) (sym ((eq_iff row.organization_id o).0 same))
                  member))
          | inr foreign ↦
              Runs-Keeps organizations next db' c e row run
                (Writes-Keeps o db next write c e row found foreign) outside
        ]

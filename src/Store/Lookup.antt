-- ===== src/Store/Lookup.antt =====
-- What a read returns after a write of a single row.
use prime_detailer_backend.Base.{
  String, false, ◌&&◌, ◌≡◌, refl, inl, inr, Bool-cases, Option-cases, Option, none, some, is_some,
}
use prime_detailer_backend.Base.Text.{str_eq}
use prime_detailer_backend.Json.{Json}
use prime_detailer_backend.Collections.{singleton_entity_id, is_singleton_collection}
use prime_detailer_backend.Store.Rows.{RowStore}
use prime_detailer_backend.Store.Write.{
  CollectionWriteContext, get_collection_item, delete_collection_item,
}
use mathlib.Core.Option
use text.Mathlib.TextPositions.{eq_refl}

module _ {Db : Type 0} (store : RowStore Db) where
  -- Whether a delete reports success is exactly whether the organisation could read the item, and
  -- after it there is no such item to read, for every key but the shared one of a singleton.
  pub delete_collection_item-get :
      (collection entity_id organization_id : String) (ctx : Option CollectionWriteContext)
      (db : Db)
      → str_eq organization_id "" ≡ false
      → (is_singleton_collection collection && str_eq entity_id singleton_entity_id) ≡ false
      → let deleted = delete_collection_item store collection entity_id organization_id ctx db in
        (deleted.0
          ≡ is_some (get_collection_item store collection entity_id (some organization_id) db))
        × (get_collection_item store collection entity_id (some organization_id) deleted.1 ≡ none)
  unfolding delete_collection_item get_collection_item
  delete_collection_item-get collection entity_id organization_id ctx db named own =
      elim (Option-cases (store.find_unique db collection entity_id)) [
        | inl missing ↦ rw named (rw own (rw missing (refl, rw missing refl)))
        | inr (row, found) ↦ elim (Bool-cases (str_eq row.organization_id organization_id)) [
          | inl mine ↦ rw named (
              rw own (
                rw found (
                  rw mine (
                    refl,
                    rw (store.find-delete_row db collection entity_id collection entity_id)
                        (rw (eq_refl collection) (rw (eq_refl entity_id) refl)),
                  ))))
          | inr other ↦ rw named (rw own (rw found (rw other (refl, rw found (rw other refl)))))
        ]
      ]

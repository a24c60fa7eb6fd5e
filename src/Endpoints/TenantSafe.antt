-- ===== src/Endpoints/TenantSafe.antt =====
-- Handlers that leave the rows of other organisations alone, and that the document handlers are such.
use prime_detailer_backend.Base.{String, Bool, ◌≡◌, refl, Option, List, ℕ, Bool-cases, inl, inr}
use prime_detailer_backend.Json.{Json}
use prime_detailer_backend.Store.Rows.{RowStore}
use prime_detailer_backend.Store.Write.{Activity, Result, done, failed}
use prime_detailer_backend.Store.Isolation.{Keeps, Writes, Writes-Keeps, deletes, replaces, upserts}
use prime_detailer_backend.Endpoints.Handlers.{
  CollectionDomainHandlers, CollectionWriteContext, Listed, Ran, as_document_handlers,
  get_collection_domain_handlers, has_domain_handlers, ran, ran_of, storage_context, threw,
}

abbrev pub database_of {ℓ} : {Db : Type 0} {A : Type ℓ} → Ran Db A → Db
database_of (ran a db) = db
database_of (threw db) = db

module _ {Db : Type 0} (store : RowStore Db) where
  -- Each call keeps the rows of every organisation but the one that it is made for.
  pub record IsTenantSafe (handlers : CollectionDomainHandlers Db) : Type 0 where
    pub list_keeps :
        (org_id : String) (allowed : Option (List String)) (page page_size : ℕ) (db : Db)
        → Keeps store org_id db (database_of (handlers.list org_id allowed page page_size db))
    pub upsert_keeps :
        (id : String) (payload : Json) (ctx : CollectionWriteContext) (db : Db)
        → Keeps store ctx.organization_id db (database_of (handlers.upsert id payload ctx db))
    pub delete_keeps :
        (org_id id : String) (ctx : CollectionWriteContext) (db : Db)
        → Keeps store org_id db (database_of (handlers.delete_item org_id id ctx db))
    pub replace_keeps :
        (rows : List Json) (ctx : CollectionWriteContext) (db : Db)
        → Keeps store ctx.organization_id db (database_of (handlers.replace rows ctx db))

  pub Keeps-refl : (org_id : String) (db : Db) → Keeps store org_id db db
  Keeps-refl org_id db c e row found foreign = found

  module _ (is_date : String → Bool) (blocked : Option String) where
    -- A write that failed has changed nothing.
    ran_of-Keeps :
        (org_id : String) (db : Db) (result : Result Db)
        → ((db' : Db) (log : List Activity)
            → result ≡ done db' log
            → Writes store is_date blocked org_id db db')
        → Keeps store org_id db (database_of (ran_of db result))
    ran_of-Keeps org_id db (done db' log) h =
        Writes-Keeps store is_date blocked org_id db db' (h db' log refl)
    ran_of-Keeps org_id db (failed error) h = Keeps-refl org_id db

    module _ (list_items : String → String → Option (List String) → ℕ → ℕ → Db → Listed)
        (special : String → CollectionDomainHandlers Db) where
      pub as_document_handlers-IsTenantSafe :
          (collection : String)
          → IsTenantSafe (as_document_handlers store is_date blocked list_items special collection)
      unfolding as_document_handlers
      as_document_handlers-IsTenantSafe collection = record {
        list_keeps = λ org_id allowed page page_size db. Keeps-refl org_id db;
        upsert_keeps = λ id payload ctx db.
            ran_of-Keeps ctx.organization_id db _
              (λ db' log e. upserts collection id payload (storage_context ctx) log e);
        delete_keeps = λ org_id id ctx db.
            Writes-Keeps store is_date blocked org_id db _
              (deletes collection id (storage_context ctx) _ _ refl);
        replace_keeps = λ rows ctx db.
            ran_of-Keeps ctx.organization_id db _
              (λ db' log e. replaces collection rows (storage_context ctx) log e);
      }

      -- The dispatch is safe if the special handlers are.
      pub get_collection_domain_handlers-IsTenantSafe :
          ((collection : String) → IsTenantSafe (special collection))
          → (collection : String)
          → IsTenantSafe
              (get_collection_domain_handlers store is_date blocked list_items special collection)
      unfolding get_collection_domain_handlers
      get_collection_domain_handlers-IsTenantSafe safe collection =
          elim (Bool-cases (has_domain_handlers collection)) [
            | inl own ↦ rw own (safe collection)
            | inr document ↦ rw document (as_document_handlers-IsTenantSafe collection)
          ]

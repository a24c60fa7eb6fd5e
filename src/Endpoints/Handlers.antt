-- ===== src/Endpoints/Handlers.antt =====
-- The handlers of a collection: the interface that the controller calls, and the document handlers of
-- src/modules/collections/document-collection.service.ts, which fill it with the storage. The
-- handlers of job cards, invoices, quotations, appointments, expenses and cash are parameters.
use prime_detailer_backend.Base.{ℕ, String, Bool, Option, some, List, ◌||◌, if◌then◌else◌}
use prime_detailer_backend.Base.Text.{str_eq}
use prime_detailer_backend.Json.{Json}
use prime_detailer_backend.Store.Rows.{RowStore}
use prime_detailer_backend.Store.Write
use prime_detailer_backend.Store.Write.{
  Result, delete_collection_item, done, failed, get_collection_item, upsert_collection_item,
}
use prime_detailer_backend.Store.Replace.{replace_collection_array}

-- The context of a write: the organisation, the permission for prices and the user.
pub record CollectionWriteContext : Type 0 where
  pub organization_id : String
  pub has_job_card_pricing_permission : Bool
  pub user_id : Option String
  pub skip_generic_activity_log : Bool

-- A list of items, or a page of them with its numbers.
pub data Listed : Type 0 where
  items : List Json → Listed
  page_of_items : List Json → ℕ → ℕ → ℕ → ℕ → Listed

-- A call that returns, with the database after it, or throws.
pub data Ran {ℓ} (Db : Type 0) (A : Type ℓ) : Type ℓ where
  ran : A → Db → Ran Db A
  threw : Db → Ran Db A

pub record CollectionDomainHandlers (Db : Type 0) : Type 0 where
  pub list : String → Option (List String) → ℕ → ℕ → Db → Ran Db Listed
  pub get_item : String → String → Db → Option Json
  pub upsert : String → Json → CollectionWriteContext → Db → Ran Db (Unit {0})
  pub delete_item : String → String → CollectionWriteContext → Db → Ran Db Bool
  pub replace : List Json → CollectionWriteContext → Db → Ran Db (Unit {0})

-- The names of the collections with handlers of their own.
abbrev pub has_domain_handlers : String → Bool
has_domain_handlers collection =
    str_eq collection "jobCards"
    || str_eq collection "invoices"
    || str_eq collection "quotations"
    || str_eq collection "appointments"
    || str_eq collection "expenseMeta"
    || str_eq collection "cashBank"

abbrev pub storage_context : CollectionWriteContext → Option Write.CollectionWriteContext
storage_context ctx =
    some
      (record { user_id = ctx.user_id; skip_generic_activity_log = ctx.skip_generic_activity_log })

abbrev pub ran_of : {Db : Type 0} → Db → Result Db → Ran Db (Unit {0})
ran_of before (done db log) = ran tt db
ran_of before (failed error) = threw before

module _ {Db : Type 0} (store : RowStore Db) (is_date : String → Bool) (blocked : Option String)
    (list_items : String → String → Option (List String) → ℕ → ℕ → Db → Listed)
    (special : String → CollectionDomainHandlers Db) where
  -- `createDocumentCollectionService(collection)`. `list_items` is `listCollectionItems`.
  unfoldable pub as_document_handlers : String → CollectionDomainHandlers Db
  as_document_handlers collection = record {
    list = λ org_id allowed page page_size db.
        ran (list_items collection org_id allowed page page_size db) db;
    get_item = λ org_id id db. get_collection_item store collection id (some org_id) db;
    upsert = λ id payload ctx db. ran_of db (
        upsert_collection_item store is_date blocked collection id payload ctx.organization_id
          (storage_context ctx) db);
    delete_item = λ org_id id ctx db.
        let (deleted, after, log) =
          delete_collection_item store collection id org_id (storage_context ctx) db in
        ran deleted after;
    replace = λ rows ctx db. ran_of db (
        replace_collection_array store is_date blocked collection rows ctx.organization_id
          (storage_context ctx) db);
  }

  unfoldable pub get_collection_domain_handlers : String → CollectionDomainHandlers Db
  unfolding as_document_handlers
  get_collection_domain_handlers collection =
      if has_domain_handlers collection then special collection else as_document_handlers collection

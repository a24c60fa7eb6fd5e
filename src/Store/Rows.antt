-- ===== src/Store/Rows.antt =====
-- The table `AppJsonRow`, prisma/schema.prisma, behind the calls that app-json-store.ts makes of
-- the database client. The client is not part of the repository: it is this interface.
use prime_detailer_backend.Base.{
  String, Bool, true, ◌&&◌, ◌≡◌, Option, none, some, List, if◌then◌else◌,
}
use prime_detailer_backend.Base.Text.{str_eq}
use prime_detailer_backend.Json.{Json}
use mathlib.Core.List.{Memᴰ}

-- `created_at` is the time that the code passes; without one the database sets it.
pub record Row : Type 0 where
  pub collection : String
  pub entity_id : String
  pub organization_id : String
  pub payload : Json
  pub created_at : Option String

-- The unique key `collection_entityId`.
abbrev pub has_key : String → String → Row → Bool
has_key collection entity_id row =
    str_eq row.collection collection && str_eq row.entity_id entity_id

-- `where: { collection, organizationId }`
abbrev pub is_of : String → String → Row → Bool
is_of collection organization_id row =
    str_eq row.collection collection && str_eq row.organization_id organization_id

-- The row of a key after the rows that a predicate holds of have been deleted.
abbrev pub unless_row : (Row → Bool) → Option Row → Option Row
unless_row p none = none
unless_row p (some row) = if p row then none else some row

-- The row of a key after another row has been written: a row that is there already is kept.
abbrev pub or_row : Option Row → Row → Option Row
or_row none row = some row
or_row (some old) row = some old

-- `upsert`: a new row, or the old one with another payload and organisation.
abbrev pub upserted : Row → Option Row → Row
upserted row none = row
upserted row (some old) = record old {
  organization_id = row.organization_id;
  payload = row.payload;
}

-- What the code relies on: the calls of the client, and what each does to the row of every key.
pub record RowStore (Db : Type 0) : Type 0 where
  pub find_unique : Db → String → String → Option Row
  pub find_many : Db → String → String → List Row
  pub upsert : Row → Db → Db
  pub create_unless_exists : Row → Db → Db
  pub delete_row : String → String → Db → Db
  pub delete_many : String → String → Db → Db
  pub find-key :
      (db : Db) (c e : String) (row : Row) → find_unique db c e ≡ some row → has_key c e row ≡ true
  pub find-find_many :
      (db : Db) (c o e : String) (row : Row)
      → find_unique db c e ≡ some row
      → str_eq row.organization_id o ≡ true
      → Memᴰ row (find_many db c o)
  pub find-upsert :
      (db : Db) (row : Row) (c e : String)
      → find_unique (upsert row db) c e
        ≡ (if has_key c e row then some (upserted row (find_unique db c e)) else find_unique db c e)
  pub find-create :
      (db : Db) (row : Row) (c e : String)
      → find_unique (create_unless_exists row db) c e
        ≡ (if has_key c e row then or_row (find_unique db c e) row else find_unique db c e)
  pub find-delete_row :
      (db : Db) (c e d f : String)
      → find_unique (delete_row c e db) d f
        ≡ (if str_eq c d && str_eq e f then none else find_unique db d f)
  pub find-delete_many :
      (db : Db) (c o d e : String)
      → find_unique (delete_many c o db) d e ≡ unless_row (is_of c o) (find_unique db d e)

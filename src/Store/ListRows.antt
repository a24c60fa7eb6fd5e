-- ===== src/Store/ListRows.antt =====
-- A table as a list of rows, of which the first with a key is the row of the key: the interface of
-- the storage can be met.
use prime_detailer_backend.Base.{
  String, Bool, true, false, not, ◌&&◌, ◌≡◌, refl, sym, ◌∙◌, subst, Option-cases, inl, inr,
  Bool-cases, Option, none, some, List, [], ◌∷◌, if◌then◌else◌, arith, filter, find, and-parts,
  is_some,
}
use prime_detailer_backend.Base.Text.{str_eq}
use prime_detailer_backend.Store.Rows.{Row, RowStore, has_key, is_of, unless_row, or_row, upserted}
use mathlib.Core.List.{Memᴰ}
use text.Mathlib.TextEquality.{eq_iff}
use text.Mathlib.TextPositions.{eq_refl}

unfoldable pub find_many : List Row → String → String → List Row
find_many db c o = filter (is_of c o) db

-- Whether the row of a key is one of those that a predicate holds of.
abbrev is_doomed : (Row → Bool) → Option Row → Bool
is_doomed p none = false
is_doomed p (some row) = p row

-- The keys whose row is to go, go.
abbrev without : (String → String → Bool) → List Row → List Row
without goes rows = filter (λ (row : Row). not (goes row.collection row.entity_id)) rows

pub find-without :
    (goes : String → String → Bool) (c e : String) (rows : List Row)
    → find (has_key c e) (without goes rows) ≡ (if goes c e then none else find (has_key c e) rows)
find-without goes c e [] = ground arith
find-without goes c e (row ∷ rows) = elim (Bool-cases (has_key c e row)) [
  | inl same ↦
      let keys = and-parts (str_eq row.collection c) (str_eq row.entity_id e) same in
      let here : goes row.collection row.entity_id ≡ goes c e =
        rw ((eq_iff row.collection c).0 keys.0) (rw ((eq_iff row.entity_id e).0 keys.1) refl) in
      ground (arith, here, find-without goes c e rows)
  | inr other ↦ ground (arith, find-without goes c e rows)
]

unfoldable pub create_unless_exists : Row → List Row → List Row
create_unless_exists row db =
    if is_some (find (has_key row.collection row.entity_id) db) then db else row ∷ db

unfoldable pub upsert : Row → List Row → List Row
upsert row db = upserted row (find (has_key row.collection row.entity_id) db) ∷ db

unfoldable pub delete_row : String → String → List Row → List Row
delete_row c e db = without (λ d f. str_eq c d && str_eq e f) db

unfoldable pub delete_many : String → String → List Row → List Row
delete_many c o db = without (λ d f. is_doomed (is_of c o) (find (has_key d f) db)) db

abbrev IsKeyOf : String → String → Option Row → Type 0
IsKeyOf c e none = Unit
IsKeyOf c e (some row) = has_key c e row ≡ true

pub find-has_key :
    (c e : String) (row : Row) (db : List Row)
    → find (has_key c e) db ≡ some row
    → has_key c e row ≡ true
find-has_key c e row [] h = cc
find-has_key c e row (r ∷ db) h = elim (Bool-cases (has_key c e r)) [
  | inl same ↦
      let here : some r ≡ some row = rw same at h in
      subst (λ (x : Option Row). IsKeyOf c e x) here same
  | inr other ↦ find-has_key c e row db (rw other at h)
]

pub find-Memᴰ :
    (c o e : String) (row : Row) (db : List Row)
    → find (has_key c e) db ≡ some row
    → str_eq row.organization_id o ≡ true
    → Memᴰ row (filter (is_of c o) db)
find-Memᴰ c o e row [] h owned = cc
find-Memᴰ c o e row (r ∷ db) h owned = elim (Bool-cases (has_key c e r)) [
  | inl same ↦
      let here : some r ≡ some row = rw same at h in
      let same_row : r ≡ row = cc in
      let there : str_eq r.organization_id o ≡ true =
        subst (λ (x : Row). str_eq x.organization_id o ≡ true) (sym same_row) owned in
      rw (and-parts (str_eq r.collection c) (str_eq r.entity_id e) same).0
        (rw there (Memᴰ.head (sym same_row)))
  | inr other ↦
      let rest = find-Memᴰ c o e row db (rw other at h) owned in
      elim (Bool-cases (is_of c o r)) [
        | inl listed ↦ rw listed (Memᴰ.tail rest)
        | inr unlisted ↦ rw unlisted rest
      ]
]

has_key-upserted :
    (row : Row) (c e : String) (db : List Row)
    → has_key c e (upserted row (find (has_key row.collection row.entity_id) db)) ≡ has_key c e row
has_key-upserted row c e db = elim (Option-cases (find (has_key row.collection row.entity_id) db)) [
  | inl missing ↦ rw missing refl
  | inr (old, found) ↦
      let keys =
        and-parts (str_eq old.collection row.collection) (str_eq old.entity_id row.entity_id)
          (find-has_key row.collection row.entity_id old db found) in
      rw found (
        rw ((eq_iff old.collection row.collection).0 keys.0)
          (rw ((eq_iff old.entity_id row.entity_id).0 keys.1) refl))
]

pub find-upsert :
    (db : List Row) (row : Row) (c e : String)
    → find (has_key c e) (upsert row db) ≡ (
        if has_key c e row
        then some (upserted row (find (has_key c e) db))
        else find (has_key c e) db)
unfolding upsert
find-upsert db row c e = rw (has_key-upserted row c e db) (elim (Bool-cases (has_key c e row)) [
  | inl same ↦
      let keys = and-parts (str_eq row.collection c) (str_eq row.entity_id e) same in
      rw same
        (rw ((eq_iff row.collection c).0 keys.0) (rw ((eq_iff row.entity_id e).0 keys.1) refl))
  | inr other ↦ rw other refl
])

create_here :
    (db : List Row) (row : Row)
    → find (has_key row.collection row.entity_id) (create_unless_exists row db)
      ≡ or_row (find (has_key row.collection row.entity_id) db) row
unfolding create_unless_exists
create_here db row = elim (Option-cases (find (has_key row.collection row.entity_id) db)) [
  | inl missing ↦ rw missing (rw (eq_refl row.collection) (rw (eq_refl row.entity_id) refl))
  | inr (old, found) ↦ rw found (rw found refl)
]

pub find-create :
    (db : List Row) (row : Row) (c e : String)
    → find (has_key c e) (create_unless_exists row db)
      ≡ (if has_key c e row then or_row (find (has_key c e) db) row else find (has_key c e) db)
unfolding create_unless_exists
find-create db row c e = elim (Bool-cases (has_key c e row)) [
  | inl same ↦
      let keys = and-parts (str_eq row.collection c) (str_eq row.entity_id e) same in
      rw same (
        rw (sym ((eq_iff row.collection c).0 keys.0))
          (rw (sym ((eq_iff row.entity_id e).0 keys.1)) (create_here db row)))
  | inr other ↦ ground arith
]

pub is_doomed_lem :
    (p : Row → Bool) (found : Option Row)
    → (if is_doomed p found then none else found) ≡ unless_row p found
is_doomed_lem p none = refl
is_doomed_lem p (some row) = refl

unfoldable pub rows : RowStore (List Row)
unfolding upsert create_unless_exists delete_row delete_many find_many
rows = record {
  find_unique = λ db c e. find (has_key c e) db;
  find_many = find_many;
  upsert = upsert;
  create_unless_exists = create_unless_exists;
  delete_row = delete_row;
  delete_many = delete_many;
  find-key = λ db c e row h. find-has_key c e row db h;
  find-find_many = λ db c o e row h owned. find-Memᴰ c o e row db h owned;
  find-upsert = find-upsert;
  find-create = find-create;
  find-delete_row = λ db c e d f. find-without (λ (d f : String). str_eq c d && str_eq e f) d f db;
  find-delete_many = λ db c o d e.
      find-without (λ (d e : String). is_doomed (is_of c o) (find (has_key d e) db)) d e db
      ∙ is_doomed_lem (is_of c o) (find (has_key d e) db);
}

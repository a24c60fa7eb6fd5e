-- ===== src/Store/LastItem.antt =====
-- The last item of a snapshot with an id, and the items by their ids.
use prime_detailer_backend.Base.{
  String, ◌≡◌, ◌∙◌, refl, ap, inl, inr, Option-cases, Option, none, some, List, [], ◌∷◌,
  if◌then◌else◌, arith,
}
use prime_detailer_backend.Base.Text.{str_eq}
use prime_detailer_backend.Json.{Json, str, Fields, set, fields_of}
use prime_detailer_backend.Store.Replace.{item_id, items_by_id}
use prime_detailer_backend.Base.Assoc.{
  put, entry, entry-put, or_first, or_first-none, or_first_assoc,
}

abbrev with_id : String → Option String → Json → Option Fields
with_id id none item = none
with_id id (some own) item =
    if str_eq own id then some (set "id" (str own) (fields_of item)) else none

-- The last item of a snapshot that has this id.
unfoldable pub last_with : String → List Json → Option Fields
last_with id [] = none
last_with id (item ∷ items) = or_first (last_with id items) (with_id id (item_id item) item)

entry-items_by_id :
    (id : String) (items : List Json) (by_id : List (String × Fields))
    → entry id (items_by_id items by_id) ≡ or_first (last_with id items) (entry id by_id)
unfolding items_by_id last_with
entry-items_by_id id [] by_id = refl
entry-items_by_id id (item ∷ items) by_id = elim (Option-cases (item_id item)) [
  | inl nameless ↦
      rw nameless (rw (or_first-none (last_with id items)) (entry-items_by_id id items by_id))
  | inr (own, e) ↦
      let kept = set "id" (str own) (fields_of item) in
      let placed = entry-put own id kept by_id in
      rw e (
        entry-items_by_id id items (put own kept by_id)
        ∙ rw placed (
            rw (or_first_assoc (last_with id items) (with_id id (some own) item) (entry id by_id))
              (ap (or_first (last_with id items)) (ground arith))))
]

pub entry_unique :
    (id : String) (items : List Json) → entry id (items_by_id items []) ≡ last_with id items
entry_unique id items = entry-items_by_id id items [] ∙ or_first-none (last_with id items)

-- ===== src/Endpoints/Validate.antt =====
-- The checks of a body, src/validations/collection-payloads.ts. The schemas are a parameter: what a
-- schema makes of a value, or `none` where it throws.
use prime_detailer_backend.Base.{
  String, Bool, true, false, not, ◌&&◌, ◌||◌, Option, none, some, List, [], ◌∷◌, if◌then◌else◌,
}
use prime_detailer_backend.Base.Text.{str_eq}
use prime_detailer_backend.Json.{Json, as_string, fields_of, get, obj}
use mathlib.Core.Option

abbrev pub is_object : Json → Bool
is_object (obj fs) = true
is_object v = false

-- A chain of checks that may throw.
abbrev pub then_check {ℓ κ} : {A : Type ℓ} {B : Type κ} → Option A → (A → Option B) → Option B
then_check none f = none
then_check (some a) f = f a

abbrev parse_with : Option (Json → Option Json) → Json → Option Json
parse_with none v = some v
parse_with (some schema) v = schema v

module _ (schema_of : String → Option (Json → Option Json)) where
  abbrev parse_by : Option (Json → Option Json) → Json → Option Json
  parse_by none payload = if is_object payload then some payload else none
  parse_by (some schema) payload = schema payload

  unfoldable pub parse_collection_payload : String → Json → Option Json
  parse_collection_payload collection payload = parse_by (schema_of collection) payload

  -- An id that is a string and not empty.
  abbrev has_id : Json → Bool
  has_id item = elim (as_string (get "id" (fields_of item))) [
    | none ↦ false
    | some id ↦ not (str_eq id "")
  ]

  abbrev parse_item : String → Json → Option Json
  parse_item collection item =
      if is_object item && has_id item then parse_with (schema_of collection) item else none

  unfoldable pub parse_collection_snapshot_items : String → List Json → Option (List Json)
  parse_collection_snapshot_items collection [] = some []
  parse_collection_snapshot_items collection (item ∷ items) =
      let rest = parse_collection_snapshot_items collection items in
      then_check (parse_item collection item) (λ parsed. Option.map (λ out. parsed ∷ out) rest)

abbrev id_is_free : String → Bool
id_is_free collection =
    str_eq collection "payroll"
    || str_eq collection "membership"
    || str_eq collection "leaveConfig"
    || str_eq collection "staffRewardSettings"
    || str_eq collection "customerRewardSettings"

-- Whether the id in the payload is that of the address; where it is not, the check throws.
unfoldable pub assert_payload_entity_id_match : String → String → Json → Bool
assert_payload_entity_id_match collection entity_id payload =
    if id_is_free collection then true else elim (as_string (get "id" (fields_of payload))) [
      | none ↦ true
      | some id ↦ str_eq id entity_id
    ]

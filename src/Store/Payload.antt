-- ===== src/Store/Payload.antt =====
-- What app-json-store.ts makes of a payload before it is stored.
use prime_detailer_backend.Base.{
  ℕ, zero, suc, String, Bool, true, false, not, ◌||◌, ◌&&◌, Option, none, some, List, [], ◌∷◌,
  if◌then◌else◌, or_else,
}
use prime_detailer_backend.Base.Int.{pos}
use prime_detailer_backend.Base.Text.{decimal, str_eq, trim, lower, codes, codes_eq}
use prime_detailer_backend.Json.{
  Json, null, bool, num, str, arr, obj, Items, nil, cons, Fields, end, field, get, set, as_string,
  fields_of,
}
use prime_detailer_backend.Base.Text.{unless_empty}

-- `process.env.BLOCK_PICKUP_DROP_WRITES`
unfoldable pub is_pickup_drop_write_blocked : Option String → Bool
is_pickup_drop_write_blocked raw =
    let is = λ (word : String). codes_eq (lower (trim (or_else raw ""))) (codes word) in
    is "1" || is "true" || is "yes"

unfoldable pub is_collection_write_allowed : Option String → String → Bool
unfolding is_pickup_drop_write_blocked
is_collection_write_allowed raw collection =
    not (str_eq collection "pickupDropRequests") || not (is_pickup_drop_write_blocked raw)

abbrev pub financial_collections : List String
financial_collections =
    "productPurchases" ∷ "stockMovements" ∷ "expenses" ∷ "walletTransactions" ∷ "staffRewardLedger"
    ∷ []

-- A value that counts as true in a test.
abbrev pub is_truthy : Json → Bool
is_truthy null = false
is_truthy (bool b) = b
is_truthy (num (pos zero)) = false
is_truthy (num n) = true
is_truthy (str s) = not (str_eq s "")
is_truthy (arr vs) = true
is_truthy (obj fs) = true

abbrev indexed : ℕ → Items → Fields
indexed i nil = end
indexed i (cons v vs) = field (decimal i) v (indexed (suc i) vs)

-- `(payload && typeof payload === "object") ? { ...payload } : {}`: an array spreads by its indices.
unfoldable pub spread : Json → Fields
spread (obj fs) = fs
spread (arr vs) = indexed 0 vs
spread v = end

abbrev kept_creator : Option Json → Fields → Fields
kept_creator none fs = fs
kept_creator (some creator) fs = if is_truthy creator then set "createdByUserId" creator fs else fs

-- The creator of a row that exists is kept, a new row gets the user as its creator.
abbrev creator_of : String → Option Json → Fields → Fields
creator_of user none fs = set "createdByUserId" (str user) fs
creator_of user (some old) fs = kept_creator (get "createdByUserId" (fields_of old)) fs

abbrev tracked_by : Option String → Option Json → Fields → Fields
tracked_by none old fs = fs
tracked_by (some user) old fs = set "updatedByUserId" (str user) (creator_of user old fs)

-- The payload with its user tracking; `old` is the payload that is stored, if any.
unfoldable pub tracked : Option String → Option Json → Json → Fields
unfolding spread
tracked user old payload = tracked_by (unless_empty user) old (spread payload)

-- `createdAt` of the payload, if it is a string that `is_date` reads as a date.
unfoldable pub created_at_of : (String → Bool) → Fields → Option String
created_at_of is_date fs =
    let raw = or_else (as_string (get "createdAt" fs)) "" in
    if not (str_eq raw "") && is_date raw then some raw else none

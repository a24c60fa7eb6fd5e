-- ===== src/Scope/Visible.antt =====
-- What a scope shows: queries narrow it, nested rows outside it are left out, and branding is open.
use prime_detailer_backend.Base.{
  String, true, false, ◌&&◌, ◌≡◌, ◌↔◌, Bool, filter, refl, sym, inl, inr, Option, none, some, List,
  [], ◌∷◌, if◌then◌else◌, is_some, arith, Bool-cases, Option-cases, or_else, subst,
}
use prime_detailer_backend.Base.Text.{is_blank, includes, includes_iff, trim}
use prime_detailer_backend.Json.{
  Json, arr, to_list, of_list, str, Fields, end, get, set, get-set, obj, fields_of, as_string,
}
use prime_detailer_backend.Scope.Payload.{
  is_payload_in_branch_scope, filter_payloads_by_branch, filter_nested_array_by_branch, filter_keys,
  nested_keys, filter_nested_singleton_payload, branding_keys, extract_from, extract_branding,
}
use prime_detailer_backend.Scope.Resolve.{intersect_query_branch_id}
use mathlib.Core.Option
use mathlib.Core.List.{Memᴰ}
use text.Mathlib.TextEquality.{eq_iff}
use prime_detailer_backend.Scope.Branches.{NamesOneOf, NamesOneOf-in_scope, in_scope-NamesOneOf}

none-Memᴰ : (b : String) → ¬ Memᴰ b []
none-Memᴰ b m = elim m [ ]

only-Memᴰ : (b c : String) → Memᴰ b (c ∷ []) → b ≡ c
only-Memᴰ b c (Memᴰ.head e) = e
only-Memᴰ b c (Memᴰ.tail m) = elim m [ ]

-- A query for a branch never widens a scope: each branch that remains lies in it.
pub intersect_query_branch_id-Narrows :
    (organization : String) (allowed : List String) (query : Option String) (ids : List String)
    (b : String)
    → intersect_query_branch_id
        (record { organization_id = organization; allowed_branch_ids = some allowed })
        query
      ≡ some ids
    → Memᴰ b ids
    → Memᴰ b allowed
unfolding intersect_query_branch_id
intersect_query_branch_id-Narrows organization allowed query ids b e m =
    elim (Bool-cases (is_blank (or_else query ""))) [
      | inl blank ↦ let same : ids ≡ allowed = ground arith in subst (Memᴰ b) same m
      | inr asked ↦ elim (Bool-cases (includes allowed (trim (or_else query "")))) [
        | inl within ↦
            let same : trim (or_else query "") ∷ [] ≡ ids = ground arith in
            subst (λ x. Memᴰ x allowed)
              (sym (only-Memᴰ b (trim (or_else query "")) (subst (Memᴰ b) (sym same) m)))
              ((includes_iff allowed (trim (or_else query ""))).0 within)
        | inr beyond ↦
            let same : ids ≡ [] = ground arith in absurd (none-Memᴰ b (subst (Memᴰ b) same m))
      ]
    ]

get-filter_keys :
    (j : String) (keys : List String) (src next : Fields) (allowed : Option (List String))
    → get j (filter_keys keys src allowed next) ≡ (
        if includes keys j && is_some (get j src)
        then Option.map (λ v. filter_nested_array_by_branch v allowed) (get j src)
        else get j next)
unfolding filter_keys includes
get-filter_keys j [] src next allowed = refl
get-filter_keys j (k ∷ keys) src next allowed = elim (Option-cases (get k src)) [
  | inl missing ↦
      let found_j : k ≡ j → get j src ≡ none = λ e. subst (λ i. get i src ≡ none) e missing in
      ground (arith, eq_iff k j, get-filter_keys j keys src next allowed)
  | inr (v, found) ↦
      let found_j : k ≡ j → get j src ≡ some v = λ e. subst (λ i. get i src ≡ some v) e found in
      ground (
        arith,
        eq_iff k j,
        get-set k j (filter_nested_array_by_branch v allowed) next,
        get-filter_keys j keys src (set k (filter_nested_array_by_branch v allowed) next) allowed,
      )
]

get-extract_from :
    (j : String) (keys : List String) (src out : Fields)
    → get j (extract_from keys src out) ≡ (
        if includes keys j && is_some (as_string (get j src))
        then Option.map str (as_string (get j src))
        else get j out)
unfolding extract_from includes
get-extract_from j [] src out = refl
get-extract_from j (k ∷ keys) src out = elim (Option-cases (as_string (get k src))) [
  | inl missing ↦
      let found_j : k ≡ j → as_string (get j src) ≡ none =
        λ e. subst (λ i. as_string (get i src) ≡ none) e missing in
      ground (arith, eq_iff k j, get-extract_from j keys src out)
  | inr (v, found) ↦
      let found_j : k ≡ j → as_string (get j src) ≡ some v =
        λ e. subst (λ i. as_string (get i src) ≡ some v) e found in
      ground (
        arith,
        eq_iff k j,
        get-set k j (str v) out,
        get-extract_from j keys src (set k (str v) out),
      )
]

-- The branding that is open to any visitor is exactly the string values of the branding keys: no
-- other setting of the organisation is exposed.
pub get-extract_branding :
    (settings : Json) (j : String)
    → get j (extract_branding settings) ≡ (
        if includes branding_keys j && is_some (as_string (get j (fields_of settings)))
        then Option.map str (as_string (get j (fields_of settings)))
        else none)
unfolding extract_branding
get-extract_branding settings j = get-extract_from j branding_keys (fields_of settings) end

-- The rows of a nested field; what is no array has none.
abbrev pub rows_of : Json → List Json
rows_of (arr vs) = to_list vs
rows_of v = []

-- The stored rows that are in scope, in their order: what a test keeps that holds of exactly the rows
-- that name one of the branches or none.
abbrev pub HoldsScoped : List String → Json → Json → Type 0
HoldsScoped allowed v shown =
    (in_scope : Json → Bool) × ((row : Json) → (in_scope row ≡ true) ↔ NamesOneOf allowed row)
    × (shown ≡ arr (of_list (filter in_scope (rows_of v))))

-- What is shown of a field: of a nested one exactly the rows in scope, of another all of it.
abbrev pub ShowsField : Bool → List String → Option Json → Option Json → Type 0
ShowsField false allowed stored shown = shown ≡ stored
ShowsField true allowed none shown = shown ≡ none
ShowsField true allowed (some v) shown =
    (out : Json) × (shown ≡ some out) × HoldsScoped allowed v out

in_scope_iff :
    (allowed : List String) (row : Json)
    → (is_payload_in_branch_scope row (some allowed) ≡ true) ↔ NamesOneOf allowed row
in_scope_iff allowed row = (in_scope-NamesOneOf allowed row, NamesOneOf-in_scope allowed row)

nested_rows :
    (allowed : List String) (v : Json)
    → HoldsScoped allowed v (filter_nested_array_by_branch v (some allowed))
unfolding filter_nested_array_by_branch filter_payloads_by_branch
nested_rows allowed (arr vs) =
    (λ row. is_payload_in_branch_scope row (some allowed), in_scope_iff allowed, refl)
nested_rows allowed v =
    (λ row. is_payload_in_branch_scope row (some allowed), in_scope_iff allowed, refl)

shows_field :
    (nested : Bool) (allowed : List String) (stored : Option Json)
    → ShowsField nested allowed stored (
        if nested && is_some stored
        then Option.map (λ v. filter_nested_array_by_branch v (some allowed)) stored
        else stored)
shows_field false allowed stored = refl
shows_field true allowed none = refl
shows_field true allowed (some v) =
    (filter_nested_array_by_branch v (some allowed), refl, nested_rows allowed v)

-- For a singleton whose rows carry branches, each of its nested keys that is present is shown as the
-- array of exactly the stored rows that are in scope, in their order, and every other field as it was
-- stored.
pub get-filter_nested_singleton_payload :
    (collection j : String) (keys : List String) (src : Fields) (allowed : List String)
    → nested_keys collection ≡ some keys
    → ShowsField
        (includes keys j)
        allowed
        (get j src)
        (get j (fields_of (filter_nested_singleton_payload collection (obj src) (some allowed))))
unfolding filter_nested_singleton_payload
get-filter_nested_singleton_payload collection j keys src allowed e = rw e (
    subst (ShowsField (includes keys j) allowed (get j src))
      (sym (get-filter_keys j keys src src (some allowed)))
      (shows_field (includes keys j) allowed (get j src)))

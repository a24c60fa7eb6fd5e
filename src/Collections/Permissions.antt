-- ===== src/Collections/Permissions.antt =====
-- A JSON collection has a permission exactly if it is registered.
use prime_detailer_backend.Base.{
  String, Bool, true, false, ◌≡◌, ◌≢◌, ◌↔◌, refl, subst, sym, inl, inr, Bool-cases, Option-cases,
  none, some, List, [], ◌∷◌, all, arith, and-parts,
}
use prime_detailer_backend.Base.Text.{includes, includes_iff, str_eq}
use prime_detailer_backend.Collections.{
  collection_permission_map, lookup, is_mapped, get_collection_permission,
  all_registered_collections,
}
use mathlib.Core.List.{Memᴰ}
use text.Mathlib.TextEquality.{eq_iff}

pub all-Memᴰ :
    {A : Type 0} (p : A → Bool) (xs : List A) (x : A) → all p xs ≡ true → Memᴰ x xs → p x ≡ true
all-Memᴰ p [] x h m = elim m [ ]
all-Memᴰ p (y ∷ ys) x h (Memᴰ.head e) = subst (λ z. p z ≡ true) (sym e) (and-parts _ _ h).0
all-Memᴰ p (y ∷ ys) x h (Memᴰ.tail m) = all-Memᴰ p ys x (and-parts (p y) _ h).1 m

lookup-Memᴰ :
    (key : String) (pairs : List (String × String)) (v : String)
    → lookup key pairs ≡ some v
    → Memᴰ (key, v) pairs
unfolding lookup
lookup-Memᴰ key [] v e = cc
lookup-Memᴰ key ((k, w) ∷ pairs) v e = elim (Bool-cases (str_eq k key)) [
  | inl same ↦
      let key_eq : k ≡ key = (eq_iff k key).0 same in
      let value_eq : w ≡ v = ground arith in Memᴰ.head (sym (λ i. (key_eq i, value_eq i)))
  | inr other ↦ Memᴰ.tail (lookup-Memᴰ key pairs v (rw other at e))
]

-- Every collection is mapped: each name of the map is registered, and each registered name mapped.
both_ways :
    (all
        (λ (entry : String × String). includes all_registered_collections entry.0)
        collection_permission_map
      ≡ true)
    × (all is_mapped all_registered_collections ≡ true)
unfolding all_registered_collections includes lookup
both_ways = (refl, refl)

is_mapped-ne-none :
    (name : String) → is_mapped name ≡ true → lookup name collection_permission_map ≢ none
is_mapped-ne-none name h e = let unmapped : is_mapped name ≡ false = rw e in cc

-- A collection has a permission exactly if it is one of the registered collections, so any other
-- name is denied.
get_collection_permission_iff :
    (name : String) → (get_collection_permission name ≢ none) ↔ Memᴰ name all_registered_collections
unfolding get_collection_permission
get_collection_permission_iff name = (
  λ mapped. elim (Option-cases (lookup name collection_permission_map)) [
    | inl unmapped ↦ absurd (mapped unmapped)
    | inr (permission, e) ↦ (includes_iff all_registered_collections name).0 (
        all-Memᴰ (λ (entry : String × String). includes all_registered_collections entry.0)
          collection_permission_map (name, permission) both_ways.0
          (lookup-Memᴰ name collection_permission_map permission e))
  ],
  λ registered.
      is_mapped-ne-none name
        (all-Memᴰ is_mapped all_registered_collections name both_ways.1 registered),
)

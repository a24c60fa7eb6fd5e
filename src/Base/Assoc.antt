-- ===== src/Base/Assoc.antt =====
-- A `Map` with string keys, as its entries in the order of insertion.
use prime_detailer_backend.Base.Tests.{if◌then◌else◌}
use prime_detailer_backend.Base.Text.{str_eq}
use Prim.Native.String.{String}
use mathlib.Core.Path.{◌≡◌, ◌∙◌, refl, ap}
use mathlib.Core.Option.{Option, none, some}
use mathlib.Core.List.{List, [], ◌∷◌}
use native.Mathlib.Omega.{arith}
use text.Mathlib.TextEquality.{eq_iff}

module _ {ℓ} {V : Type ℓ} where
  -- `m.set(k, v)`: a key keeps its place.
  abbrev pub put : String → V → List (String × V) → List (String × V)
  put k v [] = (k, v) ∷ []
  put k v ((j, w) ∷ m) = if str_eq j k then (j, v) ∷ m else (j, w) ∷ put k v m

  -- `m.get(k)`
  abbrev pub entry : String → List (String × V) → Option V
  entry k [] = none
  entry k ((j, w) ∷ m) = if str_eq j k then some w else entry k m

  abbrev pub or_first : Option V → Option V → Option V
  or_first none y = y
  or_first (some x) y = some x

  pub or_first_assoc : (x y z : Option V) → or_first (or_first x y) z ≡ or_first x (or_first y z)
  or_first_assoc none y z = refl
  or_first_assoc (some x) y z = refl

  pub or_first-none : (x : Option V) → or_first x none ≡ x
  or_first-none none = refl
  or_first-none (some x) = refl

  pub entry-put :
      (k j : String) (v : V) (m : List (String × V))
      → entry j (put k v m) ≡ (if str_eq k j then some v else entry j m)
  entry-put k j v [] = refl
  entry-put k j v ((i, w) ∷ m) =
      ground (arith, eq_iff i k, eq_iff i j, eq_iff k j, entry-put k j v m)

  -- `new Map(values.map((v) => [key(v), v]))`, after other entries.
  unfoldable pub by_key : (V → String) → List V → List (String × V) → List (String × V)
  by_key key [] m = m
  by_key key (v ∷ vs) m = by_key key vs (put (key v) v m)

  -- The last value of a list that has this key.
  unfoldable pub last_of : (V → String) → String → List V → Option V
  last_of key k [] = none
  last_of key k (v ∷ vs) = or_first (last_of key k vs) (if str_eq (key v) k then some v else none)

  entry-by_key-after :
      (key : V → String) (k : String) (vs : List V) (m : List (String × V))
      → entry k (by_key key vs m) ≡ or_first (last_of key k vs) (entry k m)
  unfolding by_key last_of
  entry-by_key-after key k [] m = refl
  entry-by_key-after key k (v ∷ vs) m =
      entry-by_key-after key k vs (put (key v) v m)
      ∙ rw (entry-put (key v) k v m) (
          rw
            (or_first_assoc (last_of key k vs) (if str_eq (key v) k then some v else none)
              (entry k m))
            (ap (or_first (last_of key k vs)) (ground arith)))

  pub entry-by_key :
      (key : V → String) (k : String) (vs : List V) → entry k (by_key key vs []) ≡ last_of key k vs
  entry-by_key key k vs = entry-by_key-after key k vs [] ∙ or_first-none (last_of key k vs)

-- ===== src/Json.antt =====
-- The JSON values that the database stores as payloads. A missing field is `none`. Numbers are read
-- as amounts are (Base/Money.antt).
use prime_detailer_backend.Base.{
  String, Bool, ◌≡◌, refl, ap, Option, none, some, List, [], ◌∷◌, if◌then◌else◌, arith,
}
use prime_detailer_backend.Base.Int.{ℤ}
use prime_detailer_backend.Base.Text.{str_eq}
use text.Mathlib.TextEquality.{eq_iff}

mutual
  pub data Json : Type 0 where
    null : Json
    bool : Bool → Json
    num : ℤ → Json
    str : String → Json
    arr : Items → Json
    obj : Fields → Json

  pub data Items : Type 0 where
    nil : Items
    cons : Json → Items → Items

  pub data Fields : Type 0 where
    end : Fields
    field : String → Json → Fields → Fields

abbrev pub to_list : Items → List Json
to_list nil = []
to_list (cons v vs) = v ∷ to_list vs

abbrev pub of_list : List Json → Items
of_list [] = nil
of_list (v ∷ vs) = cons v (of_list vs)

-- `o[key]`
abbrev pub get : String → Fields → Option Json
get k end = none
get k (field j v fs) = if str_eq j k then some v else get k fs

-- `{ ...o, [key]: v }`
abbrev pub set : String → Json → Fields → Fields
set k v end = field k v end
set k v (field j w fs) = if str_eq j k then field j v fs else field j w (set k v fs)

-- `typeof v === "string" ? v : undefined`
abbrev pub as_string : Option Json → Option String
as_string (some (str s)) = some s
as_string v = none

-- The fields of an object; any other value has none of the fields that the code reads.
abbrev pub fields_of : Json → Fields
fields_of (obj fs) = fs
fields_of v = end

pub get-set :
    (k j : String) (v : Json) (fs : Fields)
    → get j (set k v fs) ≡ (if str_eq k j then some v else get j fs)
get-set k j v end = refl
get-set k j v (field i w fs) = ground (arith, eq_iff k j, eq_iff i k, eq_iff i j, get-set k j v fs)

pub to_list-of_list : (vs : List Json) → to_list (of_list vs) ≡ vs
to_list-of_list [] = refl
to_list-of_list (v ∷ vs) = ap (λ l. v ∷ l) (to_list-of_list vs)

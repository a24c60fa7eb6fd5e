-- ===== src/Access/StaffKeys.antt =====
-- Which texts are permissions for a single action other than to delete.
use prime_detailer_backend.Base.{
  ◌==◌, subst, ℕ, String, Bool, true, false, ◌≡◌, refl, sym, ap, ◌∙◌, List, [], ◌∷◌, if◌then◌else◌,
  any, filter, Bool-cases, inl, inr, arith,
}
use prime_detailer_backend.Base.Text.{ends_with, includes, str_eq}
use prime_detailer_backend.Access.Keys.{edit, granular_permission_key, permission_keys}
use prime_detailer_backend.Access.StaffAccess.{is_module_key}
use text.Mathlib.TextEquality.{eq_iff}
use text.Mathlib.TextLemmas.{cons-append, nil-append}
use Prim.Native.String.{[] as nil, ◌∷◌ as cons}
use Prim.Native.String
use Prim.Native.Char.{code}

-- No test holds of a filtered list that the filter excludes.
pub any-filter_none :
    (p q : String → Bool) (xs : List String)
    → ((x : String) → q x ≡ true → p x ≡ false)
    → any p (filter q xs) ≡ false
any-filter_none p q [] h = refl
any-filter_none p q (x ∷ xs) h = ground (arith, any-filter_none p q xs h, h x)

-- A permission that does not let delete.
abbrev pub IsNoDelete : String → Type 0
IsNoDelete p = ends_with "_DELETE" p ≡ false

abbrev is_empty : String → Bool
is_empty nil = true
is_empty (cons c s) = false

abbrev last_code : String → ℕ
last_code nil = 0
last_code (cons c s) = let rest = last_code s in if is_empty s then code c else rest

zero_ne : last_code nil ≡ b'E' → ⊥
zero_ne h = omega arith

is_empty-last_code : (s : String) → last_code s ≡ b'E' → is_empty s ≡ false
is_empty-last_code nil h = elim (zero_ne h) [ ]
is_empty-last_code (cons c s) h = refl

ends_with-last_code : (s : String) → ends_with "_DELETE" s ≡ true → last_code s ≡ b'E'
unfolding ends_with
ends_with-last_code nil h = cc
ends_with-last_code (cons c s) h = elim (Bool-cases (str_eq (cons c s) "_DELETE")) [
  | inl same ↦ subst (λ t. last_code t ≡ b'E') (sym ((eq_iff (cons c s) "_DELETE").0 same)) refl
  | inr other ↦
      let rest = ends_with-last_code s (rw other at h) in rw (is_empty-last_code s rest) rest
]

edit-last_code :
    (m : String)
    → (is_empty (String.◌++◌ m "_EDIT") ≡ false) × (last_code (String.◌++◌ m "_EDIT") ≡ b'T')
edit-last_code nil =
    subst (λ t. (is_empty t ≡ false) × (last_code t ≡ b'T')) (sym (nil-append "_EDIT")) (refl, refl)
edit-last_code (cons c m) =
    let rest = edit-last_code m in
    subst (λ t. (is_empty t ≡ false) × (last_code t ≡ b'T')) (sym (cons-append c m "_EDIT"))
      (refl, rw rest.0 (rest.1))

-- A permission for one action that is not to delete.
abbrev pub IsGranular : String → Type 0
IsGranular p = (ends_with "_DELETE" p ≡ false) × (is_module_key p ≡ false)

includes-last_code :
    (xs : List String) (s : String) (c : ℕ)
    → last_code s ≡ c
    → includes xs s ≡ true
    → any (λ (x : String). last_code x == c) xs ≡ true
unfolding includes
includes-last_code [] s c e h = cc
includes-last_code (x ∷ xs) s c e h = elim (Bool-cases (str_eq x s)) [
  | inl same ↦ let last : last_code x ≡ c = ap last_code ((eq_iff x s).0 same) ∙ e in ground arith
  | inr other ↦ let rest = includes-last_code xs s c e (rw other at h) in ground arith
]

-- No module is named by a text that ends in `T`.
modules-last_code : any (λ (x : String). last_code x == b'T') permission_keys ≡ false
modules-last_code = refl

not_delete : (s : String) → last_code s ≡ b'T' → ends_with "_DELETE" s ≡ true → ⊥
not_delete s t deletes = let e = ends_with-last_code s deletes in omega arith

not_module : (s : String) → last_code s ≡ b'T' → is_module_key s ≡ true → ⊥
not_module s t named =
    let there = includes-last_code permission_keys s b'T' t named in
    let none_there = modules-last_code in cc

-- The key to edit a module is such a permission.
pub edit-IsGranular : (key : String) → IsGranular (granular_permission_key key edit)
unfolding granular_permission_key
edit-IsGranular key =
    let s = String.◌++◌ key "_EDIT" in
    let t = (edit-last_code key).1 in
    (
      elim (Bool-cases (ends_with "_DELETE" s)) [
        | inl deletes ↦ elim (not_delete s t deletes) [ ]
        | inr other ↦ other
      ],
      elim (Bool-cases (is_module_key s)) [
        | inl named ↦ elim (not_module s t named) [ ]
        | inr other ↦ other
      ],
    )

-- ===== src/Access/StaffDeletion.antt =====
-- Staff with one of the two access levels of src/lib/staff-access.ts at the resolver of
-- src/middleware/auth.ts.
use prime_detailer_backend.Base.{
  String, Bool, true, false, ◌≡◌, ◌⊎◌, refl, sym, subst, Option, some, List, [], ◌∷◌, All,
  Bool-cases, inl, inr, ◌||◌, arith, or_else,
}
use prime_detailer_backend.Base.Text.{ends_with, includes, includes_iff, str_eq}
use prime_detailer_backend.Access.Keys.{
  delete, granular_permission_key, granular_permission_modules, is_granular_permission_module,
}
use prime_detailer_backend.Access.Permission.{
  AuthUser, action_from_http_method, bypasses, has_permission_for_method,
}
use prime_detailer_backend.Access.PermissionRules.{Held, has_permission_for_method-delete_iff}
use prime_detailer_backend.Access.StaffAccess.{
  StaffAccessLevel, is_module_key, permissions_for_staff_access_level,
}
use prime_detailer_backend.Access.StaffKeys.{IsGranular}
use prime_detailer_backend.Access.StaffRules.{permissions_for_staff_access_level-IsGranular}
use mathlib.Core.List.{Memᴰ}
use text.Mathlib.TextLemmas.{cons-append, nil-append}
use Prim.Native.String.{[] as nil, ◌∷◌ as cons}
use Prim.Native.String

All-Memᴰ : (P : String → Type 0) (x : String) (xs : List String) → All P xs → Memᴰ x xs → P x
All-Memᴰ P x [] h m = elim m [ ]
All-Memᴰ P x (y ∷ ys) h (Memᴰ.head e) = subst P (sym e) h.0
All-Memᴰ P x (y ∷ ys) h (Memᴰ.tail m) = All-Memᴰ P x ys h.1 m

not_both : (b : Bool) → b ≡ true → b ≡ false → ⊥
not_both b yes_b no_b = cc

or_right : (a b : Bool) → b ≡ true → (a || b) ≡ true
or_right a b h = ground arith

ends_with_own : (s : String) → ends_with "_DELETE" (String.◌++◌ s "_DELETE") ≡ true
unfolding ends_with
ends_with_own nil = subst (λ t. ends_with "_DELETE" t ≡ true) (sym (nil-append "_DELETE")) refl
ends_with_own (cons c s) =
    subst (λ t. ends_with "_DELETE" t ≡ true) (sym (cons-append c s "_DELETE"))
      (or_right (str_eq (cons c (String.◌++◌ s "_DELETE")) "_DELETE")
        (ends_with "_DELETE" (String.◌++◌ s "_DELETE")) (ends_with_own s))

granular_are_modules : All (λ key. is_module_key key ≡ true) granular_permission_modules
unfolding includes
granular_are_modules = (
  refl,
  (
    refl,
    (
      refl,
      (refl, (refl, (refl, (refl, (refl, (refl, (refl, (refl, (refl, (refl, (refl, tt))))))))))),
    ),
  ),
)

granular_is_module :
    (permission : String)
    → is_granular_permission_module permission ≡ true
    → is_module_key permission ≡ true
unfolding is_granular_permission_module
granular_is_module permission granular =
    All-Memᴰ (λ key. is_module_key key ≡ true) permission granular_permission_modules
      granular_are_modules ((includes_iff granular_permission_modules permission).0 granular)

-- Whatever permissions a staff member had before, with those of an access level the resolver refuses
-- a DELETE in every module that has actions of its own, unless the role passes every check.
pub has_permission_for_method-permissions_for_staff_access_level :
    (auth : AuthUser) (permission method : String) (current : Option (List String))
    (level : StaffAccessLevel)
    → auth.permissions ≡ some (permissions_for_staff_access_level current level)
    → bypasses auth.role ≡ false
    → is_granular_permission_module permission ≡ true
    → action_from_http_method method ≡ some delete
    → has_permission_for_method auth permission method ≡ false
unfolding granular_permission_key
has_permission_for_method-permissions_for_staff_access_level auth permission method current level
      given below granular e =
    elim (Bool-cases (has_permission_for_method auth permission method)) [
      | inr refused ↦ refused
      | inl granted ↦
          let all_granular = permissions_for_staff_access_level-IsGranular current level in
          absurd (
            none_held
              (λ key m.
                All-Memᴰ IsGranular key (permissions_for_staff_access_level current level)
                  all_granular (subst (λ p. Memᴰ key (or_else p [])) given m))
              ((has_permission_for_method-delete_iff auth permission method below granular e).0
                granted))
    ]
  where
    none_held :
        ((key : String) → Held auth key → IsGranular key)
        → Held auth permission ⊎ Held auth (granular_permission_key permission delete)
        → ⊥
    none_held only (inl base) =
        not_both (is_module_key permission) (granular_is_module permission granular)
          (only permission base).1
    none_held only (inr key) =
        not_both (ends_with "_DELETE" (granular_permission_key permission delete))
          (ends_with_own permission) (only (granular_permission_key permission delete) key).0

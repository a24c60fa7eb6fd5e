-- ===== src/Access/Documented.antt =====
-- The permission resolver against the rules that its comment lists, and what it grants besides.
use prime_detailer_backend.Base.{
  String, true, false, ◌≡◌, refl, ap, ◌↔◌, ◌⊎◌, inl, inr, some, Bool-cases,
}
use prime_detailer_backend.Access.Keys.{
  GranularAction, create, edit, is_granular_permission_module, granular_permission_key,
}
use prime_detailer_backend.Access.Permission.{
  AuthUser, action_from_http_method, upsert_via_put_modules, bypasses, has_permission_for_method,
}
use prime_detailer_backend.Access.Role.{
  AppRole, admin, branch_manager, customer, manager, mechanic, platform_owner, receptionist, staff,
  super_admin, supervisor,
}
use mathlib.Core.List.{Memᴰ}
use prime_detailer_backend.Access.PermissionRules.{
  Grants, Held, by_action_key, by_base_key, by_create_key, by_role, by_simple_module,
  has_permission_for_method_iff,
}

-- The four rules that the comment of the resolver lists.
pub data Documented (auth : AuthUser) (permission method : String) : Type 0 where
  by_super_admin : auth.role ≡ staff super_admin → Documented auth permission method
  by_admin : auth.role ≡ staff admin → Documented auth permission method
  by_base : Held auth permission → Documented auth permission method
  by_granular_key :
      (action : GranularAction)
      → is_granular_permission_module permission ≡ true
      → action_from_http_method method ≡ some action
      → Held auth (granular_permission_key permission action)
      → Documented auth permission method
  by_create :
      Memᴰ permission upsert_via_put_modules
      → action_from_http_method method ≡ some edit
      → Held auth (granular_permission_key permission create)
      → Documented auth permission method

-- What the code grants besides: everything to the owner of the platform, and every known method of a
-- module without actions of its own to whoever holds any action key of it.
pub data Undocumented (auth : AuthUser) (permission method : String) : Type 0 where
  by_platform_owner : auth.role ≡ staff platform_owner → Undocumented auth permission method
  by_any_key :
      (action held : GranularAction)
      → is_granular_permission_module permission ≡ false
      → action_from_http_method method ≡ some action
      → Held auth (granular_permission_key permission held)
      → Undocumented auth permission method

bypasses-role :
    (role : AppRole)
    → bypasses role ≡ true
    → (role ≡ staff super_admin) ⊎ (role ≡ staff admin) ⊎ (role ≡ staff platform_owner)
bypasses-role (staff super_admin) h = inl refl
bypasses-role (staff admin) h = inr (inl refl)
bypasses-role (staff platform_owner) h = inr (inr refl)
bypasses-role (staff branch_manager) h = cc
bypasses-role (staff manager) h = cc
bypasses-role (staff supervisor) h = cc
bypasses-role (staff receptionist) h = cc
bypasses-role (staff mechanic) h = cc
bypasses-role customer h = cc

-- The resolver grants a request exactly if one of the four rules of its comment grants it, or the
-- user is the owner of the platform, or the module has no actions of its own, the method is known and
-- the user holds any action key of the module.
pub has_permission_for_method-Documented :
    (auth : AuthUser) (permission method : String)
    → (has_permission_for_method auth permission method ≡ true)
      ↔ (Documented auth permission method ⊎ Undocumented auth permission method)
has_permission_for_method-Documented auth permission method = (
  λ h. split ((has_permission_for_method_iff auth permission method).0 h),
  λ r. (has_permission_for_method_iff auth permission method).1 (join r),
)
  where
    by_bypass :
        (auth.role ≡ staff super_admin)
          ⊎ (auth.role ≡ staff admin)
          ⊎ (auth.role ≡ staff platform_owner)
        → Documented auth permission method ⊎ Undocumented auth permission method
    by_bypass (inl e) = inl (by_super_admin e)
    by_bypass (inr (inl e)) = inl (by_admin e)
    by_bypass (inr (inr e)) = inr (by_platform_owner e)

    split :
        Grants auth permission method
        → Documented auth permission method ⊎ Undocumented auth permission method
    split (by_role b) = by_bypass (bypasses-role auth.role b)
    split (by_base_key m) = inl (by_base m)
    split (by_action_key action e m) =
        elim (Bool-cases (is_granular_permission_module permission)) [
          | inl granular ↦ inl (by_granular_key action granular e m)
          | inr simple ↦ inr (by_any_key action action simple e m)
        ]
    split (by_create_key e listed m) = inl (by_create listed e m)
    split (by_simple_module action other e simple m) = inr (by_any_key action other simple e m)

    join :
        Documented auth permission method ⊎ Undocumented auth permission method
        → Grants auth permission method
    join (inl (by_super_admin e)) = by_role (ap bypasses e)
    join (inl (by_admin e)) = by_role (ap bypasses e)
    join (inl (by_base m)) = by_base_key m
    join (inl (by_granular_key action granular e m)) = by_action_key action e m
    join (inl (by_create listed e m)) = by_create_key e listed m
    join (inr (by_platform_owner e)) = by_role (ap bypasses e)
    join (inr (by_any_key action held simple e m)) = by_simple_module action held e simple m

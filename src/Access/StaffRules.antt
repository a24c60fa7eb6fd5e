-- ===== src/Access/StaffRules.antt =====
-- What the permissions of a staff member are for each access level.
use prime_detailer_backend.Base.{
  String, Bool, true, false, not, ◌&&◌, ◌||◌, ◌≡◌, ◌≢◌, refl, Option, none, some, List, [], ◌∷◌,
  or_else, any, filter, All, All-append, Bool-cases, inl, inr, arith,
}
use prime_detailer_backend.Base.Text.{before_suffix, ends_with, includes}
use prime_detailer_backend.Access.Role.{
  UserRole, admin, branch_manager, manager, mechanic, platform_owner, receptionist, super_admin,
  supervisor,
}
use prime_detailer_backend.Access.Keys.{create, edit, granular_permission_key, view}
use prime_detailer_backend.Access.StaffAccess.{
  StaffAccessLevel, add, add_all, derive_staff_access_level, expand_legacy_base_keys, grant_edit,
  grant_edits, is_module_key, module_of, modules_from, permissions_at,
  permissions_for_staff_access_level, with_edit_access, without_edit_access,
}
use prime_detailer_backend.Access.StaffDefaults.{
  initial_from, modules_to_create_view_keys, build_initial_permissions,
  get_default_module_keys_for_role, resolve_permissions_on_create,
}
use prime_detailer_backend.Access.StaffKeys.{
  any-filter_none, IsNoDelete, IsGranular, edit-IsGranular,
}

module _ (P : String → Type 0) where
  All-add : (set : List String) (x : String) → All P set → P x → All P (add set x)
  All-add set x h px = elim (Bool-cases (includes set x)) [
    | inl there ↦ rw there h
    | inr new ↦ rw new (All-append P set (x ∷ []) h (px, tt))
  ]

  All-add_all : (set xs : List String) → All P set → All P xs → All P (add_all set xs)
  All-add_all set [] h hs = h
  All-add_all set (x ∷ xs) h hs = All-add_all (add set x) xs (All-add set x h hs.0) hs.1

  -- What is kept of a list has what the list and the filter give.
  All-filter_of :
      (Q : String → Type 0) (q : String → Bool) (xs : List String)
      → ((x : String) → P x → q x ≡ true → Q x)
      → All P xs
      → All Q (filter q xs)
  All-filter_of Q q [] f h = tt
  All-filter_of Q q (x ∷ xs) f h = elim (Bool-cases (q x)) [
    | inl kept ↦ rw kept (f x h.0 kept, All-filter_of Q q xs f h.1)
    | inr dropped ↦ rw dropped (All-filter_of Q q xs f h.1)
  ]

grant_edit-IsGranular :
    (next : List String) (key : String) → All IsGranular next → All IsGranular (grant_edit next key)
grant_edit-IsGranular next key h =
    let granted =
      includes next (granular_permission_key key create)
      || includes next (granular_permission_key key view) in
    elim (Bool-cases granted) [
      | inl may ↦
          rw may
            (All-add IsGranular next (granular_permission_key key edit) h (edit-IsGranular key))
      | inr may_not ↦ rw may_not h
    ]

grant_edits-IsGranular :
    (next keys : List String) → All IsGranular next → All IsGranular (grant_edits next keys)
grant_edits-IsGranular next [] h = h
grant_edits-IsGranular next (key ∷ keys) h =
    grant_edits-IsGranular (grant_edit next key) keys (grant_edit-IsGranular next key h)

abbrev not_module_key : String → Bool
not_module_key p = not (is_module_key p)

abbrev is_without_edit : String → Bool
is_without_edit p = not (ends_with "_EDIT" p) && not (is_module_key p)

permissions_at-IsGranular :
    (level : StaffAccessLevel) (expanded : List String)
    → All IsNoDelete expanded
    → All IsGranular (permissions_at level expanded)
permissions_at-IsGranular without_edit_access expanded h =
    All-filter_of IsNoDelete IsGranular is_without_edit expanded
      (λ x no_delete kept. (no_delete, ground arith)) h
permissions_at-IsGranular with_edit_access expanded h =
    let kept = filter not_module_key expanded in
    let next = add_all [] kept in
    let granular : All IsGranular kept =
      All-filter_of IsNoDelete IsGranular not_module_key expanded
        (λ x no_delete kept. (no_delete, ground arith)) h in
    grant_edits-IsGranular next (modules_from [] next) (All-add_all IsGranular [] kept tt granular)

permissions_at-level :
    (expanded : List String)
    → derive_staff_access_level (some (permissions_at without_edit_access expanded))
      ≡ without_edit_access
unfolding derive_staff_access_level
permissions_at-level expanded =
    let no_edit : any (ends_with "_EDIT") (filter is_without_edit expanded) ≡ false =
      any-filter_none (ends_with "_EDIT") is_without_edit expanded (λ x h. ground arith) in
    let no_module : any is_module_key (filter is_without_edit expanded) ≡ false =
      any-filter_none is_module_key is_without_edit expanded (λ x h. ground arith) in
    rw (no_edit, no_module) refl

All-IsNoDelete : (xs : List String) → All IsNoDelete (filter (λ p. not (ends_with "_DELETE" p)) xs)
All-IsNoDelete [] = tt
All-IsNoDelete (x ∷ xs) = elim (Bool-cases (ends_with "_DELETE" x)) [
  | inl deletes ↦ rw deletes (All-IsNoDelete xs)
  | inr other ↦ rw other (other, All-IsNoDelete xs)
]

-- Whatever a staff member had before, the permissions of an access level are for single actions, and
-- none of them is to delete.
pub permissions_for_staff_access_level-IsGranular :
    (current : Option (List String)) (level : StaffAccessLevel)
    → All IsGranular (permissions_for_staff_access_level current level)
unfolding permissions_for_staff_access_level
permissions_for_staff_access_level-IsGranular current level =
    permissions_at-IsGranular level
      (filter (λ p. not (ends_with "_DELETE" p)) (expand_legacy_base_keys (or_else current [])))
      (All-IsNoDelete (expand_legacy_base_keys (or_else current [])))

-- The level without edit access is read back from its permissions.
pub derive-permissions_for_staff_access_level :
    (current : Option (List String))
    → derive_staff_access_level
        (some (permissions_for_staff_access_level current without_edit_access))
      ≡ without_edit_access
unfolding permissions_for_staff_access_level
derive-permissions_for_staff_access_level current =
    permissions_at-level
      (filter (λ p. not (ends_with "_DELETE" p)) (expand_legacy_base_keys (or_else current [])))

defaults : Unit {0}
unfolding build_initial_permissions permissions_for_staff_access_level derive_staff_access_level
    expand_legacy_base_keys module_of granular_permission_key before_suffix ends_with includes
defaults = tt

managers_edit :
    derive_staff_access_level (some (build_initial_permissions manager with_edit_access))
    ≡ with_edit_access
unfolding defaults
managers_edit = refl

supervisors_edit :
    derive_staff_access_level (some (build_initial_permissions supervisor with_edit_access))
    ≡ with_edit_access
unfolding defaults
supervisors_edit = refl

receptionists_edit :
    derive_staff_access_level (some (build_initial_permissions receptionist with_edit_access))
    ≡ with_edit_access
unfolding defaults
receptionists_edit = refl

mechanics_edit :
    derive_staff_access_level (some (build_initial_permissions mechanic with_edit_access))
    ≡ with_edit_access
unfolding defaults
mechanics_edit = refl

derive-initial_from :
    (keys : List String)
    → derive_staff_access_level (some (initial_from keys without_edit_access)) ≡ without_edit_access
unfolding derive_staff_access_level
derive-initial_from [] = refl
derive-initial_from (key ∷ keys) = derive-permissions_for_staff_access_level (some (key ∷ keys))

derive-defaults :
    (role : UserRole) (level : StaffAccessLevel)
    → get_default_module_keys_for_role role ≢ []
    → derive_staff_access_level (some (resolve_permissions_on_create role none (some level)))
      ≡ level
unfolding resolve_permissions_on_create build_initial_permissions
derive-defaults platform_owner level h = elim (h refl) [ ]
derive-defaults super_admin level h = elim (h refl) [ ]
derive-defaults admin level h = elim (h refl) [ ]
derive-defaults branch_manager without_edit_access h =
    derive-initial_from
      (modules_to_create_view_keys (get_default_module_keys_for_role branch_manager))
derive-defaults manager without_edit_access h =
    derive-initial_from (modules_to_create_view_keys (get_default_module_keys_for_role manager))
derive-defaults supervisor without_edit_access h =
    derive-initial_from (modules_to_create_view_keys (get_default_module_keys_for_role supervisor))
derive-defaults receptionist without_edit_access h =
    derive-initial_from
      (modules_to_create_view_keys (get_default_module_keys_for_role receptionist))
derive-defaults mechanic without_edit_access h =
    derive-initial_from (modules_to_create_view_keys (get_default_module_keys_for_role mechanic))
derive-defaults branch_manager with_edit_access h = managers_edit
derive-defaults manager with_edit_access h = managers_edit
derive-defaults supervisor with_edit_access h = supervisors_edit
derive-defaults receptionist with_edit_access h = receptionists_edit
derive-defaults mechanic with_edit_access h = mechanics_edit

-- A new account whose role has default modules, and for which no permissions are sent or an empty
-- list of them, has the access level that it is made with.
pub derive-resolve_permissions_on_create :
    (role : UserRole) (level : StaffAccessLevel) (sent : Option (List String))
    → get_default_module_keys_for_role role ≢ []
    → or_else sent [] ≡ []
    → derive_staff_access_level (some (resolve_permissions_on_create role sent (some level)))
      ≡ level
unfolding resolve_permissions_on_create
derive-resolve_permissions_on_create role level none h empty = derive-defaults role level h
derive-resolve_permissions_on_create role level (some []) h empty = derive-defaults role level h
derive-resolve_permissions_on_create role level (some (p ∷ ps)) h empty = cc

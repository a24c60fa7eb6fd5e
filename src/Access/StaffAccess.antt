-- ===== src/Access/StaffAccess.antt =====
-- The choice between staff with and without edit access, src/lib/staff-access.ts, over the keys of
-- src/constants/permission-keys.ts. A set is a list in the order of insertion.
use prime_detailer_backend.Base.{
  ℕ, String, Bool, not, ◌&&◌, ◌||◌, Option, none, some, List, [], ◌∷◌, ◌++◌, if◌then◌else◌, or_else,
  any, filter, ◌==◌,
}
use prime_detailer_backend.Base.Text.{before_suffix, codes, ends_with, includes, str_eq}
use prime_detailer_backend.Access.Keys.{
  create, edit, granular_permission_key, permission_keys, view,
}

pub data StaffAccessLevel : Type 0 where
  with_edit_access : StaffAccessLevel
  without_edit_access : StaffAccessLevel

abbrev pub is_module_key : String → Bool
is_module_key p = includes permission_keys p

-- `set.add(x)`
abbrev pub add : List String → String → List String
add set x = if includes set x then set else set ++ (x ∷ [])

abbrev pub add_all : List String → List String → List String
add_all set [] = set
add_all set (x ∷ xs) = add_all (add set x) xs

abbrev pub legacy_keys : String → List String
legacy_keys perm =
    if is_module_key perm
    then granular_permission_key perm create
      ∷ granular_permission_key perm view
      ∷ granular_permission_key perm edit
      ∷ []
    else perm ∷ []

abbrev pub expand_from : List String → List String → List String
expand_from out [] = out
expand_from out (perm ∷ perms) = expand_from (add_all out (legacy_keys perm)) perms

unfoldable pub expand_legacy_base_keys : List String → List String
unfolding granular_permission_key
expand_legacy_base_keys perms = expand_from [] perms

unfoldable pub derive_staff_access_level : Option (List String) → StaffAccessLevel
derive_staff_access_level permissions =
    let perms = or_else permissions [] in
    if any (ends_with "_EDIT") perms
    then with_edit_access
    else if any is_module_key perms
    then with_edit_access
    else without_edit_access

-- The line ends that `.` does not match.
abbrev is_line_end : ℕ → Bool
is_line_end c = c == 10 || c == 13 || c == 8232 || c == 8233

abbrev in_one_line : Option String → Option String
in_one_line none = none
in_one_line (some front) =
    if str_eq front "" || any is_line_end (codes front) then none else some front

-- The first group of `/^(.+)_(CREATE|VIEW|EDIT)$/`.
unfoldable pub module_of : String → Option String
unfolding before_suffix
module_of perm = elim (in_one_line (before_suffix "_CREATE" perm)) [
  | some key ↦ some key
  | none ↦ elim (in_one_line (before_suffix "_VIEW" perm)) [
    | some key ↦ some key
    | none ↦ in_one_line (before_suffix "_EDIT" perm)
  ]
]

abbrev pub add_found : List String → Option String → List String
add_found modules none = modules
add_found modules (some key) = add modules key

abbrev pub modules_from : List String → List String → List String
modules_from modules [] = modules
modules_from modules (perm ∷ perms) = modules_from (add_found modules (module_of perm)) perms

abbrev pub grant_edit : List String → String → List String
grant_edit next key =
    if includes next (granular_permission_key key create)
      || includes next (granular_permission_key key view)
    then add next (granular_permission_key key edit)
    else next

abbrev pub grant_edits : List String → List String → List String
grant_edits next [] = next
grant_edits next (key ∷ keys) = grant_edits (grant_edit next key) keys

abbrev pub permissions_at : StaffAccessLevel → List String → List String
permissions_at without_edit_access expanded =
    filter (λ p. not (ends_with "_EDIT" p) && not (is_module_key p)) expanded
permissions_at with_edit_access expanded =
    let next = add_all [] (filter (λ p. not (is_module_key p)) expanded) in
    grant_edits next (modules_from [] next)

unfoldable pub permissions_for_staff_access_level :
    Option (List String) → StaffAccessLevel → List String
unfolding expand_legacy_base_keys module_of granular_permission_key
permissions_for_staff_access_level current level =
    permissions_at level
      (filter (λ p. not (ends_with "_DELETE" p)) (expand_legacy_base_keys (or_else current [])))

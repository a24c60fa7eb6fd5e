-- ===== src/Scope/Home.antt =====
-- What a user of one branch sees: no row of another branch.
use prime_detailer_backend.Base.{String, false, ◌≡◌, Option, none, some, List, arith, All, subst}
use prime_detailer_backend.Base.Text.{unless_empty}
use prime_detailer_backend.Access.Permission.{AuthUser}
use prime_detailer_backend.Json.{Json}
use prime_detailer_backend.Scope.Resolve.{
  BranchScope, can_use_org_wide_branch_scope, home_branches, resolve_branch_scope, scope_in,
  organization_of,
}

-- A scope of no branch but this one.
abbrev pub IsConfinedTo : String → Option (List String) → Type 0
IsConfinedTo home none = ⊥
IsConfinedTo home (some ids) = All (λ b. b ≡ home) ids

home_branches-All :
    (home : String) (ids : List String) → All (λ b. b ≡ home) (home_branches home ids)
unfolding home_branches
home_branches-All home ids = ground arith

module _ (find_org : String → Option String) (list_branches : String → List String) where
  scope_in-IsConfinedTo :
      (auth : AuthUser) (organization : Option String) (scope : BranchScope)
      → can_use_org_wide_branch_scope auth.role ≡ false
      → scope_in find_org list_branches auth organization ≡ some scope
      → IsConfinedTo auth.branch_id scope.allowed_branch_ids
  scope_in-IsConfinedTo auth none scope h e = cc
  scope_in-IsConfinedTo auth (some org) scope h e =
      let same : some (home_branches auth.branch_id (list_branches org))
          ≡ scope.allowed_branch_ids =
        ground (arith, e, h) in
      subst (IsConfinedTo auth.branch_id) same
        (home_branches-All auth.branch_id (list_branches org))

  -- A user whose role is not one for the whole organisation gets a scope of no branch but its home
  -- branch, whatever the two queries return.
  pub resolve_branch_scope-IsConfinedTo :
      (auth : AuthUser) (scope : BranchScope)
      → can_use_org_wide_branch_scope auth.role ≡ false
      → resolve_branch_scope find_org list_branches auth ≡ some scope
      → IsConfinedTo auth.branch_id scope.allowed_branch_ids
  unfolding resolve_branch_scope
  resolve_branch_scope-IsConfinedTo auth scope h e =
      scope_in-IsConfinedTo auth
        (organization_of find_org list_branches auth (unless_empty auth.organization_id)) scope h e

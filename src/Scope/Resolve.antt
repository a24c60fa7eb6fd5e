-- ===== src/Scope/Resolve.antt =====
-- The scope of a user, src/lib/data-scope.ts. The two queries are parameters.
use prime_detailer_backend.Base.{
  String, Bool, not, ◌&&◌, Option, none, some, List, [], ◌∷◌, ◌++◌, if◌then◌else◌, or_else, ◌==◌,
  length,
}
use prime_detailer_backend.Base.Text.{unless_empty, str_eq, is_blank, trim, includes}
use prime_detailer_backend.Access.Role.{
  UserRole, AppRole, super_admin, admin, manager, branch_manager, includes_role,
}
use prime_detailer_backend.Access.Permission.{AuthUser}
use prime_detailer_backend.Json.{Json, get, as_string, fields_of}
use prime_detailer_backend.Scope.Payload.{is_payload_in_branch_scope}

abbrev pub org_wide_branch_roles : List UserRole
org_wide_branch_roles = super_admin ∷ admin ∷ manager ∷ branch_manager ∷ []

pub record BranchScope : Type 0 where
  pub organization_id : String
  pub allowed_branch_ids : Option (List String)

unfoldable pub can_use_org_wide_branch_scope : AppRole → Bool
can_use_org_wide_branch_scope role = includes_role org_wide_branch_roles role

-- The home branch, if it is one of the organisation's or the organisation has none listed.
unfoldable pub home_branches : String → List String → List String
home_branches home org_branch_ids =
    if not (str_eq home "") && includes org_branch_ids home
    then home ∷ []
    else if not (length org_branch_ids == 0)
    then []
    else if not (str_eq home "")
    then home ∷ []
    else []

-- `find_org` reads the user's organisation and `list_branches` the ids of its branches.
module _ (find_org : String → Option String) (list_branches : String → List String) where
  abbrev pub scope_in : AuthUser → Option String → Option BranchScope
  scope_in auth none = none
  scope_in auth (some organization_id) =
      if can_use_org_wide_branch_scope auth.role
      then some (record { organization_id = organization_id; allowed_branch_ids = none })
      else some (record {
        organization_id = organization_id;
        allowed_branch_ids = some (home_branches auth.branch_id (list_branches organization_id));
      })

  abbrev pub organization_of : AuthUser → Option String → Option String
  organization_of auth none = unless_empty (find_org auth.id)
  organization_of auth (some organization_id) = some organization_id

  unfoldable pub resolve_branch_scope : AuthUser → Option BranchScope
  unfolding can_use_org_wide_branch_scope home_branches
  resolve_branch_scope auth =
      scope_in auth (organization_of auth (unless_empty auth.organization_id))

abbrev pub intersect_id : Option (List String) → String → Option (List String)
intersect_id none id = some (id ∷ [])
intersect_id (some allowed) id = if not (includes allowed id) then some [] else some (id ∷ [])

-- The requested branch must lie within the scope.
unfoldable pub intersect_query_branch_id : BranchScope → Option String → Option (List String)
intersect_query_branch_id scope query =
    if is_blank (or_else query "")
    then scope.allowed_branch_ids
    else intersect_id scope.allowed_branch_ids (trim (or_else query ""))

-- `set.add(id)` of an id that is a string and not empty.
abbrev pub add_id : List String → Option String → List String
add_id ids none = ids
add_id ids (some id) = if includes ids id then ids else ids ++ id ∷ []

-- The two sets, in the order of insertion.
unfoldable pub collect_from :
    List String → List Json → List String × List String → List String × List String
collect_from allowed [] sets = sets
collect_from allowed (row ∷ rows) (customer_ids, vehicle_ids) = collect_from allowed rows (
    if is_payload_in_branch_scope row (some allowed)
    then (
      add_id customer_ids (unless_empty (as_string (get "customerId" (fields_of row)))),
      add_id vehicle_ids (unless_empty (as_string (get "vehicleId" (fields_of row)))),
    )
    else (customer_ids, vehicle_ids))

-- `rows` are the payloads of the job cards, appointments and pickup requests of the organisation.
unfoldable pub collect_referenced_customer_vehicle_ids :
    List Json → Option (List String) → Option (List String) × Option (List String)
unfolding collect_from
collect_referenced_customer_vehicle_ids rows none = (none, none)
collect_referenced_customer_vehicle_ids rows (some []) = (some [], some [])
collect_referenced_customer_vehicle_ids rows (some (b ∷ bs)) =
    let (customer_ids, vehicle_ids) = collect_from (b ∷ bs) rows ([], []) in
    (some customer_ids, some vehicle_ids)

-- ===== src/Access/GateRules.antt =====
-- What the middleware chain guarantees to a handler that runs.
use prime_detailer_backend.Base.{
  String, true, false, ◌≡◌, ◌≢◌, ◌↔◌, ◌⊎◌, inl, inr, Option, none, some, arith, Bool-cases,
  Option-cases, or_else, refl, sym, subst,
}
use prime_detailer_backend.Base.Text.{trim, str_eq}
use prime_detailer_backend.Access.Permission.{AuthUser, has_permission_for_method}
use prime_detailer_backend.Access.PermissionRules.{Grants, has_permission_for_method_iff}
use prime_detailer_backend.Access.Gate.{
  Claims, OrgRow, Query, resolved, rejected, Request, next, respond, OrgAccess, ok, cancelled,
  is_platform_bypass_role, is_logout_path, org_access, SubscriptionStatus, is_cancelled,
  assert_organization_access, answer, auth_of, bearer_token, require_auth, require_permission,
}
use text.Mathlib.TextEquality.{eq_iff}

Query-cases {ℓ} : {A : Type ℓ} (q : Query A) → ((a : A) × (q ≡ resolved a)) ⊎ (q ≡ rejected)
Query-cases (resolved a) = inl (a, refl)
Query-cases rejected = inr refl

module _ (find_org : String → Query (Option OrgRow)) where
  -- Why the organisation gate lets a request through: the platform owner, a logout, no
  -- organisation in the token, or an organisation that is active and not cancelled.
  abbrev pub IsOpen : Request → AuthUser → Type 0
  IsOpen req auth =
      (is_platform_bypass_role auth.role ≡ true)
      ⊎ (is_logout_path req ≡ true)
      ⊎ (trim (or_else auth.organization_id "") ≡ "")
      ⊎ ((row : OrgRow) × (find_org (trim (or_else auth.organization_id "")) ≡ resolved (some row))
          × (row.is_active ≡ true)
          × (row.subscription ≢ some cancelled))

  org_access-ok :
      (row : Option OrgRow)
      → org_access row ≡ ok
      → (org : OrgRow) × (row ≡ some org)
        × (org.is_active ≡ true)
        × (org.subscription ≢ some cancelled)
  unfolding org_access
  org_access-ok none h = absurd (ground arith)
  org_access-ok (some org) h = (org, refl, ground arith, ground arith)

  assert_organization_access-ok :
      (req : Request) (auth : AuthUser)
      → assert_organization_access find_org req auth ≡ resolved ok
      → IsOpen req auth
  unfolding assert_organization_access
  assert_organization_access-ok req auth h =
      let org_id = trim (or_else auth.organization_id "") in
      elim (Bool-cases (is_platform_bypass_role auth.role)) [
        | inl owner ↦ inl owner
        | inr other ↦ elim (Bool-cases (is_logout_path req)) [
          | inl logout ↦ inr (inl logout)
          | inr stays ↦ elim (Bool-cases (str_eq org_id "")) [
            | inl blank ↦ inr (inr (inl ((eq_iff _ _).0 blank)))
            | inr named ↦ elim (Query-cases (find_org org_id)) [
              | inr failed ↦ absurd (ground arith)
              | inl (row, found) ↦
                  let (org, same, on, kept) = org_access-ok row (ground arith) in
                  inr (inr (inr (org, rw found (rw same), on, kept)))
            ]
          ]
        ]
      ]

  not-is_cancelled :
      (status : Option SubscriptionStatus) → status ≢ some cancelled → is_cancelled status ≡ false
  not-is_cancelled status h = ground arith

  IsOpen-ok :
      (req : Request) (auth : AuthUser)
      → IsOpen req auth
      → assert_organization_access find_org req auth ≡ resolved ok
  unfolding assert_organization_access org_access
  IsOpen-ok req auth (inl owner) = rw owner
  IsOpen-ok req auth (inr (inl logout)) = ground arith
  IsOpen-ok req auth (inr (inr (inl blank))) = ground (arith, (eq_iff _ _).1 blank)
  IsOpen-ok req auth (inr (inr (inr (row, found, on, kept)))) =
      ground (arith, not-is_cancelled row.subscription kept)

answer-next :
    (auth seen : AuthUser) (q : Query OrgAccess)
    → answer auth q ≡ next seen
    → (q ≡ resolved ok) × (seen ≡ auth)
answer-next auth seen q h = ground arith

-- A handler behind `requireAuth` runs exactly if the bearer token verifies and the organisation
-- gate is open for the token's user, and then it sees that user.
pub require_auth_iff :
    (verify : String → Option Claims) (find_org : String → Query (Option OrgRow)) (req : Request)
    (auth : AuthUser)
    → (require_auth verify find_org req ≡ next auth) ↔ (
        (token : String) × (claims : Claims) × (bearer_token req.authorization ≡ some token)
        × (verify token ≡ some claims)
        × (auth ≡ auth_of claims)
        × IsOpen find_org req auth)
unfolding require_auth
require_auth_iff verify find_org req auth = (sound, complete)
  where
    Admitted : Type 0
    Admitted =
        (token : String) × (claims : Claims) × (bearer_token req.authorization ≡ some token)
        × (verify token ≡ some claims)
        × (auth ≡ auth_of claims)
        × IsOpen find_org req auth

    sound : require_auth verify find_org req ≡ next auth → Admitted
    sound h = elim (Option-cases (bearer_token req.authorization)) [
      | inl missing ↦ absurd (ground arith)
      | inr (token, bearer) ↦ elim (Option-cases (verify token)) [
        | inl invalid ↦ absurd (ground arith)
        | inr (claims, valid) ↦
            let (passed, same) =
              answer-next (auth_of claims) auth
                (assert_organization_access find_org req (auth_of claims)) (ground arith) in
            (
              token,
              claims,
              bearer,
              valid,
              same,
              subst (IsOpen find_org req) (sym same)
                  (assert_organization_access-ok find_org req (auth_of claims) passed),
            )
      ]
    ]

    complete : Admitted → require_auth verify find_org req ≡ next auth
    complete (token, claims, bearer, valid, same, open_gate) = ground (
      arith,
      subst (λ a. assert_organization_access find_org req a ≡ resolved ok) same
          (IsOpen-ok find_org req auth open_gate),
    )

-- Behind `requireAuth` a request for an organisation that is switched off or whose subscription is
-- cancelled is answered with 403, unless the user is the platform owner or logs out.
pub require_auth-suspended :
    (verify : String → Option Claims) (find_org : String → Query (Option OrgRow)) (req : Request)
    {token : String} {claims : Claims} {row : OrgRow}
    → bearer_token req.authorization ≡ some token
    → verify token ≡ some claims
    → is_platform_bypass_role claims.role ≡ false
    → is_logout_path req ≡ false
    → trim (or_else claims.organization_id "") ≢ ""
    → find_org (trim (or_else claims.organization_id "")) ≡ resolved (some row)
    → (row.is_active ≡ false) ⊎ (row.subscription ≡ some cancelled)
    → require_auth verify find_org req ≡ respond 403
unfolding require_auth assert_organization_access auth_of org_access
require_auth-suspended verify find_org req {claims} {row} bearer valid other stays named found off =
    ground (arith, eq_iff (trim (or_else claims.organization_id "")) "")

-- Behind `requireAuth` and `requirePermission` a handler runs only for a user whose token verified
-- and whom the permission rules grant the permission for the method of the request.
pub require_permission-Grants :
    (verify : String → Option Claims) (find_org : String → Query (Option OrgRow)) (req : Request)
    (permission : String) (auth seen : AuthUser)
    → require_auth verify find_org req ≡ next auth
    → require_permission permission req (some auth) ≡ next seen
    → (seen ≡ auth) × Grants auth permission req.method × IsOpen find_org req auth
unfolding require_permission
require_permission-Grants verify find_org req permission auth seen passed h =
    elim (Bool-cases (has_permission_for_method auth permission req.method)) [
      | inl granted ↦
          let (_, _, _, _, _, gate) = (require_auth_iff verify find_org req auth).0 passed in
          (ground arith, (has_permission_for_method_iff auth permission req.method).0 granted, gate)
      | inr denied ↦ absurd (ground arith)
    ]

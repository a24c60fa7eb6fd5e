-- ===== src/Access/PermissionRules.antt =====
-- The ways in which the permission resolver grants a request.
use prime_detailer_backend.Base.{
  String, true, false, ◌≡◌, ◌↔◌, ◌⊎◌, inl, inr, some, [], arith, or_else, subst, Bool-cases,
  Option-cases, and-parts,
}
use prime_detailer_backend.Base.Text.{includes, includes_iff}
use prime_detailer_backend.Access.Keys.{
  GranularAction, create, view, edit, delete, is_granular_permission_module,
  granular_permission_key,
}
use prime_detailer_backend.Access.Permission.{
  AuthUser, action_from_http_method, upsert_via_put_modules, bypasses, holds_any_action,
  writes_by_create, allowed_by_action, has_permission_for_method,
}
use mathlib.Core.List.{Memᴰ}

abbrev pub Held : AuthUser → String → Type 0
Held auth key = Memᴰ key (or_else auth.permissions [])

-- The ways in which a user is granted a permission for a request.
pub data Grants (auth : AuthUser) (permission method : String) : Type 0 where
  by_role : bypasses auth.role ≡ true → Grants auth permission method
  by_base_key : Held auth permission → Grants auth permission method
  by_action_key :
      (action : GranularAction)
      → action_from_http_method method ≡ some action
      → Held auth (granular_permission_key permission action)
      → Grants auth permission method
  by_create_key :
      action_from_http_method method ≡ some edit
      → Memᴰ permission upsert_via_put_modules
      → Held auth (granular_permission_key permission create)
      → Grants auth permission method
  by_simple_module :
      (action other : GranularAction)
      → action_from_http_method method ≡ some action
      → is_granular_permission_module permission ≡ false
      → Held auth (granular_permission_key permission other)
      → Grants auth permission method

module _ (auth : AuthUser) (permission method : String) where
  -- The test for a module without actions of its own.
  simple_module_sound :
      (action : GranularAction)
      → action_from_http_method method ≡ some action
      → is_granular_permission_module permission ≡ false
      → holds_any_action (or_else auth.permissions []) permission ≡ true
      → Grants auth permission method
  unfolding holds_any_action
  simple_module_sound action e simple h =
      let held = or_else auth.permissions [] in
      let key = granular_permission_key permission in
      let grant : (other : GranularAction)
          → includes held (key other) ≡ true
          → Grants auth permission method =
        λ other m. by_simple_module action other e simple ((includes_iff held (key other)).0 m) in
      elim (Bool-cases (includes held (key view))) [
        | inl m ↦ grant view m
        | inr n1 ↦ elim (Bool-cases (includes held (key create))) [
          | inl m ↦ grant create m
          | inr n2 ↦ elim (Bool-cases (includes held (key edit))) [
            | inl m ↦ grant edit m
            | inr n3 ↦ grant delete (ground arith)
          ]
        ]
      ]

  -- What the tests on the action establish, when the action of the method is known.
  allowed_by_action_sound :
      (action : GranularAction)
      → action_from_http_method method ≡ some action
      → allowed_by_action (or_else auth.permissions []) permission (some action) ≡ true
      → Grants auth permission method
  unfolding allowed_by_action writes_by_create
  allowed_by_action_sound action e h =
      let held = or_else auth.permissions [] in
      elim (Bool-cases (includes held (granular_permission_key permission action))) [
        | inl m ↦ by_action_key action e ((includes_iff held _).0 m)
        | inr other ↦ elim (Bool-cases (writes_by_create held permission action)) [
          | inl up ↦ writes_by_create_sound action e up
          | inr plain ↦ elim (Bool-cases (is_granular_permission_module permission)) [
            | inl granular ↦ absurd (ground arith)
            | inr simple ↦ simple_module_sound action e simple (ground arith)
          ]
        ]
      ]
    where
      writes_by_create_sound :
          (action : GranularAction)
          → action_from_http_method method ≡ some action
          → writes_by_create (or_else auth.permissions []) permission action ≡ true
          → Grants auth permission method
      writes_by_create_sound edit e up =
          let (listed, held) = and-parts _ _ up in
          by_create_key e ((includes_iff _ _).0 listed) ((includes_iff _ _).0 held)
      writes_by_create_sound create e up = absurd (ground arith)
      writes_by_create_sound view e up = absurd (ground arith)
      writes_by_create_sound delete e up = absurd (ground arith)

-- The resolver grants exactly what the rules grant.
pub has_permission_for_method_iff :
    (auth : AuthUser) (permission method : String)
    → (has_permission_for_method auth permission method ≡ true) ↔ Grants auth permission method
unfolding has_permission_for_method
has_permission_for_method_iff auth permission method = (sound, complete)
  where
    sound : has_permission_for_method auth permission method ≡ true → Grants auth permission method
    sound h = elim (Bool-cases (bypasses auth.role)) [
      | inl above ↦ by_role above
      | inr below ↦ elim (Bool-cases (includes (or_else auth.permissions []) permission)) [
        | inl m ↦ by_base_key ((includes_iff _ _).0 m)
        | inr without ↦ elim (Option-cases (action_from_http_method method)) [
          | inl unknown ↦ absurd (ground arith)
          | inr (action, e) ↦ allowed_by_action_sound auth permission method action e (ground arith)
        ]
      ]
    ]

    complete :
        Grants auth permission method → has_permission_for_method auth permission method ≡ true
    complete (by_role h) = rw h
    complete (by_base_key m) = ground (arith, (includes_iff _ _).1 m)
    complete (by_action_key action e m) = rw e (ground (arith, (includes_iff _ _).1 m))
    complete (by_create_key e listed m) =
        rw e (ground (arith, (includes_iff _ _).1 listed, (includes_iff _ _).1 m))
    complete (by_simple_module action create e simple m) =
        rw e (ground (arith, (includes_iff _ _).1 m))
    complete (by_simple_module action view e simple m) =
        rw e (ground (arith, (includes_iff _ _).1 m))
    complete (by_simple_module action edit e simple m) =
        rw e (ground (arith, (includes_iff _ _).1 m))
    complete (by_simple_module action delete e simple m) =
        rw e (ground (arith, (includes_iff _ _).1 m))

-- A user who holds every key of another user of the same role may do whatever the other may do.
pub has_permission_for_method_mono :
    (auth other : AuthUser) (permission method : String)
    → other.role ≡ auth.role
    → ((key : String) → Held auth key → Held other key)
    → has_permission_for_method auth permission method ≡ true
    → has_permission_for_method other permission method ≡ true
has_permission_for_method_mono auth other permission method same more h =
    (has_permission_for_method_iff other permission method).1
      (lift ((has_permission_for_method_iff auth permission method).0 h))
  where
    lift : Grants auth permission method → Grants other permission method
    lift (by_role b) = by_role (rw same b)
    lift (by_base_key m) = by_base_key (more _ m)
    lift (by_action_key action e m) = by_action_key action e (more _ m)
    lift (by_create_key e listed m) = by_create_key e listed (more _ m)
    lift (by_simple_module action k e simple m) = by_simple_module action k e simple (more _ m)

-- In a module with actions of its own, a user whose role passes no check may delete exactly if
-- they hold the module's base key or its DELETE key: no CREATE, VIEW or EDIT key suffices.
pub has_permission_for_method-delete_iff :
    (auth : AuthUser) (permission method : String)
    → bypasses auth.role ≡ false
    → is_granular_permission_module permission ≡ true
    → action_from_http_method method ≡ some delete
    → (has_permission_for_method auth permission method ≡ true)
      ↔ (Held auth permission ⊎ Held auth (granular_permission_key permission delete))
has_permission_for_method-delete_iff auth permission method below granular e = (
  λ h. only ((has_permission_for_method_iff auth permission method).0 h),
  λ m. (has_permission_for_method_iff auth permission method).1 (either m),
)
  where
    only :
        Grants auth permission method
        → Held auth permission ⊎ Held auth (granular_permission_key permission delete)
    only (by_role b) = absurd (ground arith)
    only (by_base_key m) = inl m
    only (by_action_key action e' m) =
        let same : action ≡ delete = cc in
        inr (subst (λ a. Held auth (granular_permission_key permission a)) same m)
    only (by_create_key e' listed m) = absurd (ground arith)
    only (by_simple_module action k e' simple m) = absurd (ground arith)

    either :
        Held auth permission ⊎ Held auth (granular_permission_key permission delete)
        → Grants auth permission method
    either (inl m) = by_base_key m
    either (inr m) = by_action_key delete e m

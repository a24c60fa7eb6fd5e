-- ===== src/Scope/Branches.antt =====
-- Which rows the filter of a scope keeps, by the branches that they name.
use prime_detailer_backend.Base.{
  String, true, false, ◌≡◌, ◌≢◌, ◌⊎◌, ◌∙◌, Bool, ◌||◌, refl, sym, inl, inr, Option, none, some,
  List, is_some, arith, All, All-mono, All-filter, Bool-cases, Option-cases, subst,
}
use prime_detailer_backend.Base.Text.{unless_empty, str_eq, includes_iff}
use prime_detailer_backend.Json.{Json, get, fields_of, as_string}
use prime_detailer_backend.Scope.Payload.{
  payload_branch_id, is_payload_in_branch_scope, filter_payloads_by_branch, is_allowed,
  is_transfer_in_scope,
}
use mathlib.Core.List.{Memᴰ}
use text.Mathlib.TextEquality.{eq_iff}

-- The branch in one of the two fields of a transfer.
abbrev pub EndsAt : Json → String → Type 0
EndsAt payload b =
    (as_string (get "fromBranchId" (fields_of payload)) ≡ some b)
    ⊎ (as_string (get "toBranchId" (fields_of payload)) ≡ some b)

-- The branch of a row is one of these; a row without one that is a transfer, because one of its ends
-- is given, has an end among them.
abbrev pub NamesOneOf : List String → Json → Type 0
NamesOneOf allowed payload =
    ((b : String) → payload_branch_id payload ≡ some b → Memᴰ b allowed)
    × (payload_branch_id payload ≡ none
        → (b : String) → EndsAt payload b
        → b ≢ ""
        → (c : String) × EndsAt payload c × Memᴰ c allowed)

some_string : (s b : String) → some s ≡ some b → s ≡ b
some_string s b e = cc

not_both : (b : Bool) → b ≡ true → b ≡ false → ⊥
not_both b yes_b no_b = cc

or_right : (a b : Bool) → b ≡ true → (a || b) ≡ true
or_right a b h = ground arith

unless_empty-given :
    (given : Option String) (b : String)
    → given ≡ some b
    → b ≢ ""
    → is_some (unless_empty given) ≡ true
unless_empty-given none b e full = cc
unless_empty-given (some s) b e full = elim (Bool-cases (str_eq s "")) [
  | inl blank ↦
      let same : s ≡ b = some_string s b e in absurd (full (sym same ∙ (eq_iff s "").0 blank))
  | inr other ↦ rw other refl
]

given-unless_empty :
    (given : Option String)
    → is_some (unless_empty given) ≡ true
    → (b : String) × (given ≡ some b) × (b ≢ "")
given-unless_empty none h = cc
given-unless_empty (some s) h = elim (Bool-cases (str_eq s "")) [
  | inl blank ↦ let no : false ≡ true = rw blank at h in cc
  | inr other ↦ (s, refl, λ e. not_both (str_eq s "") ((eq_iff s "").1 e) other)
]

is_allowed_Memᴰ :
    (allowed : List String) (given : Option String)
    → is_allowed allowed given ≡ true
    → (c : String) × (given ≡ some c) × Memᴰ c allowed
is_allowed_Memᴰ allowed none h = cc
is_allowed_Memᴰ allowed (some c) h = (c, refl, (includes_iff allowed c).0 h)

Memᴰ-is_allowed :
    (allowed : List String) (given : Option String) (c : String)
    → given ≡ some c
    → Memᴰ c allowed
    → is_allowed allowed given ≡ true
Memᴰ-is_allowed allowed given c e m =
    subst (λ g. is_allowed allowed g ≡ true) (sym e) ((includes_iff allowed c).1 m)

module _ (allowed : List String) (payload : Json) where
  abbrev from : Option String
  from = as_string (get "fromBranchId" (fields_of payload))

  abbrev to : Option String
  to = as_string (get "toBranchId" (fields_of payload))

  abbrev HasEnd : Type 0
  HasEnd = (c : String) × EndsAt payload c × Memᴰ c allowed

  is_given :
      (b : String)
      → EndsAt payload b
      → b ≢ ""
      → (is_some (unless_empty from) || is_some (unless_empty to)) ≡ true
  is_given b (inl at_from) full = rw (unless_empty-given from b at_from full) refl
  is_given b (inr at_to) full =
      or_right (is_some (unless_empty from)) (is_some (unless_empty to))
        (unless_empty-given to b at_to full)

  allowed-HasEnd : (is_allowed allowed from || is_allowed allowed to) ≡ true → HasEnd
  allowed-HasEnd h = elim (Bool-cases (is_allowed allowed from)) [
    | inl at_from ↦ let (c, e, m) = is_allowed_Memᴰ allowed from at_from in (c, inl e, m)
    | inr other ↦ let (c, e, m) = is_allowed_Memᴰ allowed to (rw other at h) in (c, inr e, m)
  ]

  HasEnd-allowed : HasEnd → (is_allowed allowed from || is_allowed allowed to) ≡ true
  HasEnd-allowed (c, inl e, m) = rw (Memᴰ-is_allowed allowed from c e m) refl
  HasEnd-allowed (c, inr e, m) =
      or_right (is_allowed allowed from) (is_allowed allowed to) (Memᴰ-is_allowed allowed to c e m)

  transfer_ends :
      is_transfer_in_scope (fields_of payload) allowed ≡ true
      → (b : String) → EndsAt payload b
      → b ≢ ""
      → HasEnd
  unfolding is_transfer_in_scope
  transfer_ends h b at_end full = allowed-HasEnd (rw (is_given b at_end full) at h)

  ends_transfer :
      ((b : String) → EndsAt payload b → b ≢ "" → HasEnd)
      → is_transfer_in_scope (fields_of payload) allowed ≡ true
  unfolding is_transfer_in_scope
  ends_transfer ends =
      let given = is_some (unless_empty from) || is_some (unless_empty to) in
      elim (Bool-cases given) [
        | inr neither ↦ rw neither refl
        | inl one ↦ rw one (HasEnd-allowed (by_end one))
      ]
    where
      by_end : (is_some (unless_empty from) || is_some (unless_empty to)) ≡ true → HasEnd
      by_end one = elim (Bool-cases (is_some (unless_empty from))) [
        | inl at_from ↦ let (b, e, full) = given-unless_empty from at_from in ends b (inl e) full
        | inr other ↦
            let (b, e, full) = given-unless_empty to (rw other at one) in ends b (inr e) full
      ]

  pub in_scope-NamesOneOf :
      is_payload_in_branch_scope payload (some allowed) ≡ true → NamesOneOf allowed payload
  unfolding is_payload_in_branch_scope
  in_scope-NamesOneOf kept = (
    λ b e. (includes_iff allowed b).0 (rw e at kept),
    λ unnamed b at_end full. transfer_ends (rw unnamed at kept) b at_end full,
  )

  pub NamesOneOf-in_scope :
      NamesOneOf allowed payload → is_payload_in_branch_scope payload (some allowed) ≡ true
  unfolding is_payload_in_branch_scope
  NamesOneOf-in_scope (named, ends) = elim (Option-cases (payload_branch_id payload)) [
    | inl unnamed ↦ rw unnamed (ends_transfer (ends unnamed))
    | inr (b, e) ↦ rw e ((includes_iff allowed b).1 (named b e))
  ]

pub filter-NamesOneOf :
    (items : List Json) (allowed : List String)
    → All (NamesOneOf allowed) (filter_payloads_by_branch items (some allowed))
unfolding filter_payloads_by_branch
filter-NamesOneOf items allowed =
    All-mono (λ p. is_payload_in_branch_scope p (some allowed) ≡ true) (NamesOneOf allowed)
      (filter_payloads_by_branch items (some allowed)) (in_scope-NamesOneOf allowed)
      (All-filter (λ p. is_payload_in_branch_scope p (some allowed)) items)

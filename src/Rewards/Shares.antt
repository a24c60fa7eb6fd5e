-- ===== src/Rewards/Shares.antt =====
-- What a breakdown pays out, and to whom.
use prime_detailer_backend.Base.{
  ℕ, ◌+◌, ◌*◌, ◌≤◌, ◌<◌, ◌≡◌, ◌≢◌, refl, sym, subst, ◌∙◌, inl, inr, Bool-cases, Option-cases, Bool,
  true, false, ◌==◌, String, Option, none, some, List, [], ◌∷◌, find, arith, or_else,
}
use prime_detailer_backend.Base.Int.{pos, pos_part, ◌≤ℤ◌}
use prime_detailer_backend.Base.Money.{round2_div_bounds}
use prime_detailer_backend.Base.Text.{str_eq}
use mathlib.Core.List.{Memᴰ}
use text.Mathlib.TextEquality.{eq_iff}
use prime_detailer_backend.Rewards.Engine.{
  calc_share_per_staff, is_eligible, is_staff_eligible, filter_eligible_staff, matches_role,
  with_tier, staff_part, PeriodInput,
}
use prime_detailer_backend.Rewards.Revenue.{EligibleStaffCandidate, RoleTierBreakdown}

-- The shares of a pool add up to the pool, up to half a paisa for each share.
pub calc_share_per_staff_bounds :
    (n k : ℕ)
    → 0 < k
    → (k * pos_part (calc_share_per_staff (pos n) k) ≤ n + 50 * k)
      × (n ≤ k * pos_part (calc_share_per_staff (pos n) k) + 50 * k)
unfolding calc_share_per_staff
calc_share_per_staff_bounds n k h =
    let more : (k == 0) ≡ false = ground arith in rw more (round2_div_bounds n k h)

-- A tier that is not achieved pays nothing; the shares of a tier are not negative, and together
-- they exceed its pool by half a paisa for each share at most.
abbrev pub PaysOut : RoleTierBreakdown → Type 0
PaysOut row =
    (row.achieved ≡ false → (row.pool ≡ pos 0) × (row.share_per_staff ≡ pos 0))
    × (pos 0 ≤ℤ row.pool)
    × (pos 0 ≤ℤ row.share_per_staff)
    × (row.eligible_staff_count * pos_part row.share_per_staff
        ≤ pos_part row.pool + 50 * row.eligible_staff_count)

find-some :
    {A : Type 0} (p : A → Bool) (xs : List A) (a : A)
    → find p xs ≡ some a
    → Memᴰ a xs × (p a ≡ true)
find-some p [] a e = cc
find-some p (x ∷ xs) a e = elim (Bool-cases (p x)) [
  | inl yes_x ↦
      let same : x ≡ a = ground arith in (Memᴰ.head (sym same), subst (λ y. p y ≡ true) same yes_x)
  | inr no_x ↦ let (m, h) = find-some p xs a (rw no_x at e) in (Memᴰ.tail m, h)
]

is_staff_eligible-is_eligible :
    (s : EligibleStaffCandidate) (day : String) → is_staff_eligible s day ≡ is_eligible day s
unfolding is_staff_eligible filter_eligible_staff
is_staff_eligible-is_eligible s day = ground arith

with_tier_share :
    (member : EligibleStaffCandidate) (eligible : Bool) (found : Option RoleTierBreakdown)
    → (with_tier member eligible found).share_per_staff ≢ pos 0
    → (row : RoleTierBreakdown) × (eligible ≡ true)
      × (found ≡ some row)
      × ((with_tier member eligible found).share_per_staff ≡ row.share_per_staff)
with_tier_share member eligible none paid = absurd (paid refl)
with_tier_share member true (some row) paid = (row, refl, refl, refl)
with_tier_share member false (some row) paid = absurd (paid refl)

-- A share is paid only to a listed member of staff who is eligible and whose role has a tier in
-- the breakdown, and it is the share of the first such tier.
pub staff_part-share :
    (opts : PeriodInput) (rows : List RoleTierBreakdown)
    → (staff_part opts rows).share_per_staff ≢ pos 0
    → (member : EligibleStaffCandidate) × (row : RoleTierBreakdown) × Memᴰ member opts.all_staff
      × (member.id ≡ or_else opts.staff_id "")
      × (is_eligible opts.period_end_day member ≡ true)
      × (find (matches_role member) rows ≡ some row)
      × ((staff_part opts rows).share_per_staff ≡ row.share_per_staff)
unfolding staff_part
staff_part-share opts rows paid =
    let id = or_else opts.staff_id "" in
    elim (Bool-cases (str_eq id "")) [
      | inl blank ↦ absurd (paid (rw blank))
      | inr given ↦ elim (Option-cases (find (λ s. str_eq s.id id) opts.all_staff)) [
        | inl unknown ↦ absurd (paid (rw given (rw unknown)))
        | inr (member, found) ↦
            let (listed, same) = find-some (λ s. str_eq s.id id) opts.all_staff member found in
            let day = opts.period_end_day in
            let (row, eligible, matched, share) =
              with_tier_share member (is_staff_eligible member day)
                (find (matches_role member) rows) (rw (given, found) at paid) in
            (
              member,
              row,
              listed,
              (eq_iff _ _).0 same,
              sym (is_staff_eligible-is_eligible member day) ∙ eligible,
              matched,
              rw given (rw found share),
            )
      ]
    ]

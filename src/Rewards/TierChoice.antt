-- ===== src/Rewards/TierChoice.antt =====
-- `selectAchievedTier` against its description.
use prime_detailer_backend.Base.{
  ◌+◌, ◌≡◌, refl, sym, subst, inl, inr, Bool-cases, false, ◌&&◌, none, some, List, [], ◌∷◌, ◌++◌,
  All, All-append, All-mono, length, length-append, arith, if◌then◌else◌,
}
use prime_detailer_backend.Base.Int.{ℤ, ◌≤ℤ◌, ◌<ℤ◌, leb_ℤ, ltb_ℤ}
use prime_detailer_backend.Rewards.Engine.{Choice, is_better, select_from, select_achieved_tier}
use prime_detailer_backend.Rewards.Revenue.{CompanyTargetTier}
use mathlib.Core.List.{append_assoc, append-nil}

lt_chain : (a b c : ℤ) → a <ℤ b → b <ℤ c → a <ℤ c
lt_chain a b c h k = omega arith

le_chain : (a b c : ℤ) → a ≤ℤ b → b <ℤ c → a <ℤ c
le_chain a b c h k = omega arith

module _ (revenue : ℤ) where
  abbrev IsAchieved : CompanyTargetTier → Type 0
  IsAchieved u = u.target_amount ≤ℤ revenue

  -- No tier is achieved; or the chosen one is, none before it has as high a target among the
  -- achieved tiers, and none after it a higher one.
  abbrev pub Highest : List CompanyTargetTier → Choice → Type 0
  Highest tiers none = All (λ u. ¬ (u.target_amount ≤ℤ revenue)) tiers
  Highest tiers (some (t, i)) =
      (before : List CompanyTargetTier) × (after : List CompanyTargetTier) × (tiers
        ≡ before ++ t ∷ after)
      × (length before ≡ i)
      × (t.target_amount ≤ℤ revenue)
      × All (λ u. u.target_amount ≤ℤ revenue → u.target_amount <ℤ t.target_amount) before
      × All (λ u. u.target_amount ≤ℤ revenue → u.target_amount ≤ℤ t.target_amount) after

  take_tier :
      (done : List CompanyTargetTier) (tier : CompanyTargetTier)
      → tier.target_amount ≤ℤ revenue
      → All (λ u. u.target_amount ≤ℤ revenue → u.target_amount <ℤ tier.target_amount) done
      → Highest (done ++ tier ∷ []) (some (tier, length done))
  take_tier done tier ach below = (done, [], refl, refl, ach, below, tt)

  not_better :
      (t tier : CompanyTargetTier)
      → (leb_ℤ tier.target_amount revenue && ltb_ℤ t.target_amount tier.target_amount) ≡ false
      → tier.target_amount ≤ℤ revenue
      → tier.target_amount ≤ℤ t.target_amount
  not_better t tier worse y = ground arith

  step-Highest :
      (done : List CompanyTargetTier) (tier : CompanyTargetTier) (best : Choice)
      → Highest done best
      → Highest (done ++ tier ∷ []) (
          if leb_ℤ tier.target_amount revenue && is_better tier best
          then some (tier, length done)
          else best)
  step-Highest done tier none h = elim (Bool-cases (leb_ℤ tier.target_amount revenue)) [
    | inl ach ↦
        rw ach (take_tier done tier (ground arith) (All-mono _ _ done (λ u no y. absurd (no y)) h))
    | inr short ↦ rw short (All-append _ done (tier ∷ []) h (ground arith, tt))
  ]
  step-Highest done tier (some (t, i)) (before, after, e, n, ach, lo, hi) =
      elim (Bool-cases
        (leb_ℤ tier.target_amount revenue && ltb_ℤ t.target_amount tier.target_amount)) [
          | inl better ↦
              let reach : tier.target_amount ≤ℤ revenue = ground arith in
              let above : t.target_amount <ℤ tier.target_amount = ground arith in
              rw better (
                take_tier done tier reach (
                  subst
                    (All (λ u. u.target_amount ≤ℤ revenue → u.target_amount <ℤ tier.target_amount))
                    (sym e)
                    (All-append _ before (t ∷ after)
                      (All-mono _ _ before
                        (λ u low y.
                          lt_chain u.target_amount t.target_amount tier.target_amount (low y) above)
                        lo)
                      (
                        λ y. above,
                        All-mono _ _ after
                            (λ u low y.
                              le_chain u.target_amount t.target_amount tier.target_amount (low y)
                                above)
                            hi,
                      ))))
          | inr worse ↦ rw worse (
            before,
            after ++ tier ∷ [],
            rw e (append_assoc before (t ∷ after) (tier ∷ [])),
            n,
            ach,
            lo,
            All-append _ after (tier ∷ []) hi (not_better t tier worse, tt),
          )
        ]

  select_from-Highest :
      (done tiers : List CompanyTargetTier) (best : Choice)
      → Highest done best
      → Highest (done ++ tiers) (select_from revenue (length done) best tiers)
  unfolding select_from
  select_from-Highest done [] best h = rw (append-nil done) h
  select_from-Highest done (tier ∷ tiers) best h =
      let next =
        if leb_ℤ tier.target_amount revenue && is_better tier best
        then some (tier, length done)
        else best in
      let longer : length (done ++ tier ∷ []) ≡ length done + 1 =
        omega (arith, length-append done (tier ∷ [])) in
      subst (λ k. Highest (done ++ tier ∷ tiers) (select_from revenue k next tiers)) longer
        (subst (λ l. Highest l (select_from revenue (length (done ++ tier ∷ [])) next tiers))
          (append_assoc done (tier ∷ []) tiers)
          (select_from-Highest (done ++ tier ∷ []) tiers next (step-Highest done tier best h)))

-- The tier that is selected is the achieved tier with the highest target, the first of those that
-- tie, at its index; none is selected exactly where no target is met by the revenue.
pub select_achieved_tier-Highest :
    (revenue : ℤ) (tiers : List CompanyTargetTier)
    → Highest revenue tiers (select_achieved_tier revenue tiers)
unfolding select_achieved_tier
select_achieved_tier-Highest revenue tiers = select_from-Highest revenue [] tiers none tt

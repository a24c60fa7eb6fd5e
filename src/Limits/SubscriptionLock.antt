-- ===== src/Limits/SubscriptionLock.antt =====
-- The lock of exports before a subscription expires, src/lib/subscription-lock.ts. Times are
-- milliseconds.
use prime_detailer_backend.Base.{
  ℕ, suc, ◌+◌, ◌*◌, ◌/◌, ◌%◌, String, Bool, true, false, not, ◌&&◌, ◌||◌, ◌≡◌, ◌↔◌, Option, none,
  some, if◌then◌else◌, leb, ◌==◌, arith,
}
use prime_detailer_backend.Base.Int.{
  ℤ, pos, negsuc, sub_ℕ, ◌-ℤ◌, ◌+ℤ◌, ◌≤ℤ◌, ◌<ℤ◌, ltb_ℤ, leb_ℤ, int_laws,
}
use prime_detailer_backend.Base.Text.{decimal}
use mathlib.Core.Option
use Prim.Native.String.{◌++◌ as join}

abbrev pub export_lock_days_before_expiry : ℤ
export_lock_days_before_expiry = pos 30

pub data GraceOrLockStatus : Type 0 where
  unlocked : GraceOrLockStatus
  export_locked : GraceOrLockStatus
  expired : GraceOrLockStatus

abbrev pub ms_per_day : ℕ
ms_per_day = 86400000

-- `Math.ceil(x / MS_PER_DAY)`
unfoldable pub ceil_days : ℤ → ℤ
ceil_days (pos n) = pos ((n + 86399999) / ms_per_day)
ceil_days (negsuc n) = sub_ℕ 0 (suc n / ms_per_day)

unfoldable pub days_until_expiry : Option ℤ → ℤ → Option ℤ
unfolding ceil_days
days_until_expiry expires_at now = Option.map (λ at_time. ceil_days (at_time -ℤ now)) expires_at

abbrev status_of : Option ℤ → GraceOrLockStatus
status_of none = unlocked
status_of (some days) =
    if ltb_ℤ days (pos 0)
    then expired
    else if leb_ℤ days export_lock_days_before_expiry
    then export_locked
    else unlocked

unfoldable pub grace_or_lock_status : Option ℤ → ℤ → GraceOrLockStatus
unfolding days_until_expiry
grace_or_lock_status expires_at now = status_of (days_until_expiry expires_at now)

abbrev is_unlocked : GraceOrLockStatus → Bool
is_unlocked unlocked = true
is_unlocked s = false

unfoldable pub is_export_locked : Option ℤ → ℤ → Bool
unfolding grace_or_lock_status
is_export_locked expires_at now = not (is_unlocked (grace_or_lock_status expires_at now))

unfoldable pub term_label_from_months : ℕ → String
term_label_from_months term_months =
    if term_months == 1
    then "1 month"
    else if term_months == 3
    then "3 months (quarterly)"
    else if term_months % 12 == 0 && leb 1 (term_months / 12)
    then (if term_months / 12 == 1 then "1 year" else join (decimal (term_months / 12)) " years")
    else join (decimal term_months) " months"

unfoldable pub normalize_term_months : Option ℕ → ℕ
normalize_term_months none = 12
normalize_term_months (some raw) =
    if raw == 1 || raw == 3 || raw == 12 || raw == 24 || raw == 36 || raw == 60 then raw else 12

ceil_days-negative : (d : ℤ) → (ceil_days d <ℤ pos 0) ↔ (d +ℤ pos 86400000 ≤ℤ pos 0)
unfolding ceil_days ◌+ℤ◌
ceil_days-negative (pos n) = (λ h. absurd (omega arith), λ h. absurd (ground arith))
ceil_days-negative (negsuc n) = (λ h. ground arith, λ h. ground arith)

ceil_days-within : (d : ℤ) → (ceil_days d ≤ℤ pos 30) ↔ (d ≤ℤ pos 2592000000)
unfolding ceil_days
ceil_days-within (pos n) = (λ h. omega arith, λ h. omega arith)
ceil_days-within (negsuc n) = (λ h. omega arith, λ h. ground arith)

locked_of_days : (days : ℤ) → (not (is_unlocked (status_of (some days))) ≡ true) ↔ (days ≤ℤ pos 30)
locked_of_days days = (λ h. ground arith, λ h. ground arith)

expired_of_days : (days : ℤ) → (status_of (some days) ≡ expired) ↔ (days <ℤ pos 0)
expired_of_days days = (λ h. ground arith, λ h. ground arith)

-- Exports are locked exactly from thirty days before the expiry on, to the millisecond, and for
-- ever after it.
pub is_export_locked_iff :
    (expires_at now : ℤ)
    → (is_export_locked (some expires_at) now ≡ true) ↔ (expires_at ≤ℤ now +ℤ pos (30 * 86400000))
unfolding is_export_locked
is_export_locked_iff expires_at now =
    let days = ceil_days (expires_at -ℤ now) in
    (
      λ locked.
          let close = (ceil_days-within (expires_at -ℤ now)).0 ((locked_of_days days).0 locked) in
          omega int_laws,
      λ close.
          let near : expires_at -ℤ now ≤ℤ pos 2592000000 = omega int_laws in
          (locked_of_days days).1 ((ceil_days-within (expires_at -ℤ now)).1 near),
    )

-- A subscription counts as expired only a whole day after its expiry.
grace_or_lock_status-expired_iff :
    (expires_at now : ℤ)
    → (grace_or_lock_status (some expires_at) now ≡ expired) ↔ (expires_at +ℤ pos 86400000 ≤ℤ now)
unfolding grace_or_lock_status
grace_or_lock_status-expired_iff expires_at now =
    let days = ceil_days (expires_at -ℤ now) in
    (
      λ over.
          let past = (ceil_days-negative (expires_at -ℤ now)).0 ((expired_of_days days).0 over) in
          omega int_laws,
      λ past.
          let gone : (expires_at -ℤ now) +ℤ pos 86400000 ≤ℤ pos 0 = omega int_laws in
          (expired_of_days days).1 ((ceil_days-negative (expires_at -ℤ now)).1 gone),
    )

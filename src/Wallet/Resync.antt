-- ===== src/Wallet/Resync.antt =====
-- Saving the same invoice again moves no money.
use prime_detailer_backend.Base.{
  ◌≡◌, refl, sym, ap, ◌∙◌, ◌⊎◌, inl, inr, true, false, Bool-cases, String, Option, subst, ◌||◌,
  some, List, [], ◌∷◌, All, any, arith,
}
use prime_detailer_backend.Base.Int.{ℤ, pos, ◌-ℤ◌, int_laws}
use prime_detailer_backend.Base.Money.{round2}
use prime_detailer_backend.Base.Text.{str_eq}
use prime_detailer_backend.Wallet.Sync.{
  Call, sync_usage, sync_payment, sync_payments, reverse_payment, reverse_payments,
  sync_payment_lists, sync_wallet,
}
use prime_detailer_backend.Wallet.Records.{
  Payment, Invoice, Wallet, Result, ok, err, is_set, carries_extra, ◌>>=◌, used_of, payments_of,
  with_payments,
}
use Prim.Native.String
use text.Mathlib.TextEquality.{eq_iff}
use text.Mathlib.TextPositions.{eq_refl}
use text.Mathlib.TextLemmas.{append-eq-nil_iff}
use mathlib.Core.List.{Memᴰ}

-- A payment that a further synchronisation passes over.
abbrev IsSettled : Payment → Type 0
IsSettled p = (is_set p.wallet_transaction_id ≡ true) ⊎ (carries_extra p ≡ false)

-- A stamp is never the empty string, whatever the random part is.
is_set_stamp : (random : String) → is_set (some (String.◌++◌ "wtx-pay-" random)) ≡ true
is_set_stamp random = elim (Bool-cases (str_eq (String.◌++◌ "wtx-pay-" random) "")) [
  | inr full ↦ rw full
  | inl empty ↦
      let no_prefix : ◌≡◌ {A = String} "wtx-pay-" "" =
        ((append-eq-nil_iff {p = "wtx-pay-"} {q = random}).0 ((eq_iff _ _).0 empty)).0 in
      cc ((eq_iff "wtx-pay-" "").1 no_prefix)
]

module _ (c : Call) where
  sync_payment-IsSettled : (p : Payment) (w : Wallet) → IsSettled (sync_payment c p w).0
  unfolding sync_payment
  sync_payment-IsSettled p w = elim (Bool-cases (is_set p.wallet_transaction_id)) [
    | inl stamped ↦ rw stamped (inl stamped)
    | inr fresh ↦ rw fresh (elim (Bool-cases (carries_extra p)) [
      | inl extra ↦ rw extra (inl (is_set_stamp _))
      | inr plain ↦ rw plain (inr plain)
    ])
  ]

  sync_payment_of_IsSettled : (p : Payment) (w : Wallet) → IsSettled p → sync_payment c p w ≡ (p, w)
  unfolding sync_payment
  sync_payment_of_IsSettled p w (inl stamped) = rw stamped
  sync_payment_of_IsSettled p w (inr plain) = elim (Bool-cases (is_set p.wallet_transaction_id)) [
    | inl stamped ↦ rw stamped
    | inr fresh ↦ rw fresh (rw plain)
  ]

  sync_payments-IsSettled :
      (ps : List Payment) (w : Wallet) → All IsSettled (sync_payments c ps w).0
  unfolding sync_payments
  sync_payments-IsSettled [] w = tt
  sync_payments-IsSettled (p ∷ ps) w =
      (sync_payment-IsSettled p w, sync_payments-IsSettled ps (sync_payment c p w).1)

  sync_payments_of_IsSettled :
      (ps : List Payment) (w : Wallet) → All IsSettled ps → sync_payments c ps w ≡ (ps, w)
  unfolding sync_payments
  sync_payments_of_IsSettled [] w h = refl
  sync_payments_of_IsSettled (p ∷ ps) w (settled, h) =
      rw (sync_payment_of_IsSettled p w settled) (rw (sync_payments_of_IsSettled ps w h))

  sync_usage-zero : (w : Wallet) → sync_usage c (pos 0) w ≡ ok w
  unfolding sync_usage
  sync_usage-zero w = refl

  any_id_of_Memᴰ :
      (p : Payment) (ps : List Payment) → Memᴰ p ps → any (λ np. str_eq np.id p.id) ps ≡ true
  any_id_of_Memᴰ p [] m = elim m [ ]
  any_id_of_Memᴰ p (q ∷ ps) (Memᴰ.head e) =
      subst (λ x. (str_eq x.id p.id || any (λ np. str_eq np.id p.id) ps) ≡ true) e
        (rw (eq_refl p.id))
  any_id_of_Memᴰ p (q ∷ ps) (Memᴰ.tail m) = ground (arith, any_id_of_Memᴰ p ps m)

  reverse_payments_of_kept :
      (new ps : List Payment) (w : Wallet)
      → All (λ p. any (λ np. str_eq np.id p.id) new ≡ true) ps
      → reverse_payments c new ps w ≡ ok w
  unfolding reverse_payments reverse_payment
  reverse_payments_of_kept new [] w h = refl
  reverse_payments_of_kept new (p ∷ ps) w (kept, h) = rw kept (reverse_payments_of_kept new ps w h)

sub_self : (x : ℤ) → round2 (x -ℤ x) ≡ pos 0
unfolding round2
sub_self x = let zero_diff : x -ℤ x ≡ pos 0 = omega int_laws in rw zero_diff

All-Memᴰ : (P : Payment → Type 0) (ps : List Payment) → ((p : Payment) → Memᴰ p ps → P p) → All P ps
All-Memᴰ P [] h = tt
All-Memᴰ P (p ∷ ps) h = (h p (Memᴰ.head refl), All-Memᴰ P ps (λ q m. h q (Memᴰ.tail m)))

-- The payments that a synchronisation returns are settled.
sync_wallet-IsSettled :
    (c : Call) (old : Option Invoice) (start : ℤ) (payments : List Payment) (w : Wallet)
    → sync_wallet c old start ≡ ok (payments, w)
    → All IsSettled payments
unfolding sync_wallet
sync_wallet-IsSettled c old start payments w e =
    go
      (sync_usage c (round2 (used_of (some c.new_invoice) -ℤ used_of old))
        (record { balance = start; records = [] }))
      e
  where
    last :
        (ps : List Payment) (r : Result Wallet)
        → All IsSettled ps
        → with_payments ps r ≡ ok (payments, w)
        → All IsSettled payments
    last ps (ok v) h e = let same : ps ≡ payments = ground arith in subst (All IsSettled) same h
    last ps (err x) h e = cc

    go :
        (r : Result Wallet)
        → (r >>= sync_payment_lists c old) ≡ ok (payments, w)
        → All IsSettled payments
    go (ok v) e =
        let ps = payments_of (some c.new_invoice) in
        last (sync_payments c ps v).0
          (reverse_payments c (sync_payments c ps v).0 (payments_of old) (sync_payments c ps v).1)
          (sync_payments-IsSettled c ps v) e
    go (err x) e = cc

module _ (c : Call) where
  sync_payment_lists_of_IsSettled :
      (w : Wallet)
      → All IsSettled (payments_of (some c.new_invoice))
      → sync_payment_lists c (some c.new_invoice) w ≡ ok (payments_of (some c.new_invoice), w)
  unfolding sync_payment_lists
  sync_payment_lists_of_IsSettled w h =
      let ps = payments_of (some c.new_invoice) in
      rw (sync_payments_of_IsSettled c ps w h) (
        ap (with_payments ps) (
          reverse_payments_of_kept c ps ps w (
            All-Memᴰ (λ p. any (λ np. str_eq np.id p.id) ps ≡ true) ps
              (λ p m. any_id_of_Memᴰ c p ps m))))

  sync_wallet_of_IsSettled :
      (start : ℤ)
      → All IsSettled (payments_of (some c.new_invoice))
      → sync_wallet c (some c.new_invoice) start
        ≡ ok (payments_of (some c.new_invoice), record { balance = start; records = [] })
  unfolding sync_wallet
  sync_wallet_of_IsSettled start h =
      let used = used_of (some c.new_invoice) in
      let first : Wallet = record { balance = start; records = [] } in
      let usage : sync_usage c (round2 (used -ℤ used)) first ≡ ok first =
        rw (sub_self used) (sync_usage-zero c first) in
      ap (λ r. r >>= sync_payment_lists c (some c.new_invoice)) usage
      ∙ sync_payment_lists_of_IsSettled first h

-- Once a synchronisation has succeeded and its stamped payments are saved with the invoice, saving
-- that invoice again creates no record and leaves the balance and the payments as they are.
pub sync_wallet_idempotent :
    (c again : Call) (old : Option Invoice) (start : ℤ) (payments : List Payment) (w : Wallet)
    → sync_wallet c old start ≡ ok (payments, w)
    → again.new_invoice ≡ record c.new_invoice { payments = some payments }
    → sync_wallet again (some again.new_invoice) w.balance
      ≡ ok (payments, record { balance = w.balance; records = [] })
sync_wallet_idempotent c again old start payments w e saved =
    let same : payments_of (some again.new_invoice) ≡ payments =
      ap (λ inv. payments_of (some inv)) saved in
    sync_wallet_of_IsSettled again w.balance
      (subst (All IsSettled) (sym same) (sync_wallet-IsSettled c old start payments w e))
    ∙ ap (λ ps. ok (ps, record { balance = w.balance; records = [] })) same

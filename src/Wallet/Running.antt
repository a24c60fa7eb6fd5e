-- ===== src/Wallet/Running.antt =====
-- The records that a synchronisation creates explain the new balance.
use prime_detailer_backend.Base.{
  ◌≡◌, refl, subst, inl, inr, Bool-cases, Option, some, List, [], ◌∷◌, ◌++◌, arith, or_else, not,
  any, ◌&&◌, true, and-parts,
}
use prime_detailer_backend.Base.Int.{ℤ, pos, ◌+ℤ◌, ◌-ℤ◌, ◌≤ℤ◌, ◌<ℤ◌, ltb_ℤ}
use prime_detailer_backend.Base.Money.{round2}
use prime_detailer_backend.Base.Text.{str_eq}
use prime_detailer_backend.Wallet.Sync.{
  Call, sync_usage, sync_payment, sync_payments, reverse_payment, reverse_payments,
  sync_payment_lists, sync_wallet,
}
use prime_detailer_backend.Wallet.Records.{
  Payment, Invoice, used_of, payments_of, Direction, debit, credit, WalletTx, Wallet, Result, ok,
  err, is_positive, is_set, ◌>>=◌, carries_extra, with_payments,
}

-- The balance after an amount has moved, before rounding.
abbrev pub moved : Direction → ℤ → ℤ → ℤ
moved debit b amount = b -ℤ amount
moved credit b amount = b +ℤ amount

-- A debit takes no more than there is.
abbrev pub IsCovered : Direction → ℤ → ℤ → Type 0
IsCovered debit b amount = amount ≤ℤ b
IsCovered credit b amount = Unit {0}

-- One record after a balance `b`.
abbrev pub Follows : ℤ → WalletTx → Type 0
Follows b tx =
    (pos 0 <ℤ tx.amount)
    × IsCovered tx.direction b tx.amount
    × (tx.balance_after ≡ round2 (moved tx.direction b tx.amount))

-- A list of records leads from one balance to another, each from where the last one ended.
abbrev pub Explains : ℤ → List WalletTx → ℤ → Type 0
Explains b [] b' = b' ≡ b
Explains b (tx ∷ txs) b' = Follows b tx × Explains tx.balance_after txs b'

Explains-snoc :
    (b : ℤ) (txs : List WalletTx) (b' : ℤ) (tx : WalletTx)
    → Explains b txs b'
    → Follows b' tx
    → Explains b (txs ++ tx ∷ []) tx.balance_after
Explains-snoc b [] b' tx h f = (subst (λ x. Follows x tx) h f, refl)
Explains-snoc b (t ∷ txs) b' tx (g, h) f = (g, Explains-snoc t.balance_after txs b' tx h f)

-- What holds of a wallet that a step returns.
abbrev pub Ensures {κ} : (Wallet → Type κ) → Result Wallet → Type κ
Ensures P (ok w) = P w
Ensures P (err e) = Unit

is_positive-lt : (x : Option ℤ) → is_positive x ≡ true → pos 0 <ℤ or_else x (pos 0)
is_positive-lt x h = ground arith

carries_extra-lt : (p : Payment) → carries_extra p ≡ true → pos 0 <ℤ or_else p.extra_amount (pos 0)
carries_extra-lt p h = is_positive-lt p.extra_amount (and-parts _ _ h).1

module _ (c : Call) (start : ℤ) where
  abbrev IsExplained : Wallet → Type 0
  IsExplained w = Explains start w.records w.balance

  sync_usage-IsExplained :
      (diff : ℤ) (w : Wallet) → IsExplained w → Ensures IsExplained (sync_usage c diff w)
  unfolding sync_usage ◌-ℤ◌
  sync_usage-IsExplained diff w h = elim (Bool-cases (ltb_ℤ (pos 0) diff)) [
    | inl more ↦ rw more (elim (Bool-cases (ltb_ℤ w.balance diff)) [
      | inl short ↦ rw short tt
      | inr fits ↦
          rw fits (Explains-snoc start w.records w.balance _ h (ground arith, ground arith, refl))
    ])
    | inr no_more ↦ rw no_more (elim (Bool-cases (ltb_ℤ diff (pos 0))) [
      | inl less ↦ rw less (Explains-snoc start w.records w.balance _ h (ground arith, tt, refl))
      | inr same ↦ rw same h
    ])
  ]

  sync_payment-IsExplained :
      (p : Payment) (w : Wallet) → IsExplained w → IsExplained (sync_payment c p w).1
  unfolding sync_payment
  sync_payment-IsExplained p w h = elim (Bool-cases (is_set p.wallet_transaction_id)) [
    | inl stamped ↦ rw stamped h
    | inr fresh ↦ rw fresh (elim (Bool-cases (carries_extra p)) [
      | inl extra ↦
          rw extra
            (Explains-snoc start w.records w.balance _ h (carries_extra-lt p extra, tt, refl))
      | inr plain ↦ rw plain h
    ])
  ]

  sync_payments-IsExplained :
      (ps : List Payment) (w : Wallet) → IsExplained w → IsExplained (sync_payments c ps w).1
  unfolding sync_payments
  sync_payments-IsExplained [] w h = h
  sync_payments-IsExplained (p ∷ ps) w h =
      sync_payments-IsExplained ps (sync_payment c p w).1 (sync_payment-IsExplained p w h)

  reverse_payment-IsExplained :
      (new_payments : List Payment) (p : Payment) (w : Wallet)
      → IsExplained w
      → Ensures IsExplained (reverse_payment c new_payments p w)
  unfolding reverse_payment
  reverse_payment-IsExplained new_payments p w h =
      let gone = not (any (λ np. str_eq np.id p.id) new_payments) in
      elim (Bool-cases (gone && is_set p.wallet_transaction_id && carries_extra p)) [
        | inl reverse ↦
            rw reverse (elim (Bool-cases (ltb_ℤ w.balance (or_else p.extra_amount (pos 0)))) [
              | inl short ↦ rw short tt
              | inr fits ↦
                  let extra : carries_extra p ≡ true = (and-parts _ _ reverse).1 in
                  let covered : or_else p.extra_amount (pos 0) ≤ℤ w.balance = ground arith in
                  rw fits (
                    Explains-snoc start w.records w.balance _ h
                      (carries_extra-lt p extra, covered, refl))
            ])
        | inr keep ↦ rw keep h
      ]

  reverse_payments-IsExplained :
      (new_payments ps : List Payment) (w : Wallet)
      → IsExplained w
      → Ensures IsExplained (reverse_payments c new_payments ps w)
  unfolding reverse_payments
  reverse_payments-IsExplained new_payments [] w h = h
  reverse_payments-IsExplained new_payments (p ∷ ps) w h =
      go (reverse_payment c new_payments p w) (reverse_payment-IsExplained new_payments p w h)
        (reverse_payments-IsExplained new_payments ps)
    where
      go :
          (r : Result Wallet)
          → Ensures IsExplained r
          → ((w : Wallet)
              → IsExplained w
              → Ensures IsExplained (reverse_payments c new_payments ps w))
          → Ensures IsExplained (r >>= reverse_payments c new_payments ps)
      go (ok w') h' rest = rest w' h'
      go (err e) h' rest = tt

-- A synchronisation that succeeds explains the new balance: the records that it creates lead from
-- the old balance to the new one, each of a positive amount, each with the balance that it leaves,
-- and no debit takes more than there is.
pub sync_wallet-Explains :
    (c : Call) (old : Option Invoice) (start : ℤ) (payments : List Payment) (w : Wallet)
    → sync_wallet c old start ≡ ok (payments, w)
    → Explains start w.records w.balance
unfolding sync_wallet
sync_wallet-Explains c old start payments w e =
    finish (sync_usage c diff first) (sync_usage-IsExplained c start diff first refl) e
  where
    diff : ℤ
    diff = round2 (used_of (some c.new_invoice) -ℤ used_of old)

    first : Wallet
    first = record { balance = start; records = [] }

    last :
        (ps : List Payment) (r : Result Wallet)
        → Ensures (IsExplained c start) r
        → with_payments ps r ≡ ok (payments, w)
        → Explains start w.records w.balance
    last ps (ok v) h e = let same : v ≡ w = ground arith in subst (IsExplained c start) same h
    last ps (err x) h e = cc

    finish :
        (r : Result Wallet)
        → Ensures (IsExplained c start) r
        → (r >>= sync_payment_lists c old) ≡ ok (payments, w)
        → Explains start w.records w.balance
    finish (ok v) h e =
        let ps = payments_of (some c.new_invoice) in
        let (new, v') = sync_payments c ps v in
        last new (reverse_payments c new (payments_of old) v')
          (reverse_payments-IsExplained c start new (payments_of old) v'
            (sync_payments-IsExplained c start ps v h))
          e
    finish (err x) h e = cc

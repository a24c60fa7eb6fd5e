-- ===== src/Wallet/Balance.antt =====
-- What the records of a synchronisation say of the balance.
use prime_detailer_backend.Base.{◌≡◌, sym, subst, ap, ◌∙◌, List, [], ◌∷◌, All, arith, Option}
use prime_detailer_backend.Base.Int.{ℤ, pos, negsuc, ◌+ℤ◌, ◌≤ℤ◌, ◌<ℤ◌, int_laws}
use prime_detailer_backend.Base.Money.{round2, IsCents, IsCents-+ℤ, IsCents--ℤ}
use prime_detailer_backend.Wallet.Sync.{Call, sync_wallet}
use prime_detailer_backend.Wallet.Records.{
  debit, credit, Direction, WalletTx, Payment, Invoice, Wallet, ok,
}
use prime_detailer_backend.Wallet.Running.{
  moved, IsCovered, Follows, Explains, sync_wallet-Explains,
}

moved_nonneg :
    (d : Direction) (b x : ℤ) → pos 0 ≤ℤ b → pos 0 <ℤ x → IsCovered d b x → pos 0 ≤ℤ moved d b x
moved_nonneg debit b x h p c = omega int_laws
moved_nonneg credit b x h p c = omega int_laws

round2_nonneg : (x : ℤ) → pos 0 ≤ℤ x → pos 0 ≤ℤ round2 x
unfolding round2
round2_nonneg (pos n) h = ground arith
round2_nonneg (negsuc n) h = absurd (omega arith)

Follows-nonneg : (b : ℤ) (tx : WalletTx) → pos 0 ≤ℤ b → Follows b tx → pos 0 ≤ℤ tx.balance_after
Follows-nonneg b tx h (p, c, e) =
    subst (λ x. pos 0 ≤ℤ x) (sym e) (round2_nonneg _ (moved_nonneg tx.direction b tx.amount h p c))

Explains-nonneg :
    (b : ℤ) (txs : List WalletTx) (b' : ℤ)
    → pos 0 ≤ℤ b
    → Explains b txs b'
    → All (λ tx. pos 0 ≤ℤ tx.balance_after) txs × (pos 0 ≤ℤ b')
Explains-nonneg b [] b' h e = (tt, subst (λ x. pos 0 ≤ℤ x) (sym e) h)
Explains-nonneg b (tx ∷ txs) b' h (f, e) =
    let (rest, last) = Explains-nonneg tx.balance_after txs b' (Follows-nonneg b tx h f) e in
    ((Follows-nonneg b tx h f, rest), last)

-- A wallet that is not negative stays so: after every record of a synchronisation that succeeds
-- the balance is zero or more.
pub sync_wallet_nonneg :
    (c : Call) (old : Option Invoice) (start : ℤ) (payments : List Payment) (w : Wallet)
    → pos 0 ≤ℤ start
    → sync_wallet c old start ≡ ok (payments, w)
    → All (λ tx. pos 0 ≤ℤ tx.balance_after) w.records × (pos 0 ≤ℤ w.balance)
sync_wallet_nonneg c old start payments w h e =
    Explains-nonneg start w.records w.balance h (sync_wallet-Explains c old start payments w e)

-- Credits count up, debits down.
pub net : List WalletTx → ℤ
net [] = pos 0
net (tx ∷ txs) = moved tx.direction (net txs) tx.amount

moved-IsCents : (d : Direction) (b x : ℤ) → IsCents b → IsCents x → IsCents (moved d b x)
moved-IsCents debit b x h k = IsCents--ℤ b x h k
moved-IsCents credit b x h k = IsCents-+ℤ b x h k

moved_regroup : (d : Direction) (b x n : ℤ) → moved d b x +ℤ n ≡ b +ℤ moved d n x
moved_regroup debit b x n = omega int_laws
moved_regroup credit b x n = omega int_laws

Explains-net :
    (b : ℤ) (txs : List WalletTx) (b' : ℤ)
    → IsCents b
    → All (λ tx. IsCents tx.amount) txs
    → Explains b txs b'
    → b' ≡ b +ℤ net txs
unfolding net
Explains-net b [] b' h a e = let same : b ≡ b +ℤ pos 0 = omega int_laws in e ∙ same
Explains-net b (tx ∷ txs) b' h (k, a) ((_, _, f), e) =
    let exact = moved-IsCents tx.direction b tx.amount h k in
    let after : tx.balance_after ≡ moved tx.direction b tx.amount = f ∙ exact in
    Explains-net tx.balance_after txs b' (subst IsCents (sym after) exact) a e
    ∙ ap (λ x. x +ℤ net txs) after
    ∙ moved_regroup tx.direction b tx.amount (net txs)

-- No money appears or vanishes: when the old balance and the recorded amounts are in whole paise,
-- the new balance is the old one plus the credits and minus the debits that are recorded.
pub sync_wallet-net :
    (c : Call) (old : Option Invoice) (start : ℤ) (payments : List Payment) (w : Wallet)
    → IsCents start
    → All (λ tx. IsCents tx.amount) w.records
    → sync_wallet c old start ≡ ok (payments, w)
    → w.balance ≡ start +ℤ net w.records
sync_wallet-net c old start payments w h a e =
    Explains-net start w.records w.balance h a (sync_wallet-Explains c old start payments w e)

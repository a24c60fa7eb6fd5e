-- ===== src/Wallet/Sync.antt =====
-- `handleInvoiceWalletSync`, src/modules/invoices/wallet-sync.service.ts. The rows that it reads
-- (the stored invoice, the customer) are arguments; what the database transaction writes is the
-- result. The random part of an id and the clock are parameters, read once for each record.
use prime_detailer_backend.Base.{
  ℕ, String, Bool, false, not, ◌&&◌, Option, none, some, List, [], ◌∷◌, ◌++◌, if◌then◌else◌,
  or_else, any, length,
}
use prime_detailer_backend.Base.Int.{ℤ, pos, ◌+ℤ◌, ◌-ℤ◌, ltb_ℤ, abs}
use prime_detailer_backend.Base.Money.{round2}
use prime_detailer_backend.Base.Text.{str_eq}
use Prim.Native.String
use mathlib.Core.Option
use prime_detailer_backend.Wallet.Records.{
  Payment, Invoice, InvoiceRow, Customer, Direction, Source, WalletTx, Result, ◌>>=◌, Wallet,
  is_set, carries_extra, used_of, payments_of, with_payments, debit, credit, invoice_payment,
  refund, other_organization, insufficient_balance, reversal_makes_negative, ok, err,
}

-- What the steps of one call read: the random parts and times of the n-th record, the invoice as
-- it is saved, and the customer.
pub record Call : Type 0 where
  pub random : ℕ → String
  pub now : ℕ → String
  pub invoice_id : String
  pub customer_id : String
  pub customer_name : String
  pub new_invoice : Invoice

module _ (c : Call) where
  open c use {random, now, invoice_id, customer_id, customer_name, new_invoice}

  -- `newInvoice.invoiceNumber || invoiceId`
  abbrev reference : String
  reference =
      if is_set new_invoice.invoice_number
      then or_else new_invoice.invoice_number ""
      else invoice_id

  -- One record, and the balance that it leaves.
  unfoldable pub record_tx : String → Direction → Source → String → ℤ → ℤ → Wallet → WalletTx
  record_tx prefix direction source text amount after w = record {
    id = String.◌++◌ prefix (random (length w.records));
    customer_id = customer_id;
    customer_name = customer_name;
    direction = direction;
    amount = amount;
    source = source;
    reference_id = reference;
    description = String.◌++◌ text reference;
    balance_after = after;
    created_at = now (length w.records);
  }

  abbrev post : WalletTx → Wallet → Wallet
  post tx w = record { balance = tx.balance_after; records = w.records ++ tx ∷ [] }

  -- 1. The change of `walletAmountUsed`.
  unfoldable pub sync_usage : ℤ → Wallet → Result Wallet
  unfolding record_tx
  sync_usage diff w =
      if ltb_ℤ (pos 0) diff
      then if ltb_ℤ w.balance diff
        then err (insufficient_balance diff w.balance)
        else ok (
            post
              (record_tx "wtx-deb-" debit invoice_payment "Used for invoice " diff
                (round2 (w.balance -ℤ diff)) w)
              w)
      else if ltb_ℤ diff (pos 0)
      then ok (
          post
            (record_tx "wtx-crd-" credit refund "Reversal of wallet usage on invoice " (abs diff)
              (round2 (w.balance +ℤ abs diff)) w)
            w)
      else ok w

  -- 2. The payments of the new invoice: what was paid over is credited once, and the payment is
  -- stamped with the id of the record.
  unfoldable pub sync_payment : Payment → Wallet → Payment × Wallet
  unfolding record_tx
  sync_payment p w =
      if is_set p.wallet_transaction_id
      then (p, w)
      else if carries_extra p
      then (let extra = or_else p.extra_amount (pos 0) in
          let tx =
            record_tx "wtx-pay-" credit invoice_payment "Extra payment for invoice " extra
              (round2 (w.balance +ℤ extra)) w in
          (record p { wallet_transaction_id = some tx.id }, post tx w))
      else (p, w)

  unfoldable pub sync_payments : List Payment → Wallet → List Payment × Wallet
  unfolding sync_payment
  sync_payments [] w = ([], w)
  sync_payments (p ∷ ps) w =
      let (p', w') = sync_payment p w in let (ps', w'') = sync_payments ps w' in (p' ∷ ps', w'')

  -- The payments of the stored invoice that are gone: their credit is taken back.
  unfoldable pub reverse_payment : List Payment → Payment → Wallet → Result Wallet
  unfolding record_tx
  reverse_payment new_payments p w =
      if not (any (λ np. str_eq np.id p.id) new_payments)
        && is_set p.wallet_transaction_id
        && carries_extra p
      then (let extra = or_else p.extra_amount (pos 0) in
          if ltb_ℤ w.balance extra
          then err (reversal_makes_negative extra)
          else ok (
              post
                (record_tx "wtx-rev-" debit refund "Reversal of extra payment on invoice " extra
                  (round2 (w.balance -ℤ extra)) w)
                w))
      else ok w

  unfoldable pub reverse_payments : List Payment → List Payment → Wallet → Result Wallet
  unfolding reverse_payment
  reverse_payments new_payments [] w = ok w
  reverse_payments new_payments (p ∷ ps) w = do
    w' ← reverse_payment new_payments p w
    reverse_payments new_payments ps w'

  -- Both rounds over the payments.
  unfoldable pub sync_payment_lists : Option Invoice → Wallet → Result (List Payment × Wallet)
  unfolding sync_payments reverse_payments
  sync_payment_lists old_invoice w =
      let (new_payments, w') = sync_payments (payments_of (some new_invoice)) w in
      with_payments new_payments (reverse_payments new_payments (payments_of old_invoice) w')

  -- The database transaction: the stamped payments, the new balance and the records to create.
  unfoldable pub sync_wallet : Option Invoice → ℤ → Result (List Payment × Wallet)
  unfolding sync_usage sync_payment_lists
  sync_wallet old_invoice balance =
      sync_usage (round2 (used_of (some new_invoice) -ℤ used_of old_invoice))
        (record { balance = balance; records = [] })
      >>= sync_payment_lists old_invoice

-- What a call does: nothing, or the writes of the transaction. An error writes nothing.
pub data Effect : Type 0 where
  unchanged : Effect
  updated : List Payment → Wallet → Effect

abbrev pub wrap : Result (List Payment × Wallet) → Result Effect
wrap (ok (payments, w)) = ok (updated payments w)
wrap (err e) = err e

abbrev pub is_foreign : String → Option InvoiceRow → Bool
is_foreign organization_id none = false
is_foreign organization_id (some row) = not (str_eq row.organization_id organization_id)

-- The transaction finds the customer, or does nothing.
unfoldable pub sync_customer :
    (random now : ℕ → String) (invoice_id customer_id : String)
    → Invoice
    → Option Invoice
    → Option Customer
    → Result Effect
unfolding sync_wallet
sync_customer random now invoice_id customer_id new_invoice old_invoice none = ok unchanged
sync_customer random now invoice_id customer_id new_invoice old_invoice (some c) =
    let call : Call = record {
      random = random;
      now = now;
      invoice_id = invoice_id;
      customer_id = customer_id;
      customer_name = c.name;
      new_invoice = new_invoice;
    } in
    wrap (sync_wallet call old_invoice c.wallet_balance)

unfoldable pub handle_invoice_wallet_sync :
    (random now : ℕ → String) (organization_id invoice_id : String)
    → Invoice
    → Option InvoiceRow
    → (String → Option Customer)
    → Result Effect
unfolding sync_customer
handle_invoice_wallet_sync random now organization_id invoice_id new_invoice old_row find_customer =
    if is_foreign organization_id old_row
    then err other_organization
    else if not (is_set new_invoice.customer_id)
    then ok unchanged
    else sync_customer random now invoice_id (or_else new_invoice.customer_id "") new_invoice
        (Option.map (λ row. row.payload) old_row)
        (find_customer (or_else new_invoice.customer_id ""))

-- ===== src/Wallet/Tests.antt =====
-- Tests of src/modules/invoices/wallet-sync.service.ts, and its theorems at a concrete invoice.
use prime_detailer_backend.Base.{
  String, true, ◌≡◌, refl, Option, none, some, List, [], ◌∷◌, All, map,
}
use prime_detailer_backend.Base.Int.{ℤ, pos, ◌+ℤ◌, ◌-ℤ◌}
use prime_detailer_backend.Base.Money.{round2, IsCents}
use prime_detailer_backend.Wallet.Sync.{Call, unchanged, sync_wallet, handle_invoice_wallet_sync}
use prime_detailer_backend.Wallet.Records.{
  Payment, Invoice, InvoiceRow, Wallet, Result, ok, err, insufficient_balance,
  reversal_makes_negative, other_organization,
}
use prime_detailer_backend.Wallet.Running.{Explains, sync_wallet-Explains}
use prime_detailer_backend.Wallet.Balance.{net, sync_wallet-net}
use prime_detailer_backend.Wallet.Resync.{sync_wallet_idempotent}

abbrev extra : Payment
extra = record {
  id = "p1";
  wallet_transaction_id = none;
  add_extra_to_wallet = true;
  extra_amount = some (pos 2000000);
}

abbrev stamped : Payment
stamped = record extra { wallet_transaction_id = some "wtx-pay-x" }

-- 150 rupees of the wallet are used, and 200 are paid over.
abbrev invoice : Invoice
invoice = record {
  customer_id = some "c1";
  invoice_number = some "INV-7";
  wallet_amount_used = some (pos 1500000);
  payments = some (extra ∷ []);
}

abbrev call : Call
call = record {
  random = λ n. "x";
  now = λ n. "2026-11-26";
  invoice_id = "i1";
  customer_id = "c1";
  customer_name = "Ravi";
  new_invoice = invoice;
}

-- What a run from a balance leaves.
abbrev summary : Result (List Payment × Wallet) → Option (ℤ × List ℤ)
summary (ok (ps, w)) = some (w.balance, map (λ tx. tx.balance_after) w.records)
summary (err e) = none

sync : Unit {0}
unfolding sync_wallet handle_invoice_wallet_sync round2 ◌+ℤ◌ ◌-ℤ◌
sync = tt

sync_tests :
    (summary (sync_wallet call none (pos 1600000))
      ≡ some (pos 2100000, pos 100000 ∷ pos 2100000 ∷ []))
    × (sync_wallet call none (pos 1499999) ≡ err (insufficient_balance (pos 1500000) (pos 1499999)))
    × (sync_wallet
          (record call { new_invoice = record invoice { payments = none } })
          (some (record invoice { payments = some (stamped ∷ []) }))
          (pos 100)
        ≡ err (reversal_makes_negative (pos 2000000)))
unfolding sync
sync_tests = (refl, refl, refl)

abbrev row : String → InvoiceRow
row org = record { organization_id = org; payload = invoice }

handler_tests :
    (handle_invoice_wallet_sync
        (λ n. "x")
        (λ n. "t")
        "o1"
        "i1"
        invoice
        (some (row "o2"))
        (λ id. none)
      ≡ err other_organization)
    × (handle_invoice_wallet_sync
          (λ n. "x")
          (λ n. "t")
          "o1"
          "i1"
          invoice
          (some (row "o1"))
          (λ id. none)
        ≡ ok unchanged)
unfolding sync
handler_tests = (refl, refl)

abbrev result : Result (List Payment × Wallet)
result = sync_wallet call none (pos 1600000)

abbrev payments : List Payment
payments = stamped ∷ []

abbrev outcome : (w : Wallet) × (result ≡ ok (payments, w))
unfolding sync
outcome = (_, refl)

sync_wallet-Explains_example : Explains (pos 1600000) outcome.0.records outcome.0.balance
sync_wallet-Explains_example =
    sync_wallet-Explains call none (pos 1600000) payments outcome.0 outcome.1

amounts-IsCents : IsCents (pos 1600000) × All (λ tx. IsCents tx.amount) outcome.0.records
unfolding sync outcome
amounts-IsCents = (refl, (refl, (refl, tt)))

sync_wallet-net_example : outcome.0.balance ≡ pos 1600000 +ℤ net outcome.0.records
sync_wallet-net_example =
    sync_wallet-net call none (pos 1600000) payments outcome.0 amounts-IsCents.0 amounts-IsCents.1
      outcome.1

abbrev again : Call
again = record call { new_invoice = record invoice { payments = some payments } }

sync_wallet_idempotent_example :
    sync_wallet again (some again.new_invoice) outcome.0.balance
    ≡ ok (payments, record { balance = outcome.0.balance; records = [] })
sync_wallet_idempotent_example =
    sync_wallet_idempotent call again none (pos 1600000) payments outcome.0 outcome.1 refl

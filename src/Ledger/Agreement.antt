-- ===== src/Ledger/Agreement.antt =====
-- The closing balance of a customer's statement of all time and the current balance of the customer.
use prime_detailer_backend.Base.{
  String, Bool, true, ◌≡◌, ◌∙◌, refl, ap, List, [], ◌∷◌, arith, All, All-mono, filter,
}
use prime_detailer_backend.Base.Int.{ℤ, pos, ◌+ℤ◌, ◌-ℤ◌, ◌≤ℤ◌, int_laws, max_zero}
use prime_detailer_backend.Base.Money.{round2, sum, IsCents, IsCents-+ℤ, IsCents--ℤ}
use prime_detailer_backend.Ledger.Documents.{
  Party, customer, Invoice, InvoicePayment, Expense, total, wallet_used, invoice_paid_total,
  invoice_outstanding, party_documents_for_party, signed_opening_balance, party_current_balance,
  documents_balance,
}
use prime_detailer_backend.Ledger.Statement.{payment_ledger_timestamp, build_party_statement}
use prime_detailer_backend.Ledger.Closing.{
  period_sales, receipts, period_receipts, InvoiceIsCents, build_party_statement-closing,
}
use prime_detailer_backend.Ledger.Net.{last_balance}

-- All the amounts of an invoice are in whole paise and no more has been paid than is due.
abbrev pub IsSound : Invoice → Type 0
IsSound inv =
    InvoiceIsCents inv × IsCents (wallet_used inv) × (invoice_paid_total inv ≤ℤ inv.grand_total)

pub total-IsCents {ℓ} :
    {A : Type ℓ} (f : A → ℤ) (xs : List A) → All (λ x. IsCents (f x)) xs → IsCents (total f xs)
unfolding sum round2
total-IsCents f [] h = refl
total-IsCents f (x ∷ xs) h = IsCents-+ℤ (f x) (total f xs) h.0 (total-IsCents f xs h.1)

-- The payments of an invoice.
abbrev pub paid_in : Invoice → ℤ
paid_in inv = total (λ (p : InvoicePayment). p.amount) inv.payments

max_zero_lem : (a b : ℤ) → b ≤ℤ a → max_zero (a -ℤ b) ≡ a -ℤ b
unfolding ◌-ℤ◌
max_zero_lem a b h = ground arith

pub invoice_outstanding_lem :
    (inv : Invoice)
    → IsSound inv
    → invoice_outstanding inv ≡ inv.grand_total -ℤ (paid_in inv +ℤ wallet_used inv)
unfolding invoice_outstanding invoice_paid_total
invoice_outstanding_lem inv ((grand, amounts), wallet, within) =
    let paid_total = paid_in inv +ℤ wallet_used inv in
    let exact = IsCents--ℤ inv.grand_total paid_total grand (
      IsCents-+ℤ (paid_in inv) (wallet_used inv)
        (total-IsCents (λ (p : InvoicePayment). p.amount) inv.payments amounts) wallet) in
    rw exact (max_zero_lem inv.grand_total paid_total within)

pub invoice_outstanding-IsCents : (inv : Invoice) → IsSound inv → IsCents (invoice_outstanding inv)
invoice_outstanding-IsCents inv ((grand, amounts), wallet, within) =
    rw (invoice_outstanding_lem inv ((grand, amounts), wallet, within)) (
      IsCents--ℤ inv.grand_total (paid_in inv +ℤ wallet_used inv) grand (
        IsCents-+ℤ (paid_in inv) (wallet_used inv)
          (total-IsCents (λ (p : InvoicePayment). p.amount) inv.payments amounts) wallet))

-- One invoice more: with o ≡ s - r - u, (g - (p + w)) + o ≡ (g + s) - (p + r) - (w + u).
add_invoice :
    (g p w s r u : ℤ) → (g -ℤ (p +ℤ w)) +ℤ ((s -ℤ r) -ℤ u) ≡ ((g +ℤ s) -ℤ (p +ℤ r)) -ℤ (w +ℤ u)
add_invoice g p w s r u = omega int_laws

total-outstanding :
    (invs : List Invoice)
    → All IsSound invs
    → total invoice_outstanding invs
      ≡ (total (λ (inv : Invoice). inv.grand_total) invs -ℤ total paid_in invs)
        -ℤ total wallet_used invs
unfolding sum
total-outstanding [] h = omega int_laws
total-outstanding (inv ∷ invs) h = rw (invoice_outstanding_lem inv h.0) (
    ap (λ o. (inv.grand_total -ℤ (paid_in inv +ℤ wallet_used inv)) +ℤ o)
      (total-outstanding invs h.1)
    ∙ add_invoice inv.grand_total (paid_in inv) (wallet_used inv)
        (total (λ (i : Invoice). i.grand_total) invs) (total paid_in invs) (total wallet_used invs))

module _ (in_preset : String → Bool) (always : (at_time : String) → in_preset at_time ≡ true) where
  filter_always {ℓ} :
      {A : Type ℓ} (at_time : A → String) (xs : List A)
      → filter (λ x. in_preset (at_time x)) xs ≡ xs
  filter_always at_time [] = refl
  filter_always at_time (x ∷ xs) =
      rw (always (at_time x)) (ap (λ l. x ∷ l) (filter_always at_time xs))

  period_sales-always :
      (invs : List Invoice)
      → period_sales in_preset invs ≡ total (λ (inv : Invoice). inv.grand_total) invs
  unfolding period_sales
  period_sales-always invs =
      ap (total (λ (inv : Invoice). inv.grand_total))
        (filter_always (λ (inv : Invoice). inv.created_at) invs)

  period_receipts-always :
      (invs : List Invoice) → period_receipts in_preset invs ≡ total paid_in invs
  unfolding period_receipts receipts sum
  period_receipts-always [] = refl
  period_receipts-always (inv ∷ invs) =
      rw
        (filter_always (λ (p : InvoicePayment). payment_ledger_timestamp p.paid_at inv.created_at)
          inv.payments)
        (ap (λ r. paid_in inv +ℤ r) (period_receipts-always invs))

closing_regroup : (o s r u : ℤ) → o +ℤ (s -ℤ r) ≡ (o +ℤ ((s -ℤ r) -ℤ u)) +ℤ u
closing_regroup o s r u = omega int_laws

-- For a customer whose amounts are in whole paise and who has overpaid no invoice, the statement of
-- all time closes with the current balance plus all that was paid out of the wallet: the statement
-- books no wallet payments, the current balance counts them.
pub build_party_statement-agrees :
    (time_of : String → ℤ) (in_preset : String → Bool) (format : String → String) (party : Party)
    (invoices : List Invoice) (expenses : List Expense)
    → ((at_time : String) → in_preset at_time ≡ true)
    → party.kind ≡ customer
    → IsCents (signed_opening_balance party)
    → All IsSound (party_documents_for_party party invoices expenses).0
    → last_balance (pos 0) (build_party_statement time_of in_preset format party invoices expenses)
      ≡ party_current_balance party invoices expenses
        +ℤ total wallet_used (party_documents_for_party party invoices expenses).0
unfolding party_current_balance
build_party_statement-agrees time_of in_preset format party invoices expenses always kind opening
      sound =
    let documents = party_documents_for_party party invoices expenses in
    let invs = documents.0 in
    let open_balance = signed_opening_balance party in
    let cents = All-mono IsSound InvoiceIsCents invs (λ inv s. s.0) sound in
    let due : documents_balance party.kind documents ≡ total invoice_outstanding invs =
      ap (λ k. documents_balance k documents) kind in
    let exact : IsCents (open_balance +ℤ total invoice_outstanding invs) =
      IsCents-+ℤ open_balance (total invoice_outstanding invs) opening (
        total-IsCents invoice_outstanding invs (
          All-mono IsSound (λ inv. IsCents (invoice_outstanding inv)) invs
            invoice_outstanding-IsCents sound)) in
    build_party_statement-closing time_of in_preset format party invoices expenses kind opening
      cents
    ∙ rw (period_sales-always in_preset always invs) (
        rw (period_receipts-always in_preset always invs) (
          rw due (
            rw exact (
              rw (total-outstanding invs sound) (
                closing_regroup open_balance (total (λ (inv : Invoice). inv.grand_total) invs)
                  (total paid_in invs) (total wallet_used invs))))))

-- ===== src/Ledger/Summary.antt =====
-- The summary of a party's ledger, buildPartySummary of src/lib/party-ledger.ts.
use prime_detailer_backend.Base.{
  String, Bool, true, false, not, ◌&&◌, ◌≡◌, ◌∙◌, refl, ap, inl, inr, Bool-cases, List, [], ◌∷◌,
  if◌then◌else◌, or_else, filter, All,
}
use prime_detailer_backend.Base.Int.{ℤ, pos, ◌+ℤ◌, ◌-ℤ◌, ltb_ℤ, plus_zero, zero_add, +ℤ_assoc}
use prime_detailer_backend.Base.Money.{round2, sum, IsCents, IsCents-+ℤ}
use prime_detailer_backend.Ledger.Documents.{
  Party, PartyKind, customer, supplier, Invoice, InvoiceStatus, fully_paid, InvoicePayment, Expense,
  ExpensePaymentStatus, paid, partial, total, invoice_outstanding, expense_outstanding,
  party_documents_for_party, party_current_balance, signed_opening_balance,
}
use prime_detailer_backend.Ledger.Statement.{payment_ledger_timestamp, build_party_statement}
use prime_detailer_backend.Ledger.Closing.{
  period_sales, receipts, period_receipts, InvoiceIsCents, build_party_statement-closing,
}
use prime_detailer_backend.Ledger.Net.{last_balance}

pub record PartyLedgerSummary : Type 0 where
  pub total_receivable_or_payable : ℤ
  pub overdue_amount : ℤ
  pub total_sales_or_purchases : ℤ
  pub total_received_or_paid : ℤ

abbrev is_fully_paid : InvoiceStatus → Bool
is_fully_paid fully_paid = true
is_fully_paid s = false

abbrev paid_part : Expense → ExpensePaymentStatus → ℤ
paid_part e paid = e.amount
paid_part e partial = or_else e.amount_paid (pos 0)
paid_part e s = pos 0

module _ (in_preset : String → Bool) where
  -- The payments of an invoice whose time lies in the period, after what was received before.
  unfoldable pub add_received : Invoice → List InvoicePayment → ℤ → ℤ
  add_received inv [] received = received
  add_received inv (p ∷ ps) received = add_received inv ps (
      if in_preset (payment_ledger_timestamp p.paid_at inv.created_at)
      then received +ℤ p.amount
      else received)

  unfoldable pub total_received : List Invoice → ℤ → ℤ
  unfolding add_received
  total_received [] received = received
  total_received (inv ∷ invs) received =
      total_received invs (add_received inv inv.payments received)

  abbrev summary_of : PartyKind → ℤ → List Invoice × List Expense → PartyLedgerSummary
  summary_of customer current (invs, exps) = record {
    total_receivable_or_payable = current;
    overdue_amount = round2 (
        total invoice_outstanding (
          filter
            (λ (i : Invoice).
              ltb_ℤ (pos 100) (invoice_outstanding i) && not (is_fully_paid i.invoice_status))
            invs));
    total_sales_or_purchases = round2 (
        total (λ (i : Invoice). i.grand_total)
          (filter (λ (i : Invoice). in_preset i.created_at) invs));
    total_received_or_paid = round2 (total_received invs (pos 0));
  }
  summary_of supplier current (invs, exps) = record {
    total_receivable_or_payable = current;
    overdue_amount = round2 (
        total expense_outstanding
          (filter (λ (e : Expense). ltb_ℤ (pos 100) (expense_outstanding e)) exps));
    total_sales_or_purchases =
        round2
          (total (λ (e : Expense). e.amount) (filter (λ (e : Expense). in_preset e.date) exps));
    total_received_or_paid = round2 (
        total (λ (e : Expense). paid_part e e.payment_status)
          (filter (λ (e : Expense). in_preset e.date) exps));
  }

  unfoldable pub build_party_summary : Party → List Invoice → List Expense → PartyLedgerSummary
  unfolding total_received
  build_party_summary party invoices expenses =
      summary_of party.kind (party_current_balance party invoices expenses)
        (party_documents_for_party party invoices expenses)

  add_received_lem :
      (inv : Invoice) (ps : List InvoicePayment) (received : ℤ)
      → add_received inv ps received ≡ received +ℤ receipts in_preset inv ps
  unfolding add_received receipts sum
  add_received_lem inv [] received = plus_zero received
  add_received_lem inv (p ∷ ps) received =
      elim (Bool-cases (in_preset (payment_ledger_timestamp p.paid_at inv.created_at))) [
        | inl within ↦ rw within (
            add_received_lem inv ps (received +ℤ p.amount)
            ∙ +ℤ_assoc received p.amount (receipts in_preset inv ps))
        | inr outside ↦ rw outside (add_received_lem inv ps received)
      ]

  total_received_lem :
      (invs : List Invoice) (received : ℤ)
      → total_received invs received ≡ received +ℤ period_receipts in_preset invs
  unfolding total_received period_receipts sum
  total_received_lem [] received = plus_zero received
  total_received_lem (inv ∷ invs) received =
      total_received_lem invs (add_received inv inv.payments received)
      ∙ rw (add_received_lem inv inv.payments received)
          (+ℤ_assoc received (receipts in_preset inv inv.payments) (period_receipts in_preset invs))

  sales-IsCents :
      (invs : List Invoice) → All InvoiceIsCents invs → IsCents (period_sales in_preset invs)
  unfolding period_sales sum round2
  sales-IsCents [] h = refl
  sales-IsCents (inv ∷ invs) h = elim (Bool-cases (in_preset inv.created_at)) [
    | inl within ↦
        rw within
          (IsCents-+ℤ inv.grand_total (period_sales in_preset invs) h.0.0 (sales-IsCents invs h.1))
    | inr outside ↦ rw outside (sales-IsCents invs h.1)
  ]

  receipts-IsCents :
      (inv : Invoice) (ps : List InvoicePayment)
      → All (λ (p : InvoicePayment). IsCents p.amount) ps
      → IsCents (receipts in_preset inv ps)
  unfolding receipts sum round2
  receipts-IsCents inv [] h = refl
  receipts-IsCents inv (p ∷ ps) h =
      elim (Bool-cases (in_preset (payment_ledger_timestamp p.paid_at inv.created_at))) [
        | inl within ↦
            rw within
              (IsCents-+ℤ p.amount (receipts in_preset inv ps) h.0 (receipts-IsCents inv ps h.1))
        | inr outside ↦ rw outside (receipts-IsCents inv ps h.1)
      ]

  period_receipts-IsCents :
      (invs : List Invoice) → All InvoiceIsCents invs → IsCents (period_receipts in_preset invs)
  unfolding period_receipts sum round2
  period_receipts-IsCents [] h = refl
  period_receipts-IsCents (inv ∷ invs) h =
      IsCents-+ℤ (receipts in_preset inv inv.payments) (period_receipts in_preset invs)
        (receipts-IsCents inv inv.payments h.0.1) (period_receipts-IsCents invs h.1)

  -- For a customer whose amounts are in whole paise, the statement of a period closes with the
  -- opening balance plus the sales and minus the receipts of the summary of the same period.
  pub build_party_summary-agrees :
      (time_of : String → ℤ) (format : String → String) (party : Party) (invoices : List Invoice)
      (expenses : List Expense)
      → party.kind ≡ customer
      → IsCents (signed_opening_balance party)
      → All InvoiceIsCents (party_documents_for_party party invoices expenses).0
      → let summary = build_party_summary party invoices expenses in
        last_balance
          (pos 0)
          (build_party_statement time_of in_preset format party invoices expenses)
        ≡ signed_opening_balance party
          +ℤ (summary.total_sales_or_purchases -ℤ summary.total_received_or_paid)
  unfolding build_party_summary period_sales
  build_party_summary-agrees time_of format party invoices expenses kind opening cents =
      let documents = party_documents_for_party party invoices expenses in
      let invs = documents.0 in
      let current = party_current_balance party invoices expenses in
      let chosen : summary_of party.kind current documents ≡ summary_of customer current documents =
        ap (λ k. summary_of k current documents) kind in
      build_party_statement-closing time_of in_preset format party invoices expenses kind opening
        cents
      ∙ rw chosen (
          rw (total_received_lem invs (pos 0)) (
            rw (zero_add (period_receipts in_preset invs))
              (rw (period_receipts-IsCents invs cents) (rw (sales-IsCents invs cents) refl))))

-- ===== src/Ledger/Closing.antt =====
-- The closing balance of a statement is the opening balance with all that was booked.
use prime_detailer_backend.Base.{
  String, Bool, ◌≡◌, ◌∙◌, refl, ap, sym, inl, inr, Bool-cases, List, [], ◌∷◌, ◌++◌, if◌then◌else◌,
  All, All-append, filter,
}
use prime_detailer_backend.Base.Int.{ℤ, pos, ◌+ℤ◌, ◌-ℤ◌, int_laws, zero_add}
use prime_detailer_backend.Base.Money.{round2, sum, IsCents}
use prime_detailer_backend.Ledger.Documents.{
  Party, customer, Invoice, InvoicePayment, Expense, total, party_documents_for_party,
  signed_opening_balance,
}
use prime_detailer_backend.Ledger.Statement.{
  Entry, payment_ledger_timestamp, invoice_entry, payment_entry, payment_entries, invoice_entries,
  sort_entries, build_party_statement, if_in_preset, closing_line, entries_of,
}
use prime_detailer_backend.Ledger.Net.{
  last_balance, debit_of, credit_of, net, EntryIsCents, total-append, sort_entries-net,
  sort_entries-All, post_entries-net,
}

pub neg_regroup : (a r : ℤ) → (pos 0 -ℤ a) +ℤ (pos 0 -ℤ r) ≡ pos 0 -ℤ (a +ℤ r)
neg_regroup a r = omega int_laws

diff_regroup : (g r s t : ℤ) → g +ℤ ((pos 0 -ℤ r) +ℤ (s -ℤ t)) ≡ (g +ℤ s) -ℤ (r +ℤ t)
diff_regroup g r s t = omega int_laws

minus_zero : (g : ℤ) → (g -ℤ pos 0) +ℤ pos 0 ≡ g
minus_zero g = omega int_laws

-- What is in the period.
module _ (in_preset : String → Bool) where
  -- The total of the invoices of the period.
  unfoldable pub period_sales : List Invoice → ℤ
  period_sales invs =
      total (λ (inv : Invoice). inv.grand_total)
        (filter (λ (inv : Invoice). in_preset inv.created_at) invs)

  -- The payments of an invoice whose own time lies in the period.
  unfoldable pub receipts : Invoice → List InvoicePayment → ℤ
  receipts inv ps =
      total (λ (p : InvoicePayment). p.amount)
        (filter
          (λ (p : InvoicePayment). in_preset (payment_ledger_timestamp p.paid_at inv.created_at))
          ps)

  unfoldable pub period_receipts : List Invoice → ℤ
  unfolding receipts
  period_receipts invs = total (λ (inv : Invoice). receipts inv inv.payments) invs

-- The amounts of an invoice are in whole paise.
abbrev pub InvoiceIsCents : Invoice → Type 0
InvoiceIsCents inv =
    IsCents inv.grand_total × All (λ (p : InvoicePayment). IsCents p.amount) inv.payments

module _ (time_of : String → ℤ) (in_preset : String → Bool) (format : String → String) where
  payment_entries-net :
      (inv : Invoice) (ps : List InvoicePayment)
      → net (payment_entries time_of in_preset format inv ps) ≡ pos 0 -ℤ receipts in_preset inv ps
  unfolding payment_entries payment_entry receipts sum
  payment_entries-net inv [] = omega int_laws
  payment_entries-net inv (p ∷ ps) =
      elim (Bool-cases (in_preset (payment_ledger_timestamp p.paid_at inv.created_at))) [
        | inl within ↦ rw within (
            ap (λ n. (pos 0 -ℤ p.amount) +ℤ n) (payment_entries-net inv ps)
            ∙ neg_regroup p.amount (receipts in_preset inv ps))
        | inr outside ↦ rw outside (payment_entries-net inv ps)
      ]

  payment_entries-All :
      (inv : Invoice) (ps : List InvoicePayment)
      → All (λ (p : InvoicePayment). IsCents p.amount) ps
      → All EntryIsCents (payment_entries time_of in_preset format inv ps)
  unfolding payment_entries payment_entry round2
  payment_entries-All inv [] h = tt
  payment_entries-All inv (p ∷ ps) h =
      elim (Bool-cases (in_preset (payment_ledger_timestamp p.paid_at inv.created_at))) [
        | inl within ↦ rw within ((refl, h.0), payment_entries-All inv ps h.1)
        | inr outside ↦ rw outside (payment_entries-All inv ps h.1)
      ]

  -- What an invoice itself adds.
  abbrev sale : Invoice → ℤ
  sale inv = if in_preset inv.created_at then inv.grand_total else pos 0

  sale-net :
      (inv : Invoice)
      → net (if_in_preset time_of in_preset format (invoice_entry time_of in_preset format inv))
        ≡ sale inv
  unfolding invoice_entry sum
  sale-net inv = elim (Bool-cases (in_preset inv.created_at)) [
    | inl within ↦ rw within (minus_zero inv.grand_total)
    | inr outside ↦ rw outside refl
  ]

  sale-sales :
      (inv : Invoice) (invs : List Invoice)
      → period_sales in_preset (inv ∷ invs) ≡ sale inv +ℤ period_sales in_preset invs
  unfolding period_sales sum
  sale-sales inv invs = elim (Bool-cases (in_preset inv.created_at)) [
    | inl within ↦ rw within refl
    | inr outside ↦ rw outside (sym (zero_add (period_sales in_preset invs)))
  ]

  invoice_entries-net :
      (invs : List Invoice)
      → net (invoice_entries time_of in_preset format invs)
        ≡ period_sales in_preset invs -ℤ period_receipts in_preset invs
  unfolding invoice_entries invoice_entry period_sales period_receipts sum
  invoice_entries-net [] = omega int_laws
  invoice_entries-net (inv ∷ invs) =
      let own =
        if_in_preset time_of in_preset format (invoice_entry time_of in_preset format inv) in
      let paid_in = payment_entries time_of in_preset format inv inv.payments in
      let rest = invoice_entries time_of in_preset format invs in
      let amount = λ (entry : Entry). debit_of entry -ℤ credit_of entry in
      let r = receipts in_preset inv inv.payments in
      total-append amount own (paid_in ++ rest)
      ∙ rw (sale-net inv) (
          rw (total-append amount paid_in rest) (
            rw (payment_entries-net inv inv.payments) (
              rw (invoice_entries-net invs) (
                diff_regroup (sale inv) r (period_sales in_preset invs)
                  (period_receipts in_preset invs)
                ∙ rw (sale-sales inv invs) refl))))

  invoice_entries-All :
      (invs : List Invoice)
      → All InvoiceIsCents invs
      → All EntryIsCents (invoice_entries time_of in_preset format invs)
  unfolding invoice_entries invoice_entry round2
  invoice_entries-All [] h = tt
  invoice_entries-All (inv ∷ invs) h =
      let paid_in = payment_entries time_of in_preset format inv inv.payments in
      let rest =
        All-append EntryIsCents paid_in (invoice_entries time_of in_preset format invs)
          (payment_entries-All inv inv.payments h.0.1) (invoice_entries-All invs h.1) in
      elim (Bool-cases (in_preset inv.created_at)) [
        | inl within ↦ rw within ((h.0.0, refl), rest)
        | inr outside ↦ rw outside rest
      ]

  -- For a customer whose amounts are in whole paise, the closing balance is the opening balance
  -- plus the invoices of the period minus the payments whose own time lies in it.
  pub build_party_statement-closing :
      (party : Party) (invoices : List Invoice) (expenses : List Expense)
      → party.kind ≡ customer
      → IsCents (signed_opening_balance party)
      → All InvoiceIsCents (party_documents_for_party party invoices expenses).0
      → last_balance
          (pos 0)
          (build_party_statement time_of in_preset format party invoices expenses)
        ≡ signed_opening_balance party
          +ℤ (period_sales in_preset (party_documents_for_party party invoices expenses).0
              -ℤ period_receipts in_preset (party_documents_for_party party invoices expenses).0)
  unfolding build_party_statement
  build_party_statement-closing party invoices expenses kind opening cents =
      let documents = party_documents_for_party party invoices expenses in
      let invs = documents.0 in
      let chosen : entries_of time_of in_preset format party.kind documents
          ≡ invoice_entries time_of in_preset format invs =
        ap (λ k. entries_of time_of in_preset format k documents) kind in
      let entries = invoice_entries time_of in_preset format invs in
      rw chosen (
        post_entries-net time_of in_preset format (closing_line time_of in_preset format)
          (signed_opening_balance party) (signed_opening_balance party)
          (sort_entries time_of in_preset format entries) (λ x. refl)
          (sort_entries-All time_of in_preset format entries (invoice_entries-All invs cents))
          opening
        ∙ rw (sort_entries-net time_of in_preset format entries)
            (rw (invoice_entries-net invs) refl))

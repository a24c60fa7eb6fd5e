-- ===== src/Ledger/PublicClosing.antt =====
-- The closing balance of the statement of all time that a customer is sent.
use prime_detailer_backend.Base.{
  String, Bool, true, ◌≡◌, ◌∙◌, ◌⊎◌, refl, ap, inl, inr, Bool-cases, Option, List, [], ◌∷◌, ◌++◌,
  All, All-append, All-mono,
}
use prime_detailer_backend.Base.Int.{ℤ, pos, ◌+ℤ◌, ◌-ℤ◌, ltb_ℤ, int_laws}
use prime_detailer_backend.Base.Money.{round2, sum, IsCents, IsCents-+ℤ, round2_idempotent}
use prime_detailer_backend.Ledger.Documents.{
  Party, customer, Invoice, InvoicePayment, total, wallet_used, invoice_outstanding,
  party_documents_for_party, signed_opening_balance, party_current_balance, documents_balance,
}
use prime_detailer_backend.Ledger.Statement.{Entry, if_in_preset, sort_entries}
use prime_detailer_backend.Ledger.Public.{
  public_invoice_entry, public_payment_entry, public_payment_entries, wallet_entry, wallet_entries,
  public_entries, public_closing_line, build_public_customer_statement,
}
use prime_detailer_backend.Ledger.Closing.{neg_regroup}
use prime_detailer_backend.Ledger.Net.{
  last_balance, debit_of, credit_of, net, EntryIsCents, total-append, sort_entries-net,
  sort_entries-All, post_entries-net,
}
use prime_detailer_backend.Ledger.Agreement.{
  IsSound, paid_in, total-IsCents, invoice_outstanding_lem, invoice_outstanding-IsCents,
}

-- The wallet is not used, or for more than one paisa.
abbrev pub WalletIsBooked : Invoice → Type 0
WalletIsBooked inv = (ltb_ℤ (pos 100) (wallet_used inv) ≡ true) ⊎ (wallet_used inv ≡ pos 0)

invoice_regroup :
    (g p w r : ℤ)
    → (g -ℤ pos 0) +ℤ ((pos 0 -ℤ p) +ℤ (((pos 0 -ℤ w) +ℤ pos 0) +ℤ r)) ≡ (g -ℤ (p +ℤ w)) +ℤ r
invoice_regroup g p w r = omega int_laws

module _ (time_of : String → ℤ) (in_preset : String → Bool) (format : String → String)
    (format_due : String → ℤ → String)
    (always : (at_time : String) → in_preset at_time ≡ true) where
  if_in_preset-always : (entry : Entry) → if_in_preset time_of in_preset format entry ≡ entry ∷ []
  if_in_preset-always entry = rw (always entry.at_time) refl

  public_payment_entries-net :
      (inv : Invoice) (ps : List InvoicePayment)
      → All (λ (p : InvoicePayment). IsCents p.amount) ps
      → net (public_payment_entries time_of in_preset format format_due inv ps)
        ≡ pos 0 -ℤ total (λ (p : InvoicePayment). p.amount) ps
  unfolding public_payment_entries public_payment_entry sum
  public_payment_entries-net inv [] h = omega int_laws
  public_payment_entries-net inv (p ∷ ps) h =
      rw (if_in_preset-always (public_payment_entry time_of in_preset format format_due inv p)) (
        rw h.0 (
          ap (λ n. (pos 0 -ℤ p.amount) +ℤ n) (public_payment_entries-net inv ps h.1)
          ∙ neg_regroup p.amount (total (λ (q : InvoicePayment). q.amount) ps)))

  wallet_entries-net :
      (inv : Invoice)
      → IsCents (wallet_used inv)
      → WalletIsBooked inv
      → net (wallet_entries time_of in_preset format format_due inv)
        ≡ (pos 0 -ℤ wallet_used inv) +ℤ pos 0
  unfolding wallet_entries sum
  wallet_entries-net inv h (inl used) =
      rw used (
        rw (if_in_preset-always (wallet_entry time_of in_preset format format_due inv)) (rw h refl))
  wallet_entries-net inv h (inr unused) = rw unused (omega int_laws)

  -- An invoice with its payments adds what is outstanding on it.
  invoice_group-net :
      (days : Option ℤ) (inv : Invoice) (rest : List Entry)
      → IsSound inv
      → WalletIsBooked inv
      → net (
          if_in_preset time_of in_preset format
            (public_invoice_entry time_of in_preset format format_due days inv)
          ++ (public_payment_entries time_of in_preset format format_due inv inv.payments
              ++ (wallet_entries time_of in_preset format format_due inv ++ rest)))
        ≡ invoice_outstanding inv +ℤ net rest
  unfolding public_invoice_entry sum
  invoice_group-net days inv rest sound booked =
      let amount = λ (entry : Entry). debit_of entry -ℤ credit_of entry in
      let paid_entries =
        public_payment_entries time_of in_preset format format_due inv inv.payments in
      let wallet = wallet_entries time_of in_preset format format_due inv in
      rw (if_in_preset-always (public_invoice_entry time_of in_preset format format_due days inv)) (
        rw sound.0.0 (
          rw (total-append amount paid_entries (wallet ++ rest)) (
            rw (total-append amount wallet rest) (
              rw (public_payment_entries-net inv inv.payments sound.0.1) (
                rw (wallet_entries-net inv sound.1 booked) (
                  rw (invoice_outstanding_lem inv sound) (
                    invoice_regroup inv.grand_total (paid_in inv) (wallet_used inv)
                      (net rest))))))))

  public_entries-net :
      (days : Option ℤ) (invs : List Invoice)
      → All IsSound invs
      → All WalletIsBooked invs
      → net (public_entries time_of in_preset format format_due days invs)
        ≡ total invoice_outstanding invs
  unfolding public_entries sum
  public_entries-net days [] h k = refl
  public_entries-net days (inv ∷ invs) h k =
      invoice_group-net days inv (public_entries time_of in_preset format format_due days invs) h.0
        k.0
      ∙ ap (λ n. invoice_outstanding inv +ℤ n) (public_entries-net days invs h.1 k.1)

  public_payment_entries-All :
      (inv : Invoice) (ps : List InvoicePayment)
      → All EntryIsCents (public_payment_entries time_of in_preset format format_due inv ps)
  unfolding public_payment_entries public_payment_entry round2
  public_payment_entries-All inv [] = tt
  public_payment_entries-All inv (p ∷ ps) =
      rw (if_in_preset-always (public_payment_entry time_of in_preset format format_due inv p))
        ((refl, round2_idempotent p.amount), public_payment_entries-All inv ps)

  wallet_entries-All :
      (inv : Invoice) → All EntryIsCents (wallet_entries time_of in_preset format format_due inv)
  unfolding wallet_entries round2
  wallet_entries-All inv = elim (Bool-cases (ltb_ℤ (pos 100) (wallet_used inv))) [
    | inl used ↦ rw used (
        rw (if_in_preset-always (wallet_entry time_of in_preset format format_due inv))
          ((refl, round2_idempotent (wallet_used inv)), tt))
    | inr unused ↦ rw unused tt
  ]

  public_entries-All :
      (days : Option ℤ) (invs : List Invoice)
      → All EntryIsCents (public_entries time_of in_preset format format_due days invs)
  unfolding public_entries public_invoice_entry round2
  public_entries-All days [] = tt
  public_entries-All days (inv ∷ invs) =
      let rest = public_entries time_of in_preset format format_due days invs in
      let wallet = wallet_entries time_of in_preset format format_due inv in
      let paid_entries =
        public_payment_entries time_of in_preset format format_due inv inv.payments in
      rw (if_in_preset-always (public_invoice_entry time_of in_preset format format_due days inv)) (
        (round2_idempotent inv.grand_total, refl),
        All-append EntryIsCents paid_entries (wallet ++ rest)
            (public_payment_entries-All inv inv.payments)
            (All-append EntryIsCents wallet rest (wallet_entries-All inv)
              (public_entries-All days invs)),
      )

  -- For a customer whose amounts are in whole paise, who has overpaid no invoice and who never paid
  -- just one paisa from the wallet, the statement of all time that the customer is sent closes with
  -- the current balance of the customer.
  pub build_public_customer_statement-closing :
      (party : Party) (invoices : List Invoice)
      → party.kind ≡ customer
      → IsCents (signed_opening_balance party)
      → All IsSound (party_documents_for_party party invoices []).0
      → All WalletIsBooked (party_documents_for_party party invoices []).0
      → last_balance
          (pos 0)
          (build_public_customer_statement time_of in_preset format format_due party invoices)
        ≡ party_current_balance party invoices []
  unfolding build_public_customer_statement party_current_balance
  build_public_customer_statement-closing party invoices kind opening sound booked =
      let documents = party_documents_for_party party invoices [] in
      let invs = documents.0 in
      let days = party.credit_period_days in
      let entries = public_entries time_of in_preset format format_due days invs in
      let open_balance = signed_opening_balance party in
      let due : documents_balance party.kind documents ≡ total invoice_outstanding invs =
        ap (λ k. documents_balance k documents) kind in
      let exact : IsCents (open_balance +ℤ total invoice_outstanding invs) =
        IsCents-+ℤ open_balance (total invoice_outstanding invs) opening (
          total-IsCents invoice_outstanding invs (
            All-mono IsSound (λ inv. IsCents (invoice_outstanding inv)) invs
              invoice_outstanding-IsCents sound)) in
      post_entries-net time_of in_preset format
        (public_closing_line time_of in_preset format format_due) open_balance open_balance
        (sort_entries time_of in_preset format entries) (λ x. refl)
        (sort_entries-All time_of in_preset format entries (public_entries-All days invs)) opening
      ∙ rw (sort_entries-net time_of in_preset format entries)
          (rw (public_entries-net days invs sound booked) (rw due (rw exact refl)))

-- ===== src/Ledger/Public.antt =====
-- The statement that a customer is sent, buildPublicCustomerStatement of src/lib/party-ledger.ts.
-- The format of the date some days after another is a parameter too.
use prime_detailer_backend.Base.{
  String, Bool, ◌&&◌, Option, none, some, List, [], ◌∷◌, ◌++◌, if◌then◌else◌, or_else,
}
use prime_detailer_backend.Base.Int.{ℤ, pos, max_zero, ltb_ℤ}
use prime_detailer_backend.Base.Money.{round2}
use prime_detailer_backend.Base.Text.{codes, codes_ltb, spaced}
use prime_detailer_backend.Ledger.Documents.{
  Party, Invoice, InvoicePayment, InvoiceSource, counter_sale, membership, wallet_used,
  invoice_paid_total, invoice_outstanding, party_documents_for_party, signed_opening_balance,
}
use prime_detailer_backend.Ledger.Statement.{
  Entry, PartyStatementLine, payment_ledger_timestamp, with_reference, if_in_preset, sort_entries,
  summary_line, post_entries,
}
use Prim.Native.String.{◌++◌ as join}

abbrev public_label : Option InvoiceSource → String
public_label (some counter_sale) = "Counter Sale"
public_label (some membership) = "Membership"
public_label none = "Sales Invoice"

-- The greater of two dates, as strings.
abbrev later_of : String → Option String → String
later_of at_time none = at_time
later_of at_time (some other) = if codes_ltb (codes at_time) (codes other) then other else at_time

-- `.sort().at(-1)` of the times of the payments.
unfoldable pub latest_payment_at : Invoice → List InvoicePayment → Option String
latest_payment_at inv [] = none
latest_payment_at inv (p ∷ ps) =
    some (later_of (payment_ledger_timestamp p.paid_at inv.created_at) (latest_payment_at inv ps))

module _ (time_of : String → ℤ) (in_preset : String → Bool) (format : String → String)
    (format_due : String → ℤ → String) where
  -- Credit days that are missing or not finite count as none.
  unfoldable pub public_due_label : String → ℤ → ℤ → Option ℤ → String
  public_due_label created_at outstanding credit credit_period_days =
      let date = format_due created_at (max_zero (or_else credit_period_days (pos 0))) in
      if ltb_ℤ outstanding (pos 100)
      then "Paid"
      else if ltb_ℤ (pos 100) credit
      then join date " Partially Paid"
      else join date " Unpaid"

  unfoldable pub public_invoice_entry : Option ℤ → Invoice → Entry
  unfolding public_due_label
  public_invoice_entry credit_period_days inv =
      let outstanding = invoice_outstanding inv in
      let collected = invoice_paid_total inv in
      record {
        at_time = inv.created_at;
        id = join "inv-" inv.id;
        voucher = public_label inv.source;
        serial_no = inv.invoice_number;
        payment_mode = "—";
        credit = none;
        debit = some (round2 inv.grand_total);
        invoice_due =
            if ltb_ℤ (pos 100) collected && ltb_ℤ (pos 100) outstanding
            then some outstanding
            else none;
        due_label = some (public_due_label inv.created_at outstanding collected credit_period_days);
      }

  unfoldable pub public_payment_entry : Invoice → InvoicePayment → Entry
  public_payment_entry inv p = record {
    at_time = payment_ledger_timestamp p.paid_at inv.created_at;
    id = join "pay-" p.id;
    voucher = join "Payment In · " inv.invoice_number;
    serial_no = inv.invoice_number;
    payment_mode = join (spaced p.method) (with_reference p.reference_number);
    credit = some (round2 p.amount);
    debit = none;
    invoice_due = none;
    due_label = none;
  }

  unfoldable pub public_payment_entries : Invoice → List InvoicePayment → List Entry
  unfolding public_payment_entry
  public_payment_entries inv [] = []
  public_payment_entries inv (p ∷ ps) =
      if_in_preset time_of in_preset format (public_payment_entry inv p)
      ++ public_payment_entries inv ps

  abbrev pub wallet_entry : Invoice → Entry
  wallet_entry inv = record {
    at_time = or_else (latest_payment_at inv inv.payments) inv.created_at;
    id = join "wallet-" inv.id;
    voucher = join "Payment In · " inv.invoice_number;
    serial_no = inv.invoice_number;
    payment_mode = "WALLET";
    credit = some (round2 (wallet_used inv));
    debit = none;
    invoice_due = none;
    due_label = none;
  }

  unfoldable pub wallet_entries : Invoice → List Entry
  unfolding latest_payment_at
  wallet_entries inv =
      if ltb_ℤ (pos 100) (wallet_used inv)
      then if_in_preset time_of in_preset format (wallet_entry inv)
      else []

  unfoldable pub public_entries : Option ℤ → List Invoice → List Entry
  unfolding public_invoice_entry public_payment_entries wallet_entries
  public_entries credit_period_days [] = []
  public_entries credit_period_days (inv ∷ invs) =
      if_in_preset time_of in_preset format (public_invoice_entry credit_period_days inv)
      ++ (public_payment_entries inv inv.payments
          ++ (wallet_entries inv ++ public_entries credit_period_days invs))

  abbrev pub public_closing_line : ℤ → PartyStatementLine
  public_closing_line balance =
      summary_line time_of in_preset format "closing" "Closing Balance" (some balance) balance

  unfoldable pub build_public_customer_statement : Party → List Invoice → List PartyStatementLine
  unfolding public_entries
  build_public_customer_statement party invoices =
      let opening = signed_opening_balance party in
      summary_line time_of in_preset format "opening" "Opening Balance" (some (pos 0)) opening
      ∷ post_entries time_of in_preset format public_closing_line opening (
          sort_entries time_of in_preset format (
            public_entries party.credit_period_days
              (party_documents_for_party party invoices []).0))

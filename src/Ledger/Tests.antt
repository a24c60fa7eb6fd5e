-- ===== src/Ledger/Tests.antt =====
-- The ledger, run on a customer with an invoice that was paid in part and partly by the wallet.
use prime_detailer_backend.Base.{
  String, Bool, true, ◌≡◌, refl, none, some, List, [], ◌∷◌, map, arith, All, inl, inr,
}
use prime_detailer_backend.Base.Int.{ℤ, pos, negsuc, ◌+ℤ◌, ◌-ℤ◌}
use prime_detailer_backend.Base.Money.{round2, sum}
use prime_detailer_backend.Base.Text.{is_blank, trim, spaced, last_six}
use prime_detailer_backend.Ledger.Documents.{
  Party, customer, supplier, Invoice, InvoicePayment, issued, total, wallet_used,
  invoice_paid_total, invoice_outstanding, expense_outstanding, party_documents_for_party,
  signed_opening_balance, party_current_balance, balance_flow, money_in, money_out, no_flow,
}
use prime_detailer_backend.Ledger.Statement.{
  Entry, PartyStatementLine, invoice_entry, payment_entry, payment_entries, invoice_entries,
  expense_entries, insert_entry, sort_entries, post, post_entries, build_party_statement,
}
use prime_detailer_backend.Ledger.Closing.{
  period_sales, receipts, period_receipts, InvoiceIsCents, build_party_statement-closing,
}
use prime_detailer_backend.Ledger.Net.{last_balance}
use prime_detailer_backend.Ledger.Agreement.{IsSound, build_party_statement-agrees}
use prime_detailer_backend.Ledger.Summary.{
  add_received, total_received, build_party_summary, build_party_summary-agrees,
}
use prime_detailer_backend.Ledger.Public.{
  latest_payment_at, public_due_label, public_invoice_entry, public_payment_entry,
  public_payment_entries, wallet_entries, public_entries, build_public_customer_statement,
}
use prime_detailer_backend.Ledger.PublicClosing.{
  WalletIsBooked, build_public_customer_statement-closing,
}
use Prim.Native.Char.{code}

ledger : Unit {0}
unfolding round2 sum is_blank trim spaced last_six invoice_paid_total invoice_outstanding
    expense_outstanding party_documents_for_party signed_opening_balance party_current_balance
    balance_flow invoice_entry payment_entry payment_entries invoice_entries expense_entries
    insert_entry sort_entries post post_entries build_party_statement add_received total_received
    build_party_summary latest_payment_at public_due_label public_invoice_entry public_payment_entry
    public_payment_entries wallet_entries public_entries build_public_customer_statement
    period_sales receipts period_receipts ◌+ℤ◌ ◌-ℤ◌
ledger = tt

-- The first digit of a date stands for its time.
abbrev time_of : String → ℤ
time_of String.[] = pos 0
time_of (String.◌∷◌ c s) = pos (code c)

abbrev always : String → Bool
always at_time = true

abbrev as_is : String → String
as_is at_time = at_time

abbrev asha : Party
asha = record {
  kind = customer;
  opening_balance = some (pos 1000000);
  opening_balance_side = none;
  credit_period_days = some (pos 7);
  customer_id = some "c1";
  vendor_key = none;
}

abbrev part_payment : InvoicePayment
part_payment = record {
  id = "p1";
  amount = pos 3000000;
  method = "BANK_TRANSFER";
  reference_number = some "77";
  paid_at = some "2";
}

-- 1,000 rupees, of which 300 are paid and 200 are taken from the wallet.
abbrev bill : Invoice
bill = record {
  id = "i1";
  invoice_number = "INV-1";
  customer_id = "c1";
  wallet_amount_used = some (pos 2000000);
  grand_total = pos 10000000;
  invoice_status = issued;
  payments = part_payment ∷ [];
  created_at = "1";
  source = none;
}

abbrev small_bill : Invoice
small_bill = record bill {
  id = "i2";
  wallet_amount_used = none;
  grand_total = pos 500000;
  payments = [];
  created_at = "0";
}

abbrev bills : List Invoice
bills = bill ∷ small_bill ∷ []

abbrev statement : List PartyStatementLine
statement = build_party_statement time_of always as_is asha bills []

abbrev balances : List PartyStatementLine → List ℤ
balances lines = map (λ (line : PartyStatementLine). line.balance) lines

-- The later invoice stands first, since its time is earlier.
balances_run :
    balances statement ≡ pos 1000000 ∷ pos 1500000 ∷ pos 11500000 ∷ pos 8500000 ∷ pos 8500000 ∷ []
unfolding ledger
balances_run = refl

current : party_current_balance asha bills [] ≡ pos 6500000
unfolding ledger
current = refl

flows :
    (balance_flow customer (pos 99) ≡ no_flow)
    × (balance_flow customer (negsuc 99) ≡ money_out)
    × (balance_flow supplier (negsuc 99) ≡ money_in)
unfolding ledger
flows = (refl, refl, refl)

mode : (payment_entry time_of always as_is bill part_payment).payment_mode ≡ "BANK TRANSFER (77)"
unfolding ledger
mode = refl

asha-IsCents : round2 (signed_opening_balance asha) ≡ signed_opening_balance asha
unfolding ledger
asha-IsCents = refl

bills-InvoiceIsCents : All InvoiceIsCents (party_documents_for_party asha bills []).0
unfolding ledger
bills-InvoiceIsCents = ((refl, (refl, tt)), ((refl, tt), tt))

bills-IsSound : All IsSound (party_documents_for_party asha bills []).0
unfolding ledger
bills-IsSound = (((refl, (refl, tt)), refl, omega arith), (((refl, tt), refl, omega arith), tt))

build_party_statement-closing_example :
    last_balance (pos 0) statement ≡ pos 1000000 +ℤ (pos 10500000 -ℤ pos 3000000)
unfolding ledger
build_party_statement-closing_example =
    build_party_statement-closing time_of always as_is asha bills [] refl asha-IsCents
      bills-InvoiceIsCents

build_party_statement-agrees_example :
    last_balance (pos 0) statement
    ≡ party_current_balance asha bills []
      +ℤ total wallet_used (party_documents_for_party asha bills []).0
build_party_statement-agrees_example =
    build_party_statement-agrees time_of always as_is asha bills [] (λ at_time. refl) refl
      asha-IsCents bills-IsSound

-- The statement that the customer is sent books the 200 rupees of the wallet too.
abbrev due_date : String → ℤ → String
due_date at_time days = at_time

abbrev sent : List PartyStatementLine
sent = build_public_customer_statement time_of always as_is due_date asha bills

sent_run :
    balances sent
    ≡ pos 1000000 ∷ pos 1500000 ∷ pos 11500000 ∷ pos 8500000 ∷ pos 6500000 ∷ pos 6500000 ∷ []
unfolding ledger
sent_run = refl

bills-WalletIsBooked : All WalletIsBooked (party_documents_for_party asha bills []).0
unfolding ledger
bills-WalletIsBooked = (inl refl, (inr refl, tt))

build_public_customer_statement-closing_example :
    last_balance (pos 0) sent ≡ party_current_balance asha bills []
build_public_customer_statement-closing_example =
    build_public_customer_statement-closing time_of always as_is due_date (λ at_time. refl) asha
      bills refl asha-IsCents bills-IsSound bills-WalletIsBooked

summary_run : build_party_summary always asha bills [] ≡ record {
  total_receivable_or_payable = pos 6500000;
  overdue_amount = pos 5500000;
  total_sales_or_purchases = pos 10500000;
  total_received_or_paid = pos 3000000;
}
unfolding ledger
summary_run = refl

build_party_summary-agrees_example :
    last_balance (pos 0) statement
    ≡ signed_opening_balance asha
      +ℤ ((build_party_summary always asha bills []).total_sales_or_purchases
          -ℤ (build_party_summary always asha bills []).total_received_or_paid)
build_party_summary-agrees_example =
    build_party_summary-agrees always time_of as_is asha bills [] refl asha-IsCents
      bills-InvoiceIsCents

abbrev entries : List Entry
entries = invoice_entries time_of always as_is bills

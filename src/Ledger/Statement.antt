-- ===== src/Ledger/Statement.antt =====
-- The statement of a party, buildPartyStatement of src/lib/party-ledger.ts. The time of a date, the
-- period of the report and the format of a date are parameters.
use prime_detailer_backend.Base.{
  String, Bool, true, false, ◌||◌, Option, none, some, List, [], ◌∷◌, ◌++◌, if◌then◌else◌, or_else,
}
use prime_detailer_backend.Base.Int.{ℤ, pos, ◌+ℤ◌, ◌-ℤ◌, ltb_ℤ, leb_ℤ}
use prime_detailer_backend.Base.Money.{round2}
use prime_detailer_backend.Base.Text.{str_eq, is_blank, trim, spaced, last_six}
use prime_detailer_backend.Ledger.Documents.{
  Party, PartyKind, customer, supplier, Invoice, InvoicePayment, InvoiceSource, counter_sale,
  membership, Expense, is_paid, invoice_outstanding, party_documents_for_party,
  signed_opening_balance,
}
use Prim.Native.String.{◌++◌ as join}

pub record PartyStatementLine : Type 0 where
  pub id : String
  pub date : String
  pub voucher : String
  pub serial_no : String
  pub payment_mode : String
  pub credit : Option ℤ
  pub debit : Option ℤ
  pub balance : ℤ
  pub invoice_due : Option ℤ
  pub due_label : Option String
  pub is_summary : Bool

-- A line that has no balance yet, at its time.
pub record Entry : Type 0 where
  pub at_time : String
  pub id : String
  pub voucher : String
  pub serial_no : String
  pub payment_mode : String
  pub credit : Option ℤ
  pub debit : Option ℤ
  pub invoice_due : Option ℤ
  pub due_label : Option String

abbrev pub invoice_source_ledger_label : Option InvoiceSource → String
invoice_source_ledger_label (some counter_sale) = "Counter Sale"
invoice_source_ledger_label (some membership) = "Membership"
invoice_source_ledger_label none = "Sales Invoices"

-- A payment without a time of its own is booked at the time of its invoice.
abbrev pub payment_ledger_timestamp : Option String → String → String
payment_ledger_timestamp none fallback = fallback
payment_ledger_timestamp (some paid_at) fallback =
    if is_blank paid_at then fallback else trim paid_at

abbrev pub with_reference : Option String → String
with_reference none = ""
with_reference (some number) = if str_eq number "" then "" else join " (" (join number ")")

module _ (time_of : String → ℤ) (in_preset : String → Bool) (format : String → String) where
  -- `if (dateInPreset(at, period)) entries.push(entry)`
  abbrev pub if_in_preset : Entry → List Entry
  if_in_preset entry = if in_preset entry.at_time then entry ∷ [] else []

  unfoldable pub invoice_entry : Invoice → Entry
  invoice_entry inv = record {
    at_time = inv.created_at;
    id = join "inv-" inv.id;
    voucher = invoice_source_ledger_label inv.source;
    serial_no = inv.invoice_number;
    payment_mode = "—";
    credit = none;
    debit = some inv.grand_total;
    invoice_due = none;
    due_label =
        if ltb_ℤ (pos 100) (invoice_outstanding inv)
        then some (join (format inv.created_at) " (unpaid)")
        else none;
  }

  unfoldable pub payment_entry : Invoice → InvoicePayment → Entry
  payment_entry inv p = record {
    at_time = payment_ledger_timestamp p.paid_at inv.created_at;
    id = join "pay-" p.id;
    voucher = join "Payment In · " inv.invoice_number;
    serial_no = inv.invoice_number;
    payment_mode = join (spaced p.method) (with_reference p.reference_number);
    credit = some p.amount;
    debit = none;
    invoice_due = none;
    due_label = none;
  }

  unfoldable pub payment_entries : Invoice → List InvoicePayment → List Entry
  unfolding payment_entry
  payment_entries inv [] = []
  payment_entries inv (p ∷ ps) = if_in_preset (payment_entry inv p) ++ payment_entries inv ps

  unfoldable pub invoice_entries : List Invoice → List Entry
  unfolding invoice_entry payment_entries
  invoice_entries [] = []
  invoice_entries (inv ∷ invs) =
      if_in_preset (invoice_entry inv) ++ (payment_entries inv inv.payments ++ invoice_entries invs)

  abbrev paid_amount : Expense → ℤ
  paid_amount e = if is_paid e.payment_status then e.amount else or_else e.amount_paid (pos 0)

  abbrev expense_entry : Expense → Entry
  expense_entry e = record {
    at_time = e.date;
    id = join "exp-" e.id;
    voucher = "Purchase / expense";
    serial_no = last_six e.id;
    payment_mode = spaced e.payment_method;
    credit = none;
    debit = some e.amount;
    invoice_due = none;
    due_label = none;
  }

  abbrev expense_payment : Expense → List Entry
  expense_payment e =
      if is_paid e.payment_status || ltb_ℤ (pos 0) (or_else e.amount_paid (pos 0))
      then record {
        at_time = e.date;
        id = join "exp-pay-" e.id;
        voucher = "Payment Out";
        serial_no = last_six e.id;
        payment_mode = spaced e.payment_method;
        credit = some (paid_amount e);
        debit = none;
        invoice_due = none;
        due_label = none;
      }
        ∷ []
      else []

  unfoldable pub expense_entries : List Expense → List Entry
  expense_entries [] = []
  expense_entries (e ∷ es) =
      (if in_preset e.date then expense_entry e ∷ expense_payment e else []) ++ expense_entries es

  -- `entries.sort((a, b) => time(a) - time(b))`, which keeps the order of entries at one time.
  unfoldable pub insert_entry : Entry → List Entry → List Entry
  insert_entry x [] = x ∷ []
  insert_entry x (y ∷ ys) =
      if leb_ℤ (time_of x.at_time) (time_of y.at_time) then x ∷ y ∷ ys else y ∷ insert_entry x ys

  unfoldable pub sort_entries : List Entry → List Entry
  unfolding insert_entry
  sort_entries [] = []
  sort_entries (x ∷ xs) = insert_entry x (sort_entries xs)

  unfoldable pub post : Entry → ℤ → ℤ
  post entry balance =
      round2 ((balance +ℤ or_else entry.debit (pos 0)) -ℤ or_else entry.credit (pos 0))

  abbrev line_of : Entry → ℤ → PartyStatementLine
  line_of entry balance = record {
    id = entry.id;
    date = format entry.at_time;
    voucher = entry.voucher;
    serial_no = entry.serial_no;
    payment_mode = entry.payment_mode;
    credit = entry.credit;
    debit = entry.debit;
    balance = balance;
    invoice_due = entry.invoice_due;
    due_label = entry.due_label;
    is_summary = false;
  }

  abbrev pub summary_line : String → String → Option ℤ → ℤ → PartyStatementLine
  summary_line id voucher debit balance = record {
    id = id;
    date = "—";
    voucher = voucher;
    serial_no = "—";
    payment_mode = "—";
    credit = none;
    debit = debit;
    balance = balance;
    invoice_due = none;
    due_label = none;
    is_summary = true;
  }

  abbrev pub closing_line : ℤ → PartyStatementLine
  closing_line balance = summary_line "closing" "Closing Balance" none balance

  -- The lines of the entries from a balance on, with the closing line.
  unfoldable pub post_entries : (ℤ → PartyStatementLine) → ℤ → List Entry → List PartyStatementLine
  unfolding post
  post_entries closing balance [] = closing balance ∷ []
  post_entries closing balance (entry ∷ entries) =
      let next = post entry balance in line_of entry next ∷ post_entries closing next entries

  abbrev pub entries_of : PartyKind → List Invoice × List Expense → List Entry
  entries_of customer (invoices, expenses) = invoice_entries invoices
  entries_of supplier (invoices, expenses) = expense_entries expenses

  unfoldable pub build_party_statement :
      Party → List Invoice → List Expense → List PartyStatementLine
  unfolding sort_entries post_entries invoice_entries expense_entries
  build_party_statement party invoices expenses =
      let opening = signed_opening_balance party in
      summary_line "opening" "Opening Balance" none opening
      ∷ post_entries closing_line opening
          (sort_entries (entries_of party.kind (party_documents_for_party party invoices expenses)))

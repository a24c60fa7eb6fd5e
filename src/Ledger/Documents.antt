-- ===== src/Ledger/Documents.antt =====
-- Parties and their documents, src/types/party.ts and src/types/finance-documents.ts with the fields
-- that the ledger reads, and the balances of src/lib/party-ledger.ts.
use prime_detailer_backend.Base.{
  String, Bool, true, false, Option, none, some, List, [], map, if◌then◌else◌, or_else, filter,
}
use prime_detailer_backend.Base.Int.{ℤ, pos, ◌+ℤ◌, ◌-ℤ◌, max_zero, abs, ltb_ℤ}
use prime_detailer_backend.Base.Money.{round2, sum}
use prime_detailer_backend.Base.Text.{str_eq, trim}

pub data PartyKind : Type 0 where
  customer : PartyKind
  supplier : PartyKind

pub data OpeningBalanceSide : Type 0 where
  to_collect : OpeningBalanceSide
  to_pay : OpeningBalanceSide

pub record Party : Type 0 where
  pub kind : PartyKind
  pub opening_balance : Option ℤ
  pub opening_balance_side : Option OpeningBalanceSide
  pub credit_period_days : Option ℤ
  pub customer_id : Option String
  pub vendor_key : Option String

pub data InvoiceStatus : Type 0 where
  draft : InvoiceStatus
  issued : InvoiceStatus
  partially_paid : InvoiceStatus
  fully_paid : InvoiceStatus

pub data InvoiceSource : Type 0 where
  counter_sale : InvoiceSource
  membership : InvoiceSource

pub record InvoicePayment : Type 0 where
  pub id : String
  pub amount : ℤ
  pub method : String
  pub reference_number : Option String
  pub paid_at : Option String

pub record Invoice : Type 0 where
  pub id : String
  pub invoice_number : String
  pub customer_id : String
  pub wallet_amount_used : Option ℤ
  pub grand_total : ℤ
  pub invoice_status : InvoiceStatus
  pub payments : List InvoicePayment
  pub created_at : String
  pub source : Option InvoiceSource

pub data ExpensePaymentStatus : Type 0 where
  paid : ExpensePaymentStatus
  pending : ExpensePaymentStatus
  partial : ExpensePaymentStatus
  overdue : ExpensePaymentStatus

pub record Expense : Type 0 where
  pub id : String
  pub title : String
  pub category : String
  pub amount : ℤ
  pub amount_paid : Option ℤ
  pub date : String
  pub vendor_name : Option String
  pub payment_status : ExpensePaymentStatus
  pub payment_method : String

-- `a.reduce((s, x) => s + f(x), 0)`
abbrev pub total {ℓ} : {A : Type ℓ} → (A → ℤ) → List A → ℤ
total f xs = sum (map f xs)

abbrev pub wallet_used : Invoice → ℤ
wallet_used inv = or_else inv.wallet_amount_used (pos 0)

unfoldable pub invoice_paid_total : Invoice → ℤ
invoice_paid_total inv = total (λ (p : InvoicePayment). p.amount) inv.payments +ℤ wallet_used inv

unfoldable pub invoice_outstanding : Invoice → ℤ
unfolding invoice_paid_total
invoice_outstanding inv = max_zero (round2 (inv.grand_total -ℤ invoice_paid_total inv))

abbrev pub is_paid : ExpensePaymentStatus → Bool
is_paid paid = true
is_paid s = false

unfoldable pub expense_outstanding : Expense → ℤ
expense_outstanding e =
    if is_paid e.payment_status
    then pos 0
    else max_zero (round2 (e.amount -ℤ or_else e.amount_paid (pos 0)))

-- `e.vendorName?.trim() === key`
abbrev is_vendor : String → Option String → Bool
is_vendor key none = false
is_vendor key (some name) = str_eq (trim name) key

-- An empty id or key counts as none.
abbrev invoices_of : PartyKind → Option String → List Invoice → List Invoice
invoices_of customer (some id) invoices =
    if str_eq id "" then [] else filter (λ (i : Invoice). str_eq i.customer_id id) invoices
invoices_of kind id invoices = []

abbrev expenses_of : PartyKind → Option String → List Expense → List Expense
expenses_of supplier (some key) expenses =
    if str_eq (trim key) ""
    then []
    else filter (λ (e : Expense). is_vendor (trim key) e.vendor_name) expenses
expenses_of kind key expenses = []

unfoldable pub party_documents_for_party :
    Party → List Invoice → List Expense → List Invoice × List Expense
party_documents_for_party party invoices expenses = (
  invoices_of party.kind party.customer_id invoices,
  expenses_of party.kind party.vendor_key expenses,
)

abbrev pub default_side : PartyKind → OpeningBalanceSide
default_side customer = to_collect
default_side supplier = to_pay

abbrev pub signed_for : PartyKind → OpeningBalanceSide → ℤ → ℤ
signed_for customer to_collect amount = amount
signed_for customer to_pay amount = pos 0 -ℤ amount
signed_for supplier to_pay amount = amount
signed_for supplier to_collect amount = pos 0 -ℤ amount

unfoldable pub signed_opening_balance : Party → ℤ
signed_opening_balance party =
    signed_for party.kind (or_else party.opening_balance_side (default_side party.kind))
      (max_zero (or_else party.opening_balance (pos 0)))

abbrev pub documents_balance : PartyKind → List Invoice × List Expense → ℤ
documents_balance customer (invoices, expenses) = total invoice_outstanding invoices
documents_balance supplier (invoices, expenses) = total expense_outstanding expenses

unfoldable pub party_current_balance : Party → List Invoice → List Expense → ℤ
unfolding party_documents_for_party signed_opening_balance
party_current_balance party invoices expenses = round2 (
    signed_opening_balance party
    +ℤ documents_balance party.kind (party_documents_for_party party invoices expenses))

pub data Flow : Type 0 where
  money_in : Flow
  money_out : Flow
  no_flow : Flow

abbrev flow_of : PartyKind → Bool → Flow
flow_of customer positive = if positive then money_in else money_out
flow_of supplier positive = if positive then money_out else money_in

unfoldable pub balance_flow : PartyKind → ℤ → Flow
balance_flow kind balance =
    if ltb_ℤ (abs balance) (pos 100) then no_flow else flow_of kind (ltb_ℤ (pos 0) balance)

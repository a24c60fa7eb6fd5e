-- ===== src/Wallet/Records.antt =====
-- What src/modules/invoices/wallet-sync.service.ts reads and writes.
use prime_detailer_backend.Base.{
  String, Bool, false, not, ◌&&◌, Option, none, some, List, [], or_else,
}
use prime_detailer_backend.Base.Int.{ℤ, pos, ltb_ℤ}
use prime_detailer_backend.Base.Text.{str_eq}

pub record Payment : Type 0 where
  pub id : String
  pub wallet_transaction_id : Option String
  pub add_extra_to_wallet : Bool
  pub extra_amount : Option ℤ

pub record Invoice : Type 0 where
  pub customer_id : Option String
  pub invoice_number : Option String
  pub wallet_amount_used : Option ℤ
  pub payments : Option (List Payment)

pub record InvoiceRow : Type 0 where
  pub organization_id : String
  pub payload : Invoice

pub record Customer : Type 0 where
  pub name : String
  pub wallet_balance : ℤ

pub data Direction : Type 0 where
  debit credit : Direction

pub data Source : Type 0 where
  invoice_payment refund : Source

pub record WalletTx : Type 0 where
  pub id : String
  pub customer_id : String
  pub customer_name : String
  pub direction : Direction
  pub amount : ℤ
  pub source : Source
  pub reference_id : String
  pub description : String
  pub balance_after : ℤ
  pub created_at : String

pub data SyncError : Type 0 where
  other_organization : SyncError
  insufficient_balance : (required available : ℤ) → SyncError
  reversal_makes_negative : (extra : ℤ) → SyncError

pub data Result {ℓ} (A : Type ℓ) : Type ℓ where
  ok : A → Result A
  err : SyncError → Result A

infixl 5 ◌>>=◌
abbrev pub ◌>>=◌ {ℓ κ} : {A : Type ℓ} {B : Type κ} → Result A → (A → Result B) → Result B
ok a >>= f = f a
err e >>= f = err e

-- The balance so far, and the records created so far.
pub record Wallet : Type 0 where
  pub balance : ℤ
  pub records : List WalletTx

-- A string that counts as present.
abbrev pub is_set : Option String → Bool
is_set none = false
is_set (some s) = not (str_eq s "")

-- `value > 0` of a number that may be missing.
abbrev pub is_positive : Option ℤ → Bool
is_positive none = false
is_positive (some x) = ltb_ℤ (pos 0) x

abbrev pub carries_extra : Payment → Bool
carries_extra p = p.add_extra_to_wallet && is_positive p.extra_amount

-- `invoice ? (invoice.walletAmountUsed || 0) : 0`
abbrev pub used_of : Option Invoice → ℤ
used_of none = pos 0
used_of (some inv) = or_else inv.wallet_amount_used (pos 0)

-- `invoice?.payments || []`
abbrev pub payments_of : Option Invoice → List Payment
payments_of none = []
payments_of (some inv) = or_else inv.payments []

abbrev pub with_payments : List Payment → Result Wallet → Result (List Payment × Wallet)
with_payments ps (ok w) = ok (ps, w)
with_payments ps (err e) = err e

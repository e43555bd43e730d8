-- ===== src/Sales/Errors.antt =====
-- How the operations of packages/sales/src fail: with a SalesError, whose message says what is wrong,
-- or with an error of the ledger or of the check of tags.
use pnw.Data.Result.{Result, ok, err}
use pnw.Ledger.Errors.{Ledger, LedgerErrorCode}

-- One for each message, without what it quotes.
pub data Refusal : Type 0 where
  bad_quantity bad_rate rate_above_100 bad_tax_rate : Refusal
  party_needs_name already_on_list bad_email : Refusal
  no_customer no_vendor customer_inactive vendor_inactive : Refusal
  choose_account account_inactive choose_income_account negative_rate zero_quantity : Refusal
  no_lines due_before_date : Refusal
  no_invoice not_a_draft already_sent empty_total already_void payments_applied : Refusal
  choose_deposit_account choose_bank_account : Refusal
  negative_application above_balance other_customer invoice_not_sent : Refusal
  no_amount applied_above_received no_payment payment_already_void : Refusal
  no_bill bill_entered_twice choose_bill_account no_bill_amount : Refusal
  bad_attachment_id bad_fingerprint bad_attachment_type empty_file file_too_large : Refusal
  already_attached not_attached other_vendor bill_is_void no_bills_chosen : Refusal
  no_estimate estimate_settled bad_mark estimate_converted estimate_declined estimate_already :
      Refusal
  expiry_before_date end_before_start : Refusal

pub data SalesError : Type 0 where
  refused : Refusal → SalesError
  in_ledger : LedgerErrorCode → SalesError
  bad_tag : SalesError

abbrev pub Fallible {ℓ} : Type ℓ → Type ℓ
Fallible A = Result SalesError A

-- A call of the ledger: what it throws goes through.
abbrev pub from_ledger {ℓ} : {A : Type ℓ} → Ledger A → Fallible A
from_ledger (ok a) = ok a
from_ledger (err code) = err (in_ledger code)

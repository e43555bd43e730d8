-- ===== src/Ledger/Errors.antt =====
-- packages/ledger/src/errors.ts: the stable codes, and calls that fail with one.
use pnw.Data.Result.{Result}

pub data LedgerErrorCode : Type 0 where
  bad_amount bad_date bad_period empty_entry bad_line unbalanced : LedgerErrorCode
  unknown_account inactive_account name_required period_closed period_locked : LedgerErrorCode
  unknown_entry already_reversed duplicate_account bad_parent system_account : LedgerErrorCode
  account_in_use bad_close bad_doc : LedgerErrorCode
  -- No code of the source: the outcome of a walk to the parent accounts that never ends.
  endless_walk : LedgerErrorCode
  -- Nor this one: an exception of JavaScript itself, for a value that is missing or no date.
  script_error : LedgerErrorCode

abbrev pub Ledger {ℓ} : Type ℓ → Type ℓ
Ledger A = Result LedgerErrorCode A

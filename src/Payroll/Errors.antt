-- ===== src/Payroll/Errors.antt =====
-- packages/payroll/src/errors.ts: how the operations of payroll fail, with a PayrollError, whose message
-- says what is wrong, or with an error of the ledger or of the check of tags.
use pnw.Data.Result.{Result, ok, err}
use pnw.Ledger.Errors.{Ledger, LedgerErrorCode}

-- One for each message, without what it quotes.
pub data Reason : Type 0 where
  worker_needs_name bad_pay_rate negative_w4 no_worker worker_was_paid worker_inactive
        listed_twice :
      Reason
  no_run no_hours negative_gross withheld_above_gross nobody_to_pay : Reason
  period_ends_first not_a_bank reference_on_rail not_in_run : Reason
  bad_height negative_fee bad_move : Reason
  not_settled bad_slot bad_lookup bad_sent_at earlier_slot bad_received_at no_tax_amount : Reason

pub data PayrollError : Type 0 where
  refused_by_payroll : Reason → PayrollError
  by_ledger : LedgerErrorCode → PayrollError
  by_tag : PayrollError

abbrev pub Checked {ℓ} : Type ℓ → Type ℓ
Checked A = Result PayrollError A

-- A call of the ledger: what it throws goes through.
abbrev pub of_ledger {ℓ} : {A : Type ℓ} → Ledger A → Checked A
of_ledger (ok a) = ok a
of_ledger (err code) = err (by_ledger code)

-- ===== src/Payroll/Liabilities.antt =====
-- packages/payroll/src/payroll.ts: the taxes owed by quarter, and their payment.
use pnw.Base.{◌+◌, ◌/◌, not, Option, none, some, List, [], ◌∷◌, ◌++◌, map, foldl, or_else}
use pnw.Data.Int.{ℤ, pos, ◌+ℤ◌, ltb_ℤ, leb_ℤ}
use pnw.Data.Result.{◌>>=◌, ◌>>◌, fail_if, or_fail}
use pnw.Data.Sort.{sort}
use pnw.Data.Text.{Text, codes}
use pnw.Data.Decimal.{show}
use pnw.Data.Dict.{Dict, lookup, insert}
use pnw.Ledger.Money.{Cents}
use pnw.Ledger.Periods.{IsoDate, match_date}
use pnw.Ledger.Accounts.{AccountType, SystemRole, same_type}
use pnw.Ledger.Books.State.{Books, Entry, SourceKind, Hashes, account_map}
use pnw.Ledger.Books.Chart.{find_system_account}
use pnw.Ledger.Books.Journal.{post_entry}
use pnw.Sales.Posting.{debit_line, credit_line}
use pnw.Payroll.Errors.{Checked, refused_by_payroll, of_ledger, not_a_bank, no_tax_amount}
use pnw.Payroll.State.{Paycheck, PayRun, Payroll}
use pnw.Payroll.Paychecks.{withheld_from, employer_taxes}

pub record QuarterLiability : Type 0 where
  pub quarter : Text
  pub federal_income_tax : Cents
  pub employee_fica : Cents
  pub employer_fica : Cents
  pub total : Cents

-- `${y}-Q${Math.ceil(m / 3)}`; the pay dates of runs were checked when they posted.
abbrev pub quarter_of : IsoDate → Text
quarter_of date = elim (match_date date) [
  | none ↦ codes "NaN-QNaN"
  | some (y, m, _) ↦ show y ++ codes "-Q" ++ show ((m + 2) / 3)
]

abbrev pub no_liability : Text → QuarterLiability
no_liability quarter = record {
  quarter = quarter;
  federal_income_tax = pos 0;
  employee_fica = pos 0;
  employer_fica = pos 0;
  total = pos 0;
}

unfoldable pub add_liability : QuarterLiability → Paycheck → QuarterLiability
add_liability q p = record {
  quarter = q.quarter;
  federal_income_tax = q.federal_income_tax +ℤ p.federal_income_tax;
  employee_fica = q.employee_fica +ℤ (p.social_security +ℤ p.medicare +ℤ p.additional_medicare);
  employer_fica = q.employer_fica +ℤ employer_taxes p.draft;
  total = q.total +ℤ (withheld_from p.draft +ℤ employer_taxes p.draft);
}

abbrev pub add_run_liability : Dict QuarterLiability → PayRun → Dict QuarterLiability
add_run_liability by_quarter run =
    let quarter = quarter_of run.pay_date in
    let q = or_else (lookup quarter by_quarter) (no_liability quarter) in
    insert quarter (foldl add_liability q run.paychecks) by_quarter

unfoldable pub quarters : List PayRun → Dict QuarterLiability
quarters = foldl add_run_liability []

-- `locale_compare` is `String.prototype.localeCompare`: the latest quarter first.
module _ (locale_compare : Text → Text → ℤ) where
  unfoldable pub liabilities_by_quarter : Payroll → List QuarterLiability
  unfolding quarters
  liabilities_by_quarter payroll =
      sort (λ a b. ltb_ℤ (pos 0) (locale_compare b.quarter a.quarter))
        (map (λ (_, q). q) (quarters payroll.runs))

pub record WithholdingPayment : Type 0 where
  pub date : IsoDate
  pub amount : Cents
  pub bank_account_id : Text
  pub memo : Option Text

module _ (h : Hashes) where
  unfoldable pub record_tax_payment : Books → WithholdingPayment → Text → Checked (Books × Entry)
  record_tax_payment books input now = do
    fail_if (leb_ℤ input.amount (pos 0)) (refused_by_payroll no_tax_amount)
    bank ←
        or_fail (lookup input.bank_account_id (account_map books)) (refused_by_payroll not_a_bank)
    fail_if (not (same_type bank.type AccountType.bank)) (refused_by_payroll not_a_bank)
    liabilities ← of_ledger (find_system_account books SystemRole.payroll_liabilities)
    of_ledger (
        post_entry h books
          (record {
            date = input.date;
            memo = some (or_else input.memo (codes "Payroll tax payment"));
            source = some (record { kind = SourceKind.tax_payment; ref = none; doc = none });
            lines =
                debit_line liabilities.id input.amount none none none
                ∷ credit_line input.bank_account_id input.amount none none none
                ∷ [];
          })
          now)

-- ===== src/Payroll/Tests.antt =====
-- The theorems about packages/payroll/src at a small business.
use pnw.Base.{◌≡◌, ◌≢◌, refl, true, none, some, Option, List, [], ◌∷◌, arith}
use pnw.Data.Int.{pos, ◌+ℤ◌, ◌≤ℤ◌, ◌*ℤ◌}
use pnw.Data.Result.{ok, err, ◌>>=◌}
use pnw.Data.Text.{Text, codes}
use pnw.Data.Json.{quote}
use pnw.Ledger.Tags.{clean_tags}
use pnw.Ledger.Accounts.{Account, AccountType, SystemRole}
use pnw.Ledger.Books.State.{Books, Entry, Hashes, genesis_hash}
use pnw.Ledger.Books.Chart.{find_system_account}
use pnw.Ledger.Books.Journal.Unbalanced.{asked_debits, asked_credits}
use pnw.Ledger.Tests.Samples.{program, no_books, lower, now}
use pnw.Payroll.Errors.{Checked}
use pnw.Payroll.State.{
  FilingStatus, weekly, hourly, Worker, external, rail, Settlement, hundredths, PaycheckDraft,
  PayRun, PayrollAccounts, Payroll, PayLine, PayRunInput,
}
use pnw.Payroll.Team.{find_worker}
use pnw.Payroll.Paychecks.{
  nothing_yet, pct, cap_ss, ss_wages, withheld_from, employer_taxes, year_to_date, gross_for,
  TaxQuestion, TaxAnswer, compute_paycheck, ss_annual_max,
}
use pnw.Payroll.Paychecks.Bounds.{IsPaycheck, IsBelowMax, compute_paycheck-IsBelowMax}
use pnw.Payroll.Paystub.{paystub_document, hash_paystub, canonical_paystub}
use pnw.Payroll.Accounts.{ensure, ensure_payroll_accounts}
use pnw.Payroll.Runs.{
  paycheck_lines, settlement_of, preview_line, preview_pay_run, with_paystub, post_paychecks,
  post_pay_run,
}
use pnw.Payroll.Runs.Balanced.{preview_line-balanced}
use pnw.Payroll.Runs.Parity.{outside, on_rail, as_rail, post_pay_run-parity}
use pnw.Payroll.Settlement.{find_run, find_paycheck, is_allowed, mark_paycheck_settlement}
use pnw.Payroll.Settlement.Final.{settled-IsFinal}

abbrev hashes : Hashes
hashes = record { blake3_hex = λ _. genesis_hash; utf8_to_bytes = λ t. t }

-- A tax engine that always withholds the same.
abbrev same_tax : TaxQuestion → TaxAnswer
same_tax q = record {
  federal_income_tax = pos 8000;
  social_security_tax = pos 6200;
  medicare_tax = pos 1450;
  additional_medicare_tax = pos 0;
}

abbrev account : Text → Text → AccountType → Option SystemRole → Account
account id name type system = record {
  id = id;
  name = name;
  number = none;
  type = type;
  parent_id = none;
  description = none;
  active = true;
  system = system;
}

abbrev office : Books
office = record no_books {
  accounts =
      account (codes "w") (codes "Wages") AccountType.expense none
      ∷ account (codes "e") (codes "Employer Payroll Taxes") AccountType.expense none
      ∷ account (codes "l") (codes "Payroll Liabilities") AccountType.other_current_liability
          (some SystemRole.payroll_liabilities)
      ∷ account (codes "b") (codes "Checking") AccountType.bank none
      ∷ [];
}

abbrev ann : Worker
ann = record {
  id = codes "wkr-1";
  name = codes "Ann";
  active = true;
  pay_type = hourly;
  rate = pos 2500;
  frequency = weekly;
  w4 = record {
    filing_status = FilingStatus.single;
    dependent_credit = pos 0;
    other_income = pos 0;
    extra_deductions = pos 0;
    extra_withholding = pos 0;
  };
}

abbrev team : Payroll
team = record { workers = ann ∷ []; runs = []; next_worker = 2 }

abbrev forty_hours : PayLine
forty_hours = record {
  worker_id = codes "wkr-1";
  hours = some (hundredths (pos 4000));
  tags = none;
}

abbrev anns_pay : PaycheckDraft
anns_pay = record {
  worker_id = codes "wkr-1";
  hours = some (hundredths (pos 4000));
  gross = pos 100_000;
  federal_income_tax = pos 8000;
  social_security = pos 6200;
  medicare = pos 1450;
  additional_medicare = pos 0;
  employer_social_security = pos 6200;
  employer_medicare = pos 1450;
  net = pos 84_350;
  tags = none;
}

unfoldable payroll_program : Unit {0}
unfolding program find_worker pct cap_ss ss_wages withheld_from employer_taxes year_to_date
    gross_for compute_paycheck paystub_document hash_paystub canonical_paystub quote ensure
    ensure_payroll_accounts find_system_account clean_tags paycheck_lines preview_line
    preview_pay_run with_paystub post_paychecks post_pay_run ◌*ℤ◌ find_run find_paycheck is_allowed
    mark_paycheck_settlement
payroll_program = tt

previewed : preview_line same_tax team (codes "2026-10-16") [] forty_hours ≡ ok anns_pay
unfolding payroll_program
previewed = refl

withheld_is : withheld_from anns_pay ≡ pos 15_650
unfolding payroll_program
withheld_is = refl

computed :
    compute_paycheck same_tax ann (pos 100_000) nothing_yet (some (hundredths (pos 4000)))
    ≡ ok anns_pay
unfolding payroll_program
computed = refl

nothing_paid : pos 0 ≤ℤ ss_annual_max
unfolding payroll_program
nothing_paid = omega arith

compute_paycheck-IsBelowMax_example :
    IsPaycheck (pos 100_000) anns_pay × IsBelowMax nothing_yet anns_pay
compute_paycheck-IsBelowMax_example =
    compute_paycheck-IsBelowMax same_tax ann (pos 100_000) nothing_yet
      (some (hundredths (pos 4000))) anns_pay nothing_paid nothing_paid computed

abbrev office_accounts : PayrollAccounts
office_accounts = record {
  wages_id = codes "w";
  employer_taxes_id = codes "e";
  liabilities_id = codes "l";
}

preview_line-balanced_example :
    (asked_debits (paycheck_lines office_accounts (codes "b") anns_pay)
      ≡ pos 100_000 +ℤ employer_taxes anns_pay)
    × (asked_credits (paycheck_lines office_accounts (codes "b") anns_pay)
        ≡ pos 100_000 +ℤ employer_taxes anns_pay)
preview_line-balanced_example =
    preview_line-balanced same_tax team (codes "2026-10-16") [] forty_hours anns_pay office_accounts
      (codes "b") previewed (rw withheld_is (omega arith))

abbrev week : PayRunInput
week = record {
  pay_date = codes "2026-10-16";
  period_start = codes "2026-10-05";
  period_end = codes "2026-10-11";
  bank_account_id = codes "b";
  mode = none;
  reference = none;
  lines = forty_hours ∷ [];
}

-- The same run, paid by a batch of the bank.
abbrev batch : PayRunInput
batch = record week { reference = some (codes "ACH batch 4471") }

abbrev no_run : PayRun
no_run = record {
  id = [];
  pay_date = [];
  period_start = [];
  period_end = [];
  bank_account_id = [];
  mode = external;
  paychecks = [];
  entry_ids = [];
}

abbrev or_posted :
    Checked (Books × Payroll × PayRun × List Entry) → Books × Payroll × PayRun × List Entry
or_posted (ok r) = r
or_posted (err _) = (no_books, team, no_run, [])

unfoldable posted₁ : Books × Payroll × PayRun × List Entry
unfolding payroll_program
posted₁ = or_posted (post_pay_run hashes same_tax lower office team (outside batch) (λ _. now))

posted : post_pay_run hashes same_tax lower office team (outside batch) (λ _. now) ≡ ok posted₁
unfolding payroll_program posted₁
posted = refl

post_pay_run-parity_example :
    post_pay_run hashes same_tax lower office team (on_rail batch) (λ _. now)
    ≡ ok (posted₁.0, record team { runs = as_rail posted₁.2 ∷ [] }, as_rail posted₁.2, posted₁.3)
post_pay_run-parity_example =
    post_pay_run-parity hashes same_tax lower office team batch (λ _. now) posted₁ posted

-- A run with a paycheck that waits for its transfer, which is then settled.
abbrev pay_of : Settlement → Payroll
pay_of s = record team {
  runs =
      record no_run {
        id = codes "run-1";
        paychecks =
            record { draft = anns_pay; paystub_hash = none; settlement = s; delivery = none } ∷ [];
      }
      ∷ [];
}

abbrev confirmed : Settlement
confirmed = record (settlement_of external none now) { reference = some (codes "at1") }

marked :
    mark_paycheck_settlement
      (pay_of (settlement_of rail none []))
      (codes "run-1")
      (codes "wkr-1")
      confirmed
    ≡ ok (pay_of confirmed)
unfolding payroll_program
marked = refl

settled-IsFinal_example :
    ((find_run (pay_of confirmed) (codes "run-1") >>= λ r.
    find_paycheck r (codes "wkr-1") >>= λ p. ok p.settlement)
      ≡ ok confirmed)
    × ((next : Settlement) (after : Payroll)
        → mark_paycheck_settlement (pay_of confirmed) (codes "run-1") (codes "wkr-1") next
          ≢ ok after)
settled-IsFinal_example =
    settled-IsFinal (pay_of (settlement_of rail none [])) (pay_of confirmed) (codes "run-1")
      (codes "wkr-1") confirmed marked refl

-- ===== src/Payroll/Paychecks.antt =====
-- packages/payroll/src/payroll.ts: what a paycheck comes to.
pub mod Bounds
use pnw.Base.{
  ℕ, ◌+◌, ◌/◌, Bool, true, false, not, ◌&&◌, ◌||◌, Option, none, some, List, [], ◌∷◌, foldl,
  or_else, if◌then◌else◌,
}
use pnw.Data.Int.{ℤ, pos, ◌+ℤ◌, ◌-ℤ◌, ◌*ℤ◌, ltb_ℤ}
use pnw.Data.Result.{ok, err, ◌>>=◌, ◌>>◌, fail_if, or_fail}
use pnw.Data.Text.{Text, text_eq}
use pnw.Data.Text.Order.{text_lt}
use pnw.Ledger.Money.{Cents}
use pnw.Ledger.Periods.{IsoDate}
use pnw.Sales.Dates.{first_units}
use pnw.Sales.Amounts.{quot}
use pnw.Payroll.Errors.{
  Checked, refused_by_payroll, no_run, no_hours, negative_gross, withheld_above_gross,
}
use pnw.Payroll.State.{
  PayFrequency, per_year, FilingStatus, PayType, hourly, salary, Worker, Hours, hundredths,
  not_finite, PaycheckDraft, Paycheck, PayRun, Payroll,
}

-- Rate × cents, rounded half up.
unfoldable pub pct : Cents → ℕ → Cents
pct cents basis_points = quot (cents *ℤ pos basis_points +ℤ pos 5000) 10_000

abbrev pub ss_bp : ℕ
ss_bp = 620

abbrev pub medicare_bp : ℕ
medicare_bp = 145

abbrev pub ss_wage_base : Cents
ss_wage_base = pos 18_450_000

abbrev pub ss_annual_max : Cents
ss_annual_max = pct ss_wage_base ss_bp

pub record YearToDate : Type 0 where
  pub gross : Cents
  pub social_security : Cents
  pub employer_social_security : Cents
  pub withheld : Cents

unfoldable pub withheld_from : PaycheckDraft → Cents
withheld_from p = p.federal_income_tax +ℤ p.social_security +ℤ p.medicare +ℤ p.additional_medicare

unfoldable pub employer_taxes : PaycheckDraft → Cents
employer_taxes p = p.employer_social_security +ℤ p.employer_medicare

-- The runs posted before one of them.
abbrev pub runs_before : Text → List PayRun → Option (List PayRun)
runs_before id [] = none
runs_before id (r ∷ runs) =
    let rest = runs_before id runs in
    if text_eq r.id id then some [] else elim rest [ none ↦ none | some before ↦ some (r ∷ before) ]

abbrev pub counted_runs : Payroll → Option Text → Checked (List PayRun)
counted_runs payroll none = ok payroll.runs
counted_runs payroll (some id) = or_fail (runs_before id payroll.runs) (refused_by_payroll no_run)

abbrev pub add_paycheck : Text → YearToDate → Paycheck → YearToDate
add_paycheck worker_id ytd p = if not (text_eq p.worker_id worker_id) then ytd else record {
  gross = ytd.gross +ℤ p.gross;
  social_security = ytd.social_security +ℤ p.social_security;
  employer_social_security = ytd.employer_social_security +ℤ p.employer_social_security;
  withheld = ytd.withheld +ℤ withheld_from p.draft;
}

-- A run in the same calendar year, not after the pay date.
abbrev pub counts_by : IsoDate → PayRun → Bool
counts_by pay_date run =
    text_eq (first_units 4 run.pay_date) (first_units 4 pay_date)
    && not (text_lt pay_date run.pay_date)

abbrev pub add_run : Text → IsoDate → YearToDate → PayRun → YearToDate
add_run worker_id pay_date ytd run =
    if counts_by pay_date run then foldl (add_paycheck worker_id) ytd run.paychecks else ytd

abbrev pub nothing_yet : YearToDate
nothing_yet = record {
  gross = pos 0;
  social_security = pos 0;
  employer_social_security = pos 0;
  withheld = pos 0;
}

unfoldable pub year_to_date : Payroll → Text → IsoDate → Option Text → Checked YearToDate
year_to_date payroll worker_id pay_date before_run = counted_runs payroll before_run >>= λ runs.
    ok (foldl (add_run worker_id pay_date) nothing_yet runs)

-- Hours × rate, or the annual salary over the periods of a year, rounded half up.
unfoldable pub gross_for : Worker → Option Hours → Checked Cents
gross_for worker hours = elim worker.pay_type [
  | salary ↦ let n = per_year worker.frequency in ok (quot (worker.rate +ℤ pos (n / 2)) n)
  | hourly ↦ elim hours [
    | none ↦ err (refused_by_payroll no_hours)
    | some not_finite ↦ err (refused_by_payroll no_hours)
    | some (hundredths h) ↦
        if ltb_ℤ h (pos 0)
        then err (refused_by_payroll no_hours)
        else ok (quot (worker.rate *ℤ h +ℤ pos 50) 100)
  ]
]

-- What the tax engine (packages/tax-engine) is handed and gives back, in cents.
pub record TaxQuestion : Type 0 where
  pub gross : Cents
  pub filing_status : FilingStatus
  pub pay_period : PayFrequency
  pub ytd_gross : Cents
  pub ytd_ss_tax : Cents
  pub dependent_credit : Cents
  pub other_income : Cents
  pub extra_deductions : Cents
  pub extra_withholding : Cents

pub record TaxAnswer : Type 0 where
  pub federal_income_tax : Cents
  pub social_security_tax : Cents
  pub medicare_tax : Cents
  pub additional_medicare_tax : Cents

-- An amount of Social Security that does not pass the annual maximum.
unfoldable pub cap_ss : Cents → Cents → Cents
cap_ss amount paid_so_far =
    let room = ss_annual_max -ℤ paid_so_far in
    if ltb_ℤ amount room then amount else if ltb_ℤ (pos 0) room then room else pos 0

-- The part of the gross that is below the wage base of the year.
unfoldable pub ss_wages : Cents → Cents → Cents
ss_wages gross ytd_gross =
    let left = ss_wage_base -ℤ ytd_gross in
    let room = if ltb_ℤ (pos 0) left then left else pos 0 in
    if ltb_ℤ gross room then gross else room

abbrev pub kept_hours : Worker → Option Hours → Option Hours
kept_hours worker hours = elim worker.pay_type [ hourly ↦ hours | salary ↦ none ]

-- `compute_tax` is the tax engine with its conversions between cents and dollars.
module _ (compute_tax : TaxQuestion → TaxAnswer) where
  abbrev pub question_of : Worker → Cents → YearToDate → TaxQuestion
  question_of worker gross ytd = record {
    gross = gross;
    filing_status = worker.w4.filing_status;
    pay_period = worker.frequency;
    ytd_gross = ytd.gross;
    ytd_ss_tax = ytd.social_security;
    dependent_credit = worker.w4.dependent_credit;
    other_income = worker.w4.other_income;
    extra_deductions = worker.w4.extra_deductions;
    extra_withholding = worker.w4.extra_withholding;
  }

  unfoldable pub compute_paycheck :
      Worker → Cents → YearToDate → Option Hours → Checked PaycheckDraft
  compute_paycheck worker gross ytd hours = do
    fail_if (ltb_ℤ gross (pos 0)) (refused_by_payroll negative_gross)
    let t = compute_tax (question_of worker gross ytd)
    let social_security = cap_ss t.social_security_tax ytd.social_security
    let net =
        gross -ℤ t.federal_income_tax -ℤ social_security -ℤ t.medicare_tax
        -ℤ t.additional_medicare_tax
    fail_if (ltb_ℤ net (pos 0)) (refused_by_payroll withheld_above_gross)
    ok record {
      worker_id = worker.id;
      hours = kept_hours worker hours;
      gross = gross;
      federal_income_tax = t.federal_income_tax;
      social_security = social_security;
      medicare = t.medicare_tax;
      additional_medicare = t.additional_medicare_tax;
      employer_social_security =
          cap_ss (pct (ss_wages gross ytd.gross) ss_bp) ytd.employer_social_security;
      employer_medicare = pct gross medicare_bp;
      net = net;
      tags = none;
    }

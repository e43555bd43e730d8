-- ===== src/Payroll/Paystub.antt =====
-- packages/payroll/src/paystub.ts: the paystub document and its hash.
use pnw.Base.{ℕ, ◌+◌, ◌/◌, ◌%◌, Option, none, some, List, [], ◌∷◌, ◌++◌, ◌==◌, not, if◌then◌else◌}
use pnw.Data.Int.{pos, negsuc, ◌+ℤ◌}
use pnw.Data.Result.{ok, err, ◌>>◌, fail_if}
use pnw.Data.Text.{Text, codes, text_eq}
use pnw.Data.Decimal.{show}
use pnw.Data.Json.{quote}
use pnw.Ledger.Money.{Cents}
use pnw.Ledger.Periods.{IsoDate}
use pnw.Ledger.Books.State.{Settings, show_cents, Hashes}
use pnw.Payroll.Errors.{Checked, refused_by_payroll, not_in_run}
use pnw.Payroll.State.{
  Hours, hundredths, not_finite, PayType, hourly, salary, PaycheckDraft, Worker,
}
use pnw.Payroll.Paychecks.{YearToDate, withheld_from}

pub record PaystubDocument : Type 0 where
  pub business_name : Text
  pub worker_id : Text
  pub worker_name : Text
  pub pay_date : IsoDate
  pub period_start : IsoDate
  pub period_end : IsoDate
  pub pay_type : PayType
  pub rate : Cents
  pub hours : Option Hours
  pub gross : Cents
  pub federal_income_tax : Cents
  pub social_security : Cents
  pub medicare : Cents
  pub additional_medicare : Cents
  pub employer_social_security : Cents
  pub employer_medicare : Cents
  pub net : Cents
  pub ytd_gross : Cents
  pub ytd_withheld : Cents
  pub run_id : Text
  pub position : ℕ

-- A run as its paystubs show it.
pub record RunDraft : Type 0 where
  pub id : Text
  pub pay_date : IsoDate
  pub period_start : IsoDate
  pub period_end : IsoDate
  pub paychecks : List PaycheckDraft

-- `findIndex` of a worker's paycheck, from 1.
abbrev pub position_in : Text → List PaycheckDraft → Option ℕ
position_in worker_id [] = none
position_in worker_id (p ∷ paychecks) =
    let rest = position_in worker_id paychecks in
    if text_eq p.worker_id worker_id
    then some 1
    else elim rest [ none ↦ none | some i ↦ some (i + 1) ]

unfoldable pub paystub_document :
    RunDraft → PaycheckDraft → Worker → Settings → YearToDate → Checked PaystubDocument
paystub_document run paycheck worker settings ytd =
    elim (position_in paycheck.worker_id run.paychecks) [
      | none ↦ err (refused_by_payroll not_in_run)
      | some position ↦ do
        fail_if (not (text_eq worker.id paycheck.worker_id)) (refused_by_payroll not_in_run)
        ok record {
          business_name = settings.business_name;
          worker_id = worker.id;
          worker_name = worker.name;
          pay_date = run.pay_date;
          period_start = run.period_start;
          period_end = run.period_end;
          pay_type = worker.pay_type;
          rate = worker.rate;
          hours = paycheck.hours;
          gross = paycheck.gross;
          federal_income_tax = paycheck.federal_income_tax;
          social_security = paycheck.social_security;
          medicare = paycheck.medicare;
          additional_medicare = paycheck.additional_medicare;
          employer_social_security = paycheck.employer_social_security;
          employer_medicare = paycheck.employer_medicare;
          net = paycheck.net;
          ytd_gross = ytd.gross +ℤ paycheck.gross;
          ytd_withheld = ytd.withheld +ℤ withheld_from paycheck;
          run_id = run.id;
          position = position;
        }
    ]

abbrev pub pay_type_text : PayType → Text
pay_type_text hourly = codes "hourly"
pay_type_text salary = codes "salary"

-- `JSON.stringify` of a number of hundredths.
abbrev pub show_hundredths : ℕ → Text
show_hundredths n =
    let frac = n % 100 in
    if frac == 0
    then show (n / 100)
    else if frac % 10 == 0
    then show (n / 100) ++ b'.' ∷ show (frac / 10)
    else show (n / 100) ++ b'.' ∷ show (frac / 10) ++ show (frac % 10)

abbrev pub hours_text : Option Hours → Text
hours_text none = codes "null"
hours_text (some not_finite) = codes "null"
hours_text (some (hundredths (pos n))) = show_hundredths n
hours_text (some (hundredths (negsuc n))) = b'-' ∷ show_hundredths (n + 1)

-- The members of an object, separated by commas.
abbrev pub members : List (Text × Text) → Text
members [] = []
members ((key, value) ∷ []) = quote key ++ b':' ∷ value
members ((key, value) ∷ m ∷ more) = quote key ++ b':' ∷ value ++ b',' ∷ members (m ∷ more)

abbrev pub cents_text : Cents → Text
cents_text c = quote (show_cents c)

abbrev pub paystub_members : PaystubDocument → List (Text × Text)
paystub_members doc =
    (codes "version", codes "1")
    ∷ (codes "businessName", quote doc.business_name)
    ∷ (codes "workerId", quote doc.worker_id)
    ∷ (codes "workerName", quote doc.worker_name)
    ∷ (codes "payDate", quote doc.pay_date)
    ∷ (codes "periodStart", quote doc.period_start)
    ∷ (codes "periodEnd", quote doc.period_end)
    ∷ (codes "payType", quote (pay_type_text doc.pay_type))
    ∷ (codes "rate", cents_text doc.rate)
    ∷ (codes "hours", hours_text doc.hours)
    ∷ (codes "gross", cents_text doc.gross)
    ∷ (codes "federalIncomeTax", cents_text doc.federal_income_tax)
    ∷ (codes "socialSecurity", cents_text doc.social_security)
    ∷ (codes "medicare", cents_text doc.medicare)
    ∷ (codes "additionalMedicare", cents_text doc.additional_medicare)
    ∷ (codes "employerSocialSecurity", cents_text doc.employer_social_security)
    ∷ (codes "employerMedicare", cents_text doc.employer_medicare)
    ∷ (codes "net", cents_text doc.net)
    ∷ (codes "ytdGross", cents_text doc.ytd_gross)
    ∷ (codes "ytdWithheld", cents_text doc.ytd_withheld)
    ∷ (codes "runId", quote doc.run_id)
    ∷ (codes "position", show doc.position)
    ∷ []

unfoldable pub canonical_paystub : PaystubDocument → Text
canonical_paystub doc = b'{' ∷ (members (paystub_members doc) ++ b'}' ∷ [])

abbrev pub paystub_domain : Text
paystub_domain = codes "PNW::PAYSTUB::v1"

unfoldable pub hash_paystub : Hashes → PaystubDocument → Text
unfolding canonical_paystub
hash_paystub h doc =
    h.blake3_hex (h.utf8_to_bytes paystub_domain ++ 0 ∷ h.utf8_to_bytes (canonical_paystub doc))

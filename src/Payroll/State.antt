-- ===== src/Payroll/State.antt =====
-- packages/payroll/src/payroll.ts: the types of what payroll keeps, and what it is given.
use pnw.Base.{ℕ, Bool, Option, List, []}
use pnw.Data.Int.{ℤ, Number}
use pnw.Data.Text.{Text}
use pnw.Ledger.Money.{Cents}
use pnw.Ledger.Periods.{IsoDate}
use pnw.Ledger.Books.State.{Tags, Amount}

pub data PayFrequency : Type 0 where
  weekly biweekly semimonthly monthly : PayFrequency

abbrev pub per_year : PayFrequency → ℕ
per_year weekly = 52
per_year biweekly = 26
per_year semimonthly = 24
per_year monthly = 12

pub data FilingStatus : Type 0 where
  single married_filing_jointly head_of_household married_filing_separately : FilingStatus

pub record W4 : Type 0 where
  pub filing_status : FilingStatus
  pub dependent_credit : Cents
  pub other_income : Cents
  pub extra_deductions : Cents
  pub extra_withholding : Cents

-- A W-4 whose amounts are yet to be checked.
pub record W4Input : Type 0 where
  pub filing_status : FilingStatus
  pub dependent_credit : Amount
  pub other_income : Amount
  pub extra_deductions : Amount
  pub extra_withholding : Amount

pub data PayType : Type 0 where
  hourly salary : PayType

pub record Worker : Type 0 where
  pub id : Text
  pub name : Text
  pub active : Bool
  pub pay_type : PayType
  pub rate : Cents
  pub frequency : PayFrequency
  pub w4 : W4

pub record WorkerInput : Type 0 where
  pub name : Text
  pub pay_type : PayType
  pub rate : Amount
  pub frequency : PayFrequency
  pub w4 : W4Input

pub record WorkerChanges : Type 0 where
  pub name : Option Text
  pub pay_type : Option PayType
  pub rate : Option Amount
  pub frequency : Option PayFrequency
  pub w4 : Option W4Input
  pub active : Option Bool

pub data SettlementMode : Type 0 where
  external rail : SettlementMode

pub data SettlementStatus : Type 0 where
  pending settled failed : SettlementStatus

pub record Settlement : Type 0 where
  pub status : SettlementStatus
  pub reference : Option Text
  pub height : Option Number
  pub settled_at : Option Text
  pub failure : Option Text
  pub fee_microcredits : Option Amount

pub record PaycheckDelivery : Type 0 where
  pub seq : ℕ
  pub lookup : Text
  pub sent_at : Text
  pub received_at : Option Text

-- Hours to the hundredth, or a number that is not finite.
pub data Hours : Type 0 where
  hundredths : ℤ → Hours
  not_finite : Hours

pub record PaycheckDraft : Type 0 where
  pub worker_id : Text
  pub hours : Option Hours
  pub gross : Cents
  pub federal_income_tax : Cents
  pub social_security : Cents
  pub medicare : Cents
  pub additional_medicare : Cents
  pub employer_social_security : Cents
  pub employer_medicare : Cents
  pub net : Cents
  pub tags : Option Tags

pub record Paycheck : Type 0 where
  pub draft : PaycheckDraft
  pub open draft use *
  pub paystub_hash : Option Text
  pub settlement : Settlement
  pub delivery : Option PaycheckDelivery

pub record PayRun : Type 0 where
  pub id : Text
  pub pay_date : IsoDate
  pub period_start : IsoDate
  pub period_end : IsoDate
  pub bank_account_id : Text
  pub mode : SettlementMode
  pub paychecks : List Paycheck
  pub entry_ids : List Text

pub record PayrollAccounts : Type 0 where
  pub wages_id : Text
  pub employer_taxes_id : Text
  pub liabilities_id : Text

pub record Payroll : Type 0 where
  pub workers : List Worker
  pub runs : List PayRun
  pub next_worker : ℕ

abbrev pub empty_payroll : Payroll
empty_payroll = record { workers = []; runs = []; next_worker = 1 }

pub record PayLine : Type 0 where
  pub worker_id : Text
  pub hours : Option Hours
  pub tags : Option Tags

pub record PayRunInput : Type 0 where
  pub pay_date : IsoDate
  pub period_start : IsoDate
  pub period_end : IsoDate
  pub bank_account_id : Text
  pub mode : Option SettlementMode
  pub reference : Option Text
  pub lines : List PayLine

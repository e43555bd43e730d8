-- ===== src/Sales/State.antt =====
-- packages/sales/src/sales.ts: the types of what the sales package keeps, and what it is given.
use pnw.Base.{ℕ, Bool, Option, List, []}
use pnw.Data.Int.{Number}
use pnw.Data.Text.{Text}
use pnw.Ledger.Money.{Cents}
use pnw.Ledger.Periods.{IsoDate}
use pnw.Ledger.Books.State.{Tags, Amount}

pub data TermsId : Type 0 where
  due_on_receipt net_15 net_30 net_45 net_60 : TermsId

abbrev pub terms_days : TermsId → ℕ
terms_days due_on_receipt = 0
terms_days net_15 = 15
terms_days net_30 = 30
terms_days net_45 = 45
terms_days net_60 = 60

abbrev pub default_terms : TermsId
default_terms = net_30

pub record Customer : Type 0 where
  pub id : Text
  pub name : Text
  pub email : Option Text
  pub terms : TermsId
  pub active : Bool

-- A customer's fields, and whether payments count for a 1099.
pub record Vendor : Type 0 where
  pub party : Customer
  pub open party use *
  pub tracks_1099 : Bool

pub record PartyInput : Type 0 where
  pub name : Text
  pub email : Option Text
  pub terms : Option TermsId

-- What is to change: a field that is there may be there as `undefined`.
pub record PartyChanges : Type 0 where
  pub name : Option Text
  pub email : Option (Option Text)
  pub terms : Option (Option TermsId)
  pub active : Option Bool

pub record InvoiceLine : Type 0 where
  pub description : Text
  pub account_id : Text
  pub quantity : Text
  pub unit_price : Cents
  pub taxable : Bool
  pub tags : Option Tags

-- A line as it comes in: its price is yet to be checked.
pub record InvoiceLineInput : Type 0 where
  pub description : Text
  pub account_id : Text
  pub quantity : Text
  pub unit_price : Amount
  pub taxable : Bool
  pub tags : Option Tags

pub data InvoiceState : Type 0 where
  draft sent void : InvoiceState

pub record Invoice : Type 0 where
  pub id : Text
  pub number : Text
  pub customer_id : Text
  pub date : IsoDate
  pub due_date : IsoDate
  pub terms : TermsId
  pub lines : List InvoiceLine
  pub tax_rate_bp : ℕ
  pub memo : Option Text
  pub state : InvoiceState
  pub entry_id : Option Text
  pub void_entry_id : Option Text
  pub estimate_id : Option Text

pub record InvoiceInput : Type 0 where
  pub customer_id : Text
  pub date : IsoDate
  pub due_date : Option IsoDate
  pub terms : Option TermsId
  pub lines : List InvoiceLineInput
  pub tax_rate_bp : Option Number
  pub memo : Option Text

-- An amount that is put on an invoice or a bill.
pub record Application : Type 0 where
  pub target_id : Text
  pub amount : Cents

pub record ApplicationInput : Type 0 where
  pub target_id : Text
  pub amount : Amount

pub record Payment : Type 0 where
  pub id : Text
  pub date : IsoDate
  pub customer_id : Text
  pub amount : Cents
  pub deposit_account_id : Text
  pub reference : Option Text
  pub applications : List Application
  pub entry_id : Text
  pub void_entry_id : Option Text

pub record PaymentInput : Type 0 where
  pub date : IsoDate
  pub customer_id : Text
  pub amount : Amount
  pub deposit_account_id : Text
  pub reference : Option Text
  pub applications : List ApplicationInput

pub record BillLine : Type 0 where
  pub description : Text
  pub account_id : Text
  pub amount : Cents
  pub tags : Option Tags

pub record BillLineInput : Type 0 where
  pub description : Text
  pub account_id : Text
  pub amount : Amount
  pub tags : Option Tags

pub record AttachmentRef : Type 0 where
  pub attachment_id : Text
  pub sha256 : Text
  pub type : Text
  pub size : Number
  pub name : Text

-- Without attachments the list is empty, where the source has no field.
pub record Bill : Type 0 where
  pub id : Text
  pub vendor_id : Text
  pub number : Option Text
  pub date : IsoDate
  pub due_date : IsoDate
  pub terms : TermsId
  pub lines : List BillLine
  pub memo : Option Text
  pub attachments : List AttachmentRef
  pub entry_id : Text
  pub void_entry_id : Option Text

pub record BillInput : Type 0 where
  pub vendor_id : Text
  pub number : Option Text
  pub date : IsoDate
  pub due_date : Option IsoDate
  pub terms : Option TermsId
  pub lines : List BillLineInput
  pub memo : Option Text
  pub attachments : List AttachmentRef

pub record BillPayment : Type 0 where
  pub id : Text
  pub date : IsoDate
  pub vendor_id : Text
  pub bank_account_id : Text
  pub reference : Option Text
  pub applications : List Application
  pub entry_id : Text
  pub void_entry_id : Option Text

pub record BillPaymentInput : Type 0 where
  pub date : IsoDate
  pub vendor_id : Text
  pub bank_account_id : Text
  pub reference : Option Text
  pub applications : List ApplicationInput

pub data EstimateState : Type 0 where
  draft sent accepted declined converted : EstimateState

pub record Estimate : Type 0 where
  pub id : Text
  pub number : Text
  pub customer_id : Text
  pub date : IsoDate
  pub expiry_date : IsoDate
  pub lines : List InvoiceLine
  pub tax_rate_bp : ℕ
  pub memo : Option Text
  pub state : EstimateState
  pub invoice_id : Option Text

pub record Sales : Type 0 where
  pub customers : List Customer
  pub vendors : List Vendor
  pub invoices : List Invoice
  pub estimates : List Estimate
  pub bills : List Bill
  pub payments : List Payment
  pub bill_payments : List BillPayment
  pub next_customer : ℕ
  pub next_vendor : ℕ
  pub next_invoice : ℕ
  pub next_estimate : ℕ
  pub next_bill : ℕ
  pub next_payment : ℕ
  pub next_bill_payment : ℕ

abbrev pub empty_sales : Sales
empty_sales = record {
  customers = [];
  vendors = [];
  invoices = [];
  estimates = [];
  bills = [];
  payments = [];
  bill_payments = [];
  next_customer = 1;
  next_vendor = 1;
  next_invoice = 1;
  next_estimate = 1;
  next_bill = 1;
  next_payment = 1;
  next_bill_payment = 1;
}

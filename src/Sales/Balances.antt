-- ===== src/Sales/Balances.antt =====
-- packages/sales/src/sales.ts: what is paid and owed on invoices and bills, and their status.
use pnw.Base.{Bool, true, not, Option, none, some, List, [], ◌∷◌, ◌++◌, map, select, if◌then◌else◌}
use pnw.Data.Int.{pos, ◌-ℤ◌, ltb_ℤ, leb_ℤ}
use pnw.Data.Result.{ok, ◌>>=◌, traverse}
use pnw.Data.Text.{Text, text_eq, truthy, is_truthy}
use pnw.Data.Text.Order.{text_lt, text_le}
use pnw.Ledger.Money.{Cents, sum_cents}
use pnw.Ledger.Periods.{IsoDate}
use pnw.Sales.Errors.{Fallible}
use pnw.Sales.State.{
  Application, Payment, BillPayment, BillLine, Bill, Invoice, InvoiceState, Sales,
}
use pnw.Sales.Invoices.{invoice_totals, is_sent}

-- `!asOf || date <= asOf`
abbrev pub is_by : IsoDate → Option IsoDate → Bool
is_by date as_of = elim (truthy as_of) [ none ↦ true | some d ↦ text_le date d ]

-- `flatMap` of the amounts put on a target.
abbrev pub amounts_for : Text → List Application → List Cents
amounts_for id apps = map (λ a. a.amount) (select (λ a. text_eq a.target_id id) apps)

abbrev pub live_payments : Sales → List Payment
live_payments sales = select (λ p. not (is_truthy p.void_entry_id)) sales.payments

abbrev pub live_bill_payments : Sales → List BillPayment
live_bill_payments sales = select (λ p. not (is_truthy p.void_entry_id)) sales.bill_payments

abbrev pub all_amounts : Text → List (List Application) → List Cents
all_amounts id [] = []
all_amounts id (apps ∷ rest) = amounts_for id apps ++ all_amounts id rest

unfoldable pub invoice_paid : Sales → Text → Option IsoDate → Cents
invoice_paid sales id as_of = sum_cents (
    all_amounts id
      (map (λ p. p.applications) (select (λ p. is_by p.date as_of) (live_payments sales))))

unfoldable pub invoice_balance : Sales → Invoice → Option IsoDate → Fallible Cents
invoice_balance sales invoice as_of =
    if not (is_sent invoice.state)
    then ok (pos 0)
    else (invoice_totals invoice.lines invoice.tax_rate_bp >>= λ t.
        ok (t.total -ℤ invoice_paid sales invoice.id as_of))

pub data InvoiceStatus : Type 0 where
  draft open_status partially_paid paid overdue void : InvoiceStatus

unfoldable pub derived_status : Cents → Cents → IsoDate → IsoDate → InvoiceStatus
derived_status total balance due_date today =
    if leb_ℤ balance (pos 0)
    then paid
    else if text_lt due_date today
    then overdue
    else if ltb_ℤ balance total
    then partially_paid
    else open_status

unfoldable pub invoice_status : Sales → Invoice → IsoDate → Fallible InvoiceStatus
invoice_status sales invoice today = elim invoice.state [
  | InvoiceState.draft ↦ ok draft
  | InvoiceState.void ↦ ok void
  | InvoiceState.sent ↦ invoice_totals invoice.lines invoice.tax_rate_bp >>= λ t.
      invoice_balance sales invoice none >>= λ balance.
      ok (derived_status t.total balance invoice.due_date today)
]

abbrev pub amount_applied : List Application → Cents
amount_applied apps = sum_cents (map (λ a. a.amount) apps)

-- Received and put on no invoice.
unfoldable pub unapplied_amount : Payment → Cents
unapplied_amount payment =
    if is_truthy payment.void_entry_id
    then pos 0
    else payment.amount -ℤ amount_applied payment.applications

unfoldable pub customer_balance : Sales → Text → Fallible Cents
customer_balance sales customer_id = do
  balances ←
      traverse (λ i. invoice_balance sales i none)
        (select (λ i. text_eq i.customer_id customer_id) sales.invoices)
  let credit =
      sum_cents
        (map unapplied_amount (select (λ p. text_eq p.customer_id customer_id) sales.payments))
  ok (sum_cents balances -ℤ credit)

abbrev pub bill_total : List BillLine → Cents
bill_total lines = sum_cents (map (λ l. l.amount) lines)

unfoldable pub bill_paid : Sales → Text → Option IsoDate → Cents
bill_paid sales id as_of = sum_cents (
    all_amounts id
      (map (λ p. p.applications) (select (λ p. is_by p.date as_of) (live_bill_payments sales))))

unfoldable pub bill_balance : Sales → Bill → Option IsoDate → Cents
bill_balance sales bill as_of =
    if is_truthy bill.void_entry_id
    then pos 0
    else bill_total bill.lines -ℤ bill_paid sales bill.id as_of

unfoldable pub bill_status : Sales → Bill → IsoDate → InvoiceStatus
bill_status sales bill today =
    if is_truthy bill.void_entry_id
    then void
    else derived_status (bill_total bill.lines) (bill_balance sales bill none) bill.due_date today

-- What is owed to a vendor.
unfoldable pub vendor_balance : Sales → Text → Cents
vendor_balance sales vendor_id =
    sum_cents (
      map (λ b. bill_balance sales b none)
        (select (λ b. text_eq b.vendor_id vendor_id) sales.bills))

-- ===== src/Sales/Invoices.antt =====
-- packages/sales/src/sales.ts: invoices before they are sent, and their totals.
pub mod Bounds
use pnw.Base.{
  ℕ, zero, suc, ◌+◌, ◌-◌, Bool, true, false, ◌&&◌, ◌||◌, not, Option, none, some, List, [], ◌∷◌,
  ◌++◌, map, find, select, length, or_else, ◌==◌, if◌then◌else◌,
}
use pnw.Data.Int.{ℤ, pos, ◌+ℤ◌, ◌*ℤ◌, ltb_ℤ, integer}
use pnw.Data.Result.{Result, ok, err, ◌>>=◌, ◌>>◌, fail_if, or_fail, traverse}
use pnw.Data.Text.{Text, codes, text_eq, trim, truthy, is_truthy, opt_eq}
use pnw.Data.Text.Order.{text_lt}
use pnw.Data.Decimal.{show}
use pnw.Data.Dict.{lookup}
use pnw.Data.Sort.{total}
use pnw.Ledger.Money.{Cents, sum_cents}
use pnw.Ledger.Periods.{IsoDate, assert_date}
use pnw.Ledger.Tags.{clean_tags}
use pnw.Ledger.Accounts.{Account, BaseType, same_base, base_of}
use pnw.Ledger.Books.State.{Books, Amount, bigint, not_bigint, account_map}
use pnw.Sales.Errors.{
  Fallible, refused, in_ledger, from_ledger, bad_tag, choose_account, account_inactive,
  choose_income_account, negative_rate, zero_quantity, no_lines, due_before_date, no_invoice,
  not_a_draft, customer_inactive,
}
use pnw.Sales.Dates.{add_days}
use pnw.Sales.Amounts.{parse_quantity, price, quot, clean_tax_rate}
use pnw.Sales.State.{
  InvoiceLine, InvoiceLineInput, InvoiceState, Invoice, InvoiceInput, TermsId, terms_days, Estimate,
  EstimateState, Sales,
}
use pnw.Sales.Parties.{find_customer, trimmed}

unfoldable pub line_amount : InvoiceLine → Fallible Cents
line_amount l = parse_quantity l.quantity >>= λ q. ok (price q l.unit_price)

pub record InvoiceTotals : Type 0 where
  pub subtotal : Cents
  pub taxable : Cents
  pub tax : Cents
  pub total : Cents

-- The amounts of the taxable lines.
abbrev pub taxable_amounts : List InvoiceLine → List Cents → List Cents
taxable_amounts (l ∷ lines) (a ∷ amounts) =
    let rest = taxable_amounts lines amounts in if l.taxable then a ∷ rest else rest
taxable_amounts _ _ = []

-- The tax on a taxable amount, rounded half up.
unfoldable pub tax_on : Cents → ℕ → Cents
tax_on taxable bp = quot (taxable *ℤ pos bp +ℤ pos 5000) 10_000

abbrev pub totals_of : List InvoiceLine → ℕ → List Cents → InvoiceTotals
totals_of lines bp amounts =
    let subtotal = sum_cents amounts in
    let taxable = sum_cents (taxable_amounts lines amounts) in
    let tax = tax_on taxable bp in
    record { subtotal = subtotal; taxable = taxable; tax = tax; total = subtotal +ℤ tax }

unfoldable pub invoice_totals : List InvoiceLine → ℕ → Fallible InvoiceTotals
invoice_totals lines bp = do amounts ← traverse line_amount lines; ok (totals_of lines bp amounts)

-- `account`, with the refusal of one that is missing.
unfoldable pub find_account : Books → Text → Fallible Account
find_account books id = do
  acct ← or_fail (lookup id (account_map books)) (refused choose_account)
  fail_if (not acct.active) (refused account_inactive)
  ok acct

abbrev pub checked_price : Amount → Fallible Cents
checked_price not_bigint = err (refused negative_rate)
checked_price (bigint p) = if ltb_ℤ p (pos 0) then err (refused negative_rate) else ok p

unfoldable pub clean_line : Books → InvoiceLineInput → Fallible InvoiceLine
clean_line books l = do
  acct ← find_account books l.account_id
  fail_if (not (same_base (base_of acct) BaseType.income)) (refused choose_income_account)
  unit_price ← checked_price l.unit_price
  quantity ← parse_quantity l.quantity
  fail_if (quantity == 0) (refused zero_quantity)
  tags ← clean_tags bad_tag l.tags
  ok record {
    description = trim l.description;
    account_id = l.account_id;
    quantity = trim l.quantity;
    unit_price = unit_price;
    taxable = l.taxable;
    tags = tags;
  }

unfoldable pub clean_invoice_lines : Books → List InvoiceLineInput → Fallible (List InvoiceLine)
clean_invoice_lines books input = do
  fail_if (length input == 0) (refused no_lines)
  traverse (clean_line books) input

-- What `cleanInvoice` gives, to be completed by the caller.
pub record CleanInvoice : Type 0 where
  pub customer_id : Text
  pub date : IsoDate
  pub due_date : IsoDate
  pub terms : TermsId
  pub lines : List InvoiceLine
  pub tax_rate_bp : ℕ
  pub memo : Option Text

-- A date that is given, or else one counted from another.
abbrev pub date_or_later : Option IsoDate → IsoDate → ℕ → Fallible IsoDate
date_or_later given date days = elim (truthy given) [
  | none ↦ from_ledger (add_days date days)
  | some d ↦ from_ledger (assert_date d)
]

unfoldable pub clean_invoice : Books → Sales → InvoiceInput → Fallible CleanInvoice
clean_invoice books sales input = do
  customer ← find_customer sales input.customer_id
  date ← from_ledger (assert_date input.date)
  let terms = or_else input.terms customer.terms
  due_date ← date_or_later input.due_date date (terms_days terms)
  fail_if (text_lt due_date date) (refused due_before_date)
  tax_rate_bp ← clean_tax_rate input.tax_rate_bp
  lines ← clean_invoice_lines books input.lines
  ok record {
    customer_id = customer.id;
    date = date;
    due_date = due_date;
    terms = terms;
    lines = lines;
    tax_rate_bp = tax_rate_bp;
    memo = trimmed input.memo;
  }

unfoldable pub find_invoice : Sales → Text → Fallible Invoice
find_invoice sales id = or_fail (find (λ i. text_eq i.id id) sales.invoices) (refused no_invoice)

abbrev pub zeros : ℕ → Text
zeros zero = []
zeros (suc n) = b'0' ∷ zeros n

-- `String(n).padStart(4, "0")`
abbrev pub pad_start4 : ℕ → Text
pad_start4 n = zeros (4 - length (show n)) ++ show n

abbrev pub draft_of : CleanInvoice → Text → Text → Option Text → Invoice
draft_of clean id number estimate_id = record {
  id = id;
  number = number;
  customer_id = clean.customer_id;
  date = clean.date;
  due_date = clean.due_date;
  terms = clean.terms;
  lines = clean.lines;
  tax_rate_bp = clean.tax_rate_bp;
  memo = clean.memo;
  state = InvoiceState.draft;
  entry_id = none;
  void_entry_id = none;
  estimate_id = estimate_id;
}

abbrev pub invoice_id_of : ℕ → Text
invoice_id_of n = codes "inv-" ++ show n

unfoldable pub create_invoice : Books → Sales → InvoiceInput → Fallible (Sales × Invoice)
create_invoice books sales input = do
  customer ← find_customer sales input.customer_id
  fail_if (not customer.active) (refused customer_inactive)
  clean ← clean_invoice books sales input
  let invoice =
      draft_of clean (invoice_id_of sales.next_invoice)
        (codes "INV-" ++ pad_start4 sales.next_invoice) none
  ok (
    record sales {
      invoices = sales.invoices ++ invoice ∷ [];
      next_invoice = sales.next_invoice + 1;
    },
    invoice,
  )

abbrev pub is_draft : InvoiceState → Bool
is_draft InvoiceState.draft = true
is_draft InvoiceState.sent = false
is_draft InvoiceState.void = false

abbrev pub is_sent : InvoiceState → Bool
is_sent InvoiceState.draft = false
is_sent InvoiceState.sent = true
is_sent InvoiceState.void = false

abbrev pub is_void : InvoiceState → Bool
is_void InvoiceState.draft = false
is_void InvoiceState.sent = false
is_void InvoiceState.void = true

-- `invoices.map((i) => (i.id === id ? next : i))`
abbrev pub replace_invoice : Text → Invoice → List Invoice → List Invoice
replace_invoice id next = map (λ i. if text_eq i.id id then next else i)

unfoldable pub update_draft_invoice : Books → Sales → Text → InvoiceInput → Fallible Sales
update_draft_invoice books sales id input = do
  current ← find_invoice sales id
  fail_if (not (is_draft current.state)) (refused not_a_draft)
  clean ← clean_invoice books sales input
  let next = draft_of clean id current.number (truthy current.estimate_id)
  ok (record sales { invoices = replace_invoice id next sales.invoices })

-- The estimate behind a draft that goes away: it is accepted again.
abbrev pub hand_back : Text → Option Text → Estimate → Estimate
hand_back id estimate_id e =
    if opt_eq (some e.id) estimate_id && opt_eq e.invoice_id (some id)
    then record e { state = EstimateState.accepted; invoice_id = none }
    else e

unfoldable pub delete_draft_invoice : Sales → Text → Fallible Sales
delete_draft_invoice sales id = do
  current ← find_invoice sales id
  fail_if (not (is_draft current.state)) (refused not_a_draft)
  ok (record sales {
    invoices = select (λ i. not (text_eq i.id id)) sales.invoices;
    estimates = map (hand_back id current.estimate_id) sales.estimates;
  })

-- ===== src/Sales/Tax.antt =====
-- packages/sales/src/salestax.ts: the sales tax charged, paid to the agency and still owed.
pub mod Owed
use pnw.Base.{
  ℕ, ◌+◌, Bool, true, false, not, ◌&&◌, ◌||◌, Option, none, some, List, [], ◌∷◌, ◌++◌, map, foldl,
  any, select, if◌then◌else◌,
}
use pnw.Data.Int.{ℤ, pos, ◌+ℤ◌, ◌-ℤ◌, neg, ltb_ℤ, leb_ℤ, eqb_ℤ}
use pnw.Data.Result.{ok, err, ◌>>=◌, ◌>>◌, fail_if, or_fail, traverse}
use pnw.Data.Text.{Text, codes, text_eq, truthy, is_truthy}
use pnw.Data.Text.Order.{text_lt, text_le}
use pnw.Data.Dict.{Dict, lookup, insert}
use pnw.Data.Sort.{sort, sum_of}
use pnw.Ledger.Money.{Cents}
use pnw.Ledger.Periods.{IsoDate, assert_date}
use pnw.Ledger.Accounts.{Account, AccountType, SystemRole, same_type}
use pnw.Ledger.Books.State.{
  Books, Entry, EntryInput, Line, Amount, Source, SourceKind, sales_tax_payment, account_map,
  Hashes,
}
use pnw.Ledger.Books.Chart.{find_system_account}
use pnw.Ledger.Books.Journal.{post_entry}
use pnw.Sales.Errors.{
  Fallible, refused, from_ledger, end_before_start, choose_bank_account, account_inactive,
}
use pnw.Sales.State.{Invoice, Sales}
use pnw.Sales.Parties.{trimmed}
use pnw.Sales.Invoices.{invoice_totals, is_void}
use pnw.Sales.Posting.{debit_line, credit_line}
use pnw.Sales.Payments.{positive_amount}

pub record SalesTaxInvoiceRow : Type 0 where
  pub invoice_id : Text
  pub number : Text
  pub customer_id : Text
  pub date : IsoDate
  pub total_sales : Cents
  pub taxable_sales : Cents
  pub tax : Cents
  pub void : Bool

pub record SalesTaxPaymentRow : Type 0 where
  pub entry_id : Text
  pub date : IsoDate
  pub amount : Cents
  pub memo : Option Text

pub record SalesTaxReport : Type 0 where
  pub from : IsoDate
  pub to : IsoDate
  pub opening : Cents
  pub invoices : List SalesTaxInvoiceRow
  pub collected : Cents
  pub total_sales : Cents
  pub taxable_sales : Cents
  pub voided : Cents
  pub payments : List SalesTaxPaymentRow
  pub paid : Cents
  pub adjustments : Cents
  pub owed : Cents

-- What an entry credits to the account, less what it debits.
abbrev pub credit_from : Text → List Line → Cents → Cents
credit_from stp lines t =
    foldl (λ t l. if text_eq l.account_id stp then t +ℤ l.credit -ℤ l.debit else t) t lines

unfoldable pub credit_of : Text → Entry → Cents
credit_of stp e = credit_from stp e.lines (pos 0)

-- `new Map(entries.map((e) => [e.id, e]))`
abbrev pub entry_map : List Entry → Dict Entry
entry_map = foldl (λ d e. insert e.id e d) []

abbrev pub entry_ids_of : List Invoice → List Text
entry_ids_of [] = []
entry_ids_of (i ∷ invoices) = elim (truthy i.entry_id) [
  | none ↦ entry_ids_of invoices
  | some id ↦ id ∷ entry_ids_of invoices
]

-- What the loop over the entries adds up.
pub record TaxWalk : Type 0 where
  pub opening : Cents
  pub movement : Cents
  pub voided : Cents
  pub payments : List SalesTaxPaymentRow

abbrev pub is_tax_payment : Entry → Bool
is_tax_payment e = elim e.source.kind [ sales_tax_payment ↦ true | _ ↦ false ]

abbrev pub original_of : Dict Entry → Entry → Option Entry
original_of entries e = elim (truthy e.reverses) [ none ↦ none | some id ↦ lookup id entries ]

abbrev pub undoes_invoice : List Text → Option Entry → Bool
undoes_invoice invoice_entries none = false
undoes_invoice invoice_entries (some o) = any (text_eq o.id) invoice_entries

abbrev pub undoes_payment : Option Entry → Bool
undoes_payment none = false
undoes_payment (some o) = is_tax_payment o

module _ (stp : Text) (entries : Dict Entry) (invoice_entries : List Text) (from to : IsoDate) where
  -- An entry in the range.
  abbrev pub walk_inside : Entry → TaxWalk → TaxWalk
  walk_inside e w =
      let c = credit_of stp e in
      let original = original_of entries e in
      let row : SalesTaxPaymentRow = record {
        entry_id = e.id;
        date = e.date;
        amount = neg c;
        memo = truthy e.memo;
      } in
      record {
        opening = w.opening;
        movement = w.movement +ℤ c;
        voided = if undoes_invoice invoice_entries original then w.voided -ℤ c else w.voided;
        payments =
            if is_tax_payment e || undoes_payment original
            then w.payments ++ row ∷ []
            else w.payments;
      }

  unfoldable pub walk_entry : TaxWalk → Entry → TaxWalk
  walk_entry w e =
      if text_lt e.date from
      then record w { opening = w.opening +ℤ credit_of stp e }
      else if text_lt to e.date
      then w
      else walk_inside e w

abbrev pub tax_row : Invoice → Fallible SalesTaxInvoiceRow
tax_row i = invoice_totals i.lines i.tax_rate_bp >>= λ t. ok record {
  invoice_id = i.id;
  number = i.number;
  customer_id = i.customer_id;
  date = i.date;
  total_sales = t.subtotal;
  taxable_sales = t.taxable;
  tax = t.tax;
  void = is_void i.state;
}

abbrev pub is_posted_in : IsoDate → IsoDate → Invoice → Bool
is_posted_in from to i = is_truthy i.entry_id && text_le from i.date && text_le i.date to

-- `locale_compare` is `String.prototype.localeCompare`.
module _ (locale_compare : Text → Text → ℤ) where
  abbrev pub row_later : SalesTaxInvoiceRow → SalesTaxInvoiceRow → Bool
  row_later a b =
      let by_date = locale_compare a.date b.date in
      if eqb_ℤ by_date (pos 0)
      then ltb_ℤ (pos 0) (locale_compare a.number b.number)
      else ltb_ℤ (pos 0) by_date

  abbrev pub report_of : IsoDate → IsoDate → TaxWalk → List SalesTaxInvoiceRow → SalesTaxReport
  report_of from to w rows =
      let invoices = sort row_later rows in
      let collected = sum_of (λ r. r.tax) invoices in
      let paid = sum_of (λ r. r.amount) w.payments in
      record {
        from = from;
        to = to;
        opening = w.opening;
        invoices = invoices;
        collected = collected;
        total_sales = sum_of (λ r. r.total_sales) invoices;
        taxable_sales = sum_of (λ r. r.taxable_sales) invoices;
        voided = w.voided;
        payments = w.payments;
        paid = paid;
        adjustments = w.movement -ℤ collected +ℤ w.voided +ℤ paid;
        owed = w.opening +ℤ w.movement;
      }

  unfoldable pub sales_tax_report : Books → Sales → IsoDate → IsoDate → Fallible SalesTaxReport
  sales_tax_report books sales from to = do
    _ ← from_ledger (assert_date from)
    _ ← from_ledger (assert_date to)
    fail_if (text_lt to from) (refused end_before_start)
    stp ← from_ledger (find_system_account books SystemRole.sales_tax_payable)
    let start : TaxWalk = record {
      opening = pos 0;
      movement = pos 0;
      voided = pos 0;
      payments = [];
    }
    let walk =
        foldl (walk_entry stp.id (entry_map books.entries) (entry_ids_of sales.invoices) from to)
          start books.entries
    rows ← traverse tax_row (select (is_posted_in from to) sales.invoices)
    ok (report_of from to walk rows)

-- What is owed to the agency today.
unfoldable pub sales_tax_owed : Books → Fallible Cents
sales_tax_owed books =
    from_ledger (find_system_account books SystemRole.sales_tax_payable) >>= λ stp.
    ok (foldl (λ owed e. credit_from stp.id e.lines owed) (pos 0) books.entries)

pub record TaxPaymentInput : Type 0 where
  pub date : IsoDate
  pub amount : Amount
  pub bank_account_id : Text
  pub agency : Option Text
  pub reference : Option Text

-- The checks on the bank account, in the order of this file.
abbrev pub tax_bank : Books → Text → Fallible Account
tax_bank books id = do
  bank ← or_fail (lookup id (account_map books)) (refused choose_bank_account)
  fail_if (not (same_type bank.type AccountType.bank)) (refused choose_bank_account)
  fail_if (not bank.active) (refused account_inactive)
  ok bank

abbrev pub tax_payment_memo : Option Text → Text
tax_payment_memo none = codes "Sales tax payment"
tax_payment_memo (some agency) = codes "Sales tax payment to " ++ agency

unfoldable pub tax_payment_entry : Books → TaxPaymentInput → Cents → Fallible EntryInput
tax_payment_entry books input amount = do
  date ← from_ledger (assert_date input.date)
  stp ← from_ledger (find_system_account books SystemRole.sales_tax_payable)
  ok record {
    date = date;
    memo = some (tax_payment_memo (trimmed input.agency));
    source = some (record { kind = sales_tax_payment; ref = none; doc = none });
    lines =
        debit_line stp.id amount none none none
        ∷ credit_line input.bank_account_id amount none (trimmed input.reference) none
        ∷ [];
  }

module _ (h : Hashes) where
  unfoldable pub record_sales_tax_payment :
      Books → TaxPaymentInput → Text → Fallible (Books × Entry)
  record_sales_tax_payment books input now = do
    amount ← positive_amount input.amount
    _ ← tax_bank books input.bank_account_id
    entry_input ← tax_payment_entry books input amount
    from_ledger (post_entry h books entry_input now)

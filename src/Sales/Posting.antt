-- ===== src/Sales/Posting.antt =====
-- packages/sales/src/sales.ts: sending and voiding invoices, which post to the books.
pub mod Balanced
pub mod Sent
use pnw.Base.{
  ℕ, Bool, true, false, not, Option, none, some, List, [], ◌∷◌, ◌++◌, map, if◌then◌else◌,
}
use pnw.Data.Int.{ℤ, pos, ltb_ℤ, leb_ℤ, integer}
use pnw.Data.Result.{ok, err, ◌>>=◌, ◌>>◌, fail_if, or_fail}
use pnw.Data.Text.{Text, codes, text_eq, truthy}
use pnw.Ledger.Money.{Cents}
use pnw.Ledger.Errors.{unknown_entry}
use pnw.Ledger.Periods.{IsoDate}
use pnw.Ledger.Accounts.{Account, SystemRole}
use pnw.Ledger.Books.State.{
  Books, Entry, LineInput, bigint, NameRef, customer, Source, SourceKind, EntryInput, Tags, Hashes,
}
use pnw.Ledger.Books.Chart.{find_system_account}
use pnw.Ledger.Books.Journal.{post_entry, reverse_entry, ReverseOptions}
use pnw.Sales.Errors.{
  Fallible, refused, in_ledger, from_ledger, already_sent, empty_total, already_void,
  payments_applied,
}
use pnw.Sales.State.{InvoiceLine, InvoiceLineInput, Invoice, InvoiceInput, InvoiceState, Sales}
use pnw.Sales.Invoices.{
  line_amount, invoice_totals, clean_invoice, find_invoice, replace_invoice, is_draft, is_void,
}
use pnw.Sales.Balances.{invoice_paid}

abbrev pub line_input : InvoiceLine → InvoiceLineInput
line_input l = record {
  description = l.description;
  account_id = l.account_id;
  quantity = l.quantity;
  unit_price = bigint l.unit_price;
  taxable = l.taxable;
  tags = l.tags;
}

-- An invoice as the input that `cleanInvoice` checks again.
abbrev pub as_input : Invoice → InvoiceInput
as_input i = record {
  customer_id = i.customer_id;
  date = i.date;
  due_date = some i.due_date;
  terms = some i.terms;
  lines = map line_input i.lines;
  tax_rate_bp = some (integer (pos i.tax_rate_bp));
  memo = i.memo;
}

abbrev pub customer_ref : Text → NameRef
customer_ref id = record { kind = customer; id = id }

abbrev pub debit_line : Text → Cents → Option NameRef → Option Text → Option Tags → LineInput
debit_line account_id amount name memo tags = record {
  account_id = account_id;
  debit = some (bigint amount);
  credit = none;
  memo = memo;
  name = name;
  tags = tags;
}

abbrev pub credit_line : Text → Cents → Option NameRef → Option Text → Option Tags → LineInput
credit_line account_id amount name memo tags = record {
  account_id = account_id;
  debit = none;
  credit = some (bigint amount);
  memo = memo;
  name = name;
  tags = tags;
}

-- The income lines of an invoice: those with an amount.
abbrev pub income_lines : NameRef → List InvoiceLine → Fallible (List LineInput)
income_lines name [] = ok []
income_lines name (l ∷ lines) = do
  amount ← line_amount l
  rest ← income_lines name lines
  ok (
      if ltb_ℤ (pos 0) amount
      then credit_line l.account_id amount (some name) (truthy (some l.description)) l.tags ∷ rest
      else rest)

abbrev pub tax_lines : Books → NameRef → Cents → Fallible (List LineInput)
tax_lines books name tax =
    if ltb_ℤ (pos 0) tax
    then (from_ledger (find_system_account books SystemRole.sales_tax_payable) >>= λ a.
        ok (credit_line a.id tax (some name) none none ∷ []))
    else ok []

abbrev pub posted_for : SourceKind → Text → Source
posted_for kind ref = record { kind = kind; ref = some ref; doc = none }

-- The entry that sending an invoice posts.
unfoldable pub invoice_entry : Books → Invoice → Cents → Cents → Fallible EntryInput
invoice_entry books invoice tax total = do
  let name = customer_ref invoice.customer_id
  receivable ← from_ledger (find_system_account books SystemRole.accounts_receivable)
  income ← income_lines name invoice.lines
  taxes ← tax_lines books name tax
  ok record {
    date = invoice.date;
    memo = some (codes "Invoice " ++ invoice.number);
    source = some (posted_for SourceKind.invoice invoice.id);
    lines = debit_line receivable.id total (some name) none none ∷ (income ++ taxes);
  }

module _ (h : Hashes) where
  unfoldable pub send_invoice : Books → Sales → Text → Text → Fallible (Books × Sales × Entry)
  send_invoice books sales id now = do
    invoice ← find_invoice sales id
    fail_if (not (is_draft invoice.state)) (refused already_sent)
    _ ← clean_invoice books sales (as_input invoice)
    totals ← invoice_totals invoice.lines invoice.tax_rate_bp
    fail_if (leb_ℤ totals.total (pos 0)) (refused empty_total)
    input ← invoice_entry books invoice totals.tax totals.total
    (posted_books, entry) ← from_ledger (post_entry h books input now)
    let next : Invoice = record invoice { state = InvoiceState.sent; entry_id = some entry.id }
    ok (posted_books, record sales { invoices = replace_invoice id next sales.invoices }, entry)

  -- `reverseEntry` of an entry that should be there.
  abbrev pub reverse_of :
      Books → Option Text → Option IsoDate → Text → Text → Fallible (Books × Entry)
  reverse_of books none date memo now = err (in_ledger unknown_entry)
  reverse_of books (some id) date memo now =
      from_ledger (reverse_entry h books id (record { date = date; memo = some memo }) now)

  unfoldable pub void_invoice :
      Books → Sales → Text → Option IsoDate → Text → Fallible (Books × Sales)
  void_invoice books sales id date now = do
    invoice ← find_invoice sales id
    fail_if (is_void invoice.state) (refused already_void)
    elim (is_draft invoice.state) [
      | true ↦ ok (
        books,
        record sales {
          invoices =
              replace_invoice id (record invoice { state = InvoiceState.void }) sales.invoices;
        },
      )
      | false ↦ do
        fail_if (ltb_ℤ (pos 0) (invoice_paid sales id none)) (refused payments_applied)
        (reversed_books, entry) ←
            reverse_of books invoice.entry_id date (codes "Void invoice " ++ invoice.number) now
        let next : Invoice = record invoice {
          state = InvoiceState.void;
          void_entry_id = some entry.id;
        }
        ok (reversed_books, record sales { invoices = replace_invoice id next sales.invoices })
    ]

-- ===== src/Sales/Tests/Reports.antt =====
-- The theorems about the estimates and the reports of packages/sales/src at a small business.
use pnw.Base.{◌≡◌, refl, none, some, List, [], ◌∷◌}
use pnw.Data.Int.{ℤ, pos, ◌+ℤ◌}
use pnw.Data.Result.{ok}
use pnw.Data.Sort.{total}
use pnw.Data.Text.{Text, codes}
use pnw.Ledger.Tests.Samples.{no_entry}
use pnw.Ledger.Accounts.{SystemRole}
use pnw.Ledger.Books.State.{Books, Entry, Line}
use pnw.Ledger.Books.Chart.{find_system_account, balance_of}
use pnw.Sales.State.{Sales, Estimate, EstimateState, Invoice, InvoiceState, empty_sales}
use pnw.Sales.Aging.{
  AgingItem, AgingBucket, AgingRow, Aging, aging, age_items, age_item, bucket_for, add_to_row,
  empty_row,
}
use pnw.Sales.Aging.Totals.{amount_in, sum_of_buckets, aging-adds_up}
use pnw.Sales.Estimates.{convert_estimate_to_invoice, find_estimate, same_state, state_index}
use pnw.Sales.Estimates.Once.{IsConverted, IsHeld, IsReturned, convert-IsHeld}
use pnw.Sales.Tax.{SalesTaxReport, sales_tax_report, sales_tax_owed, walk_entry, credit_of}
use pnw.Sales.Tax.Owed.{EndsBy, sales_tax_report-owed}
use pnw.Sales.Tests.Samples.{line, customer, invoice, shop, tax_payable, sales_program}

-- Two open invoices of one customer, one of them 31 days late.
abbrev items : List AgingItem
items =
    record { party_id = codes "cust-1"; due_date = codes "2026-10-15"; balance = pos 100 }
    ∷ record { party_id = codes "cust-1"; due_date = codes "2026-12-01"; balance = pos 50 }
    ∷ []

abbrev aged_row : AgingRow
aged_row = record empty_row { current = pos 50; days_31_to_60 = pos 100; total = pos 150 }

abbrev report : Aging
report = record {
  as_of = codes "2026-11-15";
  totals = aged_row;
  by_party = (codes "cust-1", aged_row) ∷ [];
}

aged : aging (codes "2026-11-15") items ≡ ok report
unfolding sales_program aging age_items age_item bucket_for add_to_row
aged = refl

aging-adds_up_example :
    (sum_of_buckets aged_row ≡ pos 150)
    × (pos 150 ≡ total (λ i. i.balance) items)
    × ((k : AgingBucket)
        → total (λ (_, row). amount_in k row) report.by_party ≡ amount_in k aged_row)
    × (total (λ (_, row). row.total) report.by_party ≡ pos 150)
aging-adds_up_example = aging-adds_up (codes "2026-11-15") items report aged

abbrev estimate : Estimate
estimate = record {
  id = codes "est-1";
  number = codes "EST-0001";
  customer_id = codes "cust-1";
  date = codes "2026-10-15";
  expiry_date = codes "2026-11-14";
  lines = line ∷ [];
  tax_rate_bp = 825;
  memo = none;
  state = EstimateState.accepted;
  invoice_id = none;
}

abbrev quoted : Sales
quoted = record empty_sales {
  customers = customer ∷ [];
  estimates = estimate ∷ [];
  next_estimate = 2;
}

abbrev from_quote : Invoice
from_quote = record (invoice InvoiceState.draft) { estimate_id = some (codes "est-1") }

abbrev converted : Sales
converted = record quoted {
  invoices = from_quote ∷ [];
  next_invoice = 2;
  estimates =
      record estimate { state = EstimateState.converted; invoice_id = some (codes "inv-1") } ∷ [];
}

conversion :
    convert_estimate_to_invoice shop quoted (codes "est-1") none ≡ ok (converted, from_quote)
unfolding sales_program convert_estimate_to_invoice find_estimate same_state state_index
conversion = refl

convert-IsHeld_example :
    IsConverted converted (codes "est-1") from_quote
    × IsHeld converted (codes "est-1")
    × IsReturned converted (codes "est-1") from_quote
convert-IsHeld_example =
    convert-IsHeld shop quoted (codes "est-1") none converted from_quote conversion

-- Books with one sale of 1.00 and 8 cents of tax.
abbrev ledger_line : Text → ℤ → ℤ → Line
ledger_line id debit credit = record {
  account_id = id;
  debit = debit;
  credit = credit;
  memo = none;
  name = none;
  tags = none;
}

abbrev sale : Entry
sale = record no_entry {
  body = record no_entry.body {
    date = codes "2026-10-15";
    lines =
        ledger_line (codes "bank") (pos 108) (pos 0)
        ∷ ledger_line (codes "work") (pos 0) (pos 100)
        ∷ ledger_line (codes "tax") (pos 0) (pos 8)
        ∷ [];
  };
}

abbrev sold : Books
sold = record shop { entries = sale ∷ [] }

abbrev compare_texts : Text → Text → ℤ
compare_texts a b = pos 0

abbrev tax_report : SalesTaxReport
tax_report = record {
  from = codes "2026-10-01";
  to = codes "2026-10-31";
  opening = pos 0;
  invoices = [];
  collected = pos 0;
  total_sales = pos 0;
  taxable_sales = pos 0;
  voided = pos 0;
  payments = [];
  paid = pos 0;
  adjustments = pos 8;
  owed = pos 8;
}

reported :
    sales_tax_report compare_texts sold empty_sales (codes "2026-10-01") (codes "2026-10-31")
    ≡ ok tax_report
unfolding sales_program sales_tax_report walk_entry credit_of
reported = refl

tax_found : find_system_account sold SystemRole.sales_tax_payable ≡ ok tax_payable
unfolding sales_program
tax_found = refl

in_time : EndsBy (codes "2026-10-31") sold.entries
unfolding sales_program
in_time = (refl, tt)

sales_tax_report-owed_example :
    (sales_tax_owed sold ≡ ok (pos 8)) × (pos 8 +ℤ balance_of sold (codes "tax") ≡ pos 0)
sales_tax_report-owed_example =
    sales_tax_report-owed compare_texts sold empty_sales (codes "2026-10-01") (codes "2026-10-31")
      tax_report tax_payable in_time tax_found reported

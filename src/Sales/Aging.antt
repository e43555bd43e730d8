-- ===== src/Sales/Aging.antt =====
-- packages/sales/src/sales.ts: open balances by how far past due they are, and the sales tax charged.
pub mod Totals
use pnw.Base.{
  ℕ, ◌+◌, Bool, true, false, ◌&&◌, ◌||◌, not, Option, none, some, List, [], ◌∷◌, map, select,
  or_else, if◌then◌else◌,
}
use pnw.Data.Int.{ℤ, pos, ◌+ℤ◌, leb_ℤ, eqb_ℤ}
use pnw.Data.Result.{ok, err, ◌>>=◌, traverse}
use pnw.Data.Text.{Text, is_truthy}
use pnw.Data.Text.Order.{text_lt, text_le}
use pnw.Data.Dict.{Dict, lookup, insert}
use pnw.Ledger.Money.{Cents}
use pnw.Ledger.Periods.{IsoDate, assert_date}
use pnw.Sales.Errors.{Fallible, from_ledger}
use pnw.Sales.Dates.{days_between}
use pnw.Sales.State.{Invoice, Bill, Sales}
use pnw.Sales.Invoices.{invoice_totals, is_sent}
use pnw.Sales.Balances.{invoice_balance, bill_balance}

pub data AgingBucket : Type 0 where
  current days_1_to_30 days_31_to_60 days_61_to_90 over_90 : AgingBucket

pub record AgingRow : Type 0 where
  pub current : Cents
  pub days_1_to_30 : Cents
  pub days_31_to_60 : Cents
  pub days_61_to_90 : Cents
  pub over_90 : Cents
  pub total : Cents

abbrev pub empty_row : AgingRow
empty_row = record {
  current = pos 0;
  days_1_to_30 = pos 0;
  days_31_to_60 = pos 0;
  days_61_to_90 = pos 0;
  over_90 = pos 0;
  total = pos 0;
}

unfoldable pub bucket_for : ℤ → AgingBucket
bucket_for days_past_due =
    if leb_ℤ days_past_due (pos 0)
    then AgingBucket.current
    else if leb_ℤ days_past_due (pos 30)
    then AgingBucket.days_1_to_30
    else if leb_ℤ days_past_due (pos 60)
    then AgingBucket.days_31_to_60
    else if leb_ℤ days_past_due (pos 90)
    then AgingBucket.days_61_to_90
    else AgingBucket.over_90

-- `row[bucket] += balance`
abbrev pub add_to_bucket : AgingBucket → Cents → AgingRow → AgingRow
add_to_bucket AgingBucket.current balance row = record row { current = row.current +ℤ balance }
add_to_bucket AgingBucket.days_1_to_30 balance row = record row {
  days_1_to_30 = row.days_1_to_30 +ℤ balance;
}
add_to_bucket AgingBucket.days_31_to_60 balance row = record row {
  days_31_to_60 = row.days_31_to_60 +ℤ balance;
}
add_to_bucket AgingBucket.days_61_to_90 balance row = record row {
  days_61_to_90 = row.days_61_to_90 +ℤ balance;
}
add_to_bucket AgingBucket.over_90 balance row = record row { over_90 = row.over_90 +ℤ balance }

unfoldable pub add_to_row : AgingBucket → Cents → AgingRow → AgingRow
add_to_row bucket balance row =
    let filled = add_to_bucket bucket balance row in
    record filled { total = filled.total +ℤ balance }

pub record AgingItem : Type 0 where
  pub party_id : Text
  pub due_date : IsoDate
  pub balance : Cents

-- The rows of the parties stand under their ids, in the order of their first open balance.
pub record Aging : Type 0 where
  pub as_of : IsoDate
  pub totals : AgingRow
  pub by_party : Dict AgingRow

abbrev pub add_item : AgingItem → AgingBucket → Aging → Aging
add_item item bucket report =
    let row = or_else (lookup item.party_id report.by_party) empty_row in
    record report {
      totals = add_to_row bucket item.balance report.totals;
      by_party = insert item.party_id (add_to_row bucket item.balance row) report.by_party;
    }

-- One round of the loop: an item that owes nothing is skipped.
unfoldable pub age_item : AgingItem → Aging → Fallible Aging
age_item item report =
    if eqb_ℤ item.balance (pos 0)
    then ok report
    else (from_ledger (days_between item.due_date report.as_of) >>= λ days.
        ok (add_item item (bucket_for days) report))

unfoldable pub age_items : List AgingItem → Aging → Fallible Aging
age_items [] report = ok report
age_items (item ∷ items) report = age_item item report >>= λ next. age_items items next

unfoldable pub aging : IsoDate → List AgingItem → Fallible Aging
unfolding age_items
aging as_of items = age_items items (record { as_of = as_of; totals = empty_row; by_party = [] })

abbrev pub invoice_item : Sales → IsoDate → Invoice → Fallible AgingItem
invoice_item sales as_of i = invoice_balance sales i (some as_of) >>= λ balance.
    ok record { party_id = i.customer_id; due_date = i.due_date; balance = balance }

unfoldable pub ar_aging : Sales → IsoDate → Fallible Aging
ar_aging sales as_of = do
  _ ← from_ledger (assert_date as_of)
  items ←
      traverse (invoice_item sales as_of)
        (select (λ i. is_sent i.state && text_le i.date as_of) sales.invoices)
  aging as_of items

abbrev pub bill_item : Sales → IsoDate → Bill → AgingItem
bill_item sales as_of b = record {
  party_id = b.vendor_id;
  due_date = b.due_date;
  balance = bill_balance sales b (some as_of);
}

unfoldable pub ap_aging : Sales → IsoDate → Fallible Aging
ap_aging sales as_of = do
  _ ← from_ledger (assert_date as_of)
  aging as_of (
      map (bill_item sales as_of)
        (select (λ b. not (is_truthy b.void_entry_id) && text_le b.date as_of) sales.bills))

pub record SalesTaxSummary : Type 0 where
  pub invoices : ℕ
  pub total_sales : Cents
  pub taxable_sales : Cents
  pub tax : Cents

unfoldable pub collect_tax : List Invoice → SalesTaxSummary → Fallible SalesTaxSummary
collect_tax [] out = ok out
collect_tax (inv ∷ invoices) out = do
  t ← invoice_totals inv.lines inv.tax_rate_bp
  collect_tax invoices (record {
    invoices = out.invoices + 1;
    total_sales = out.total_sales +ℤ t.subtotal;
    taxable_sales = out.taxable_sales +ℤ t.taxable;
    tax = out.tax +ℤ t.tax;
  })

-- The tax of the invoices that are sent and dated in the range.
unfoldable pub sales_tax_collected : Sales → IsoDate → IsoDate → Fallible SalesTaxSummary
unfolding collect_tax
sales_tax_collected sales from to = do
  _ ← from_ledger (assert_date from)
  _ ← from_ledger (assert_date to)
  collect_tax
      (select (λ i. is_sent i.state && not (text_lt i.date from) && not (text_lt to i.date))
        sales.invoices)
      (record { invoices = 0; total_sales = pos 0; taxable_sales = pos 0; tax = pos 0 })

-- ===== src/Sales/Tests/Invoices.antt =====
-- The theorems about the invoices and payments of packages/sales/src/sales.ts at a small business.
use pnw.Base.{ℕ, ◌+◌, ◌*◌, ◌≤◌, ◌<◌, ◌≡◌, ◌≢◌, refl, arith, none, [], ◌∷◌, Bool-cases, inl, inr}
use pnw.Data.Int.{pos, ◌≤ℤ◌, ◌+ℤ◌}
use pnw.Data.Result.{ok, err}
use pnw.Data.Text.{codes, text_eq}
use pnw.Ledger.Errors.{unbalanced}
use pnw.Ledger.Tests.Samples.{now}
use pnw.Sales.Errors.{in_ledger}
use pnw.Sales.Amounts.{parse_quantity}
use pnw.Sales.State.{InvoiceState}
use pnw.Sales.Invoices.{find_invoice, invoice_totals, line_amount, InvoiceTotals}
use pnw.Sales.Invoices.Bounds.{IsTotal, invoice_totals-IsTotal, line_amount-nearest}
use pnw.Sales.Balances.{invoice_paid, invoice_balance, amount_applied}
use pnw.Sales.Posting.{send_invoice}
use pnw.Sales.Posting.Sent.{send_invoice-ne-unbalanced}
use pnw.Sales.Payments.Applied.{put_on}
use pnw.Sales.Payments.Settled.{IsSettled}
use pnw.Sales.Payments.Kept.{
  receive_payment-IsSettled, receive_payment-paid, IsVoided, void_payment-IsSettled,
}
use pnw.Sales.Tests.Samples.{
  hashes, line, invoice, shop, with_invoice, sales_program, part, received₁, received, voided₁,
  voided,
}

-- 2.5 at 19.99 is 49.98, half a cent up; 8.25% of it is 4.12.
amount_of_line : line_amount line ≡ ok (pos 4998)
unfolding sales_program
amount_of_line = refl

quantity_of_line : parse_quantity line.quantity ≡ ok 250
unfolding sales_program
quantity_of_line = refl

abbrev sums : InvoiceTotals
sums = record { subtotal = pos 4998; taxable = pos 4998; tax = pos 412; total = pos 5410 }

totals_of_line : invoice_totals (line ∷ []) 825 ≡ ok sums
unfolding sales_program
totals_of_line = refl

line_amount-nearest_example :
    (n : ℕ) × (pos 4998 ≡ pos n) × (100 * n ≤ 250 * 1999 + 50) × (250 * 1999 < 100 * n + 50)
line_amount-nearest_example =
    line_amount-nearest line 250 (pos 4998) (omega arith) quantity_of_line amount_of_line

invoice_totals-IsTotal_example : IsTotal 825 sums
invoice_totals-IsTotal_example =
    invoice_totals-IsTotal (line ∷ []) 825 sums (omega arith, tt) (omega arith) totals_of_line

send_invoice-ne-unbalanced_example :
    send_invoice hashes shop (with_invoice InvoiceState.draft) (codes "inv-1") now
    ≢ err (in_ledger unbalanced)
send_invoice-ne-unbalanced_example =
    send_invoice-ne-unbalanced hashes shop (with_invoice InvoiceState.draft) (codes "inv-1") now

-- Before any payment every balance is the total, or 0.
owed :
    invoice_balance (with_invoice InvoiceState.sent) (invoice InvoiceState.sent) none
    ≡ ok (pos 5410)
unfolding sales_program
owed = refl

unpaid : IsSettled (with_invoice InvoiceState.sent)
unfolding find_invoice
unpaid = record {
  nonneg = tt;
  not_below = λ id. elim (Bool-cases (text_eq (codes "inv-1") id)) [
    | inl here ↦ rw (here, owed) (omega arith)
    | inr missing ↦ rw missing tt
  ];
}

receive_payment-IsSettled_example : IsSettled received₁.1
receive_payment-IsSettled_example =
    receive_payment-IsSettled hashes shop (with_invoice InvoiceState.sent) part now received₁.0
      received₁.1 received₁.2 received₁.3 unpaid received

receive_payment-paid_example :
    (amount_applied received₁.2.applications ≤ℤ received₁.2.amount)
    × (invoice_paid received₁.1 (codes "inv-1") none
        ≡ invoice_paid (with_invoice InvoiceState.sent) (codes "inv-1") none
          +ℤ put_on (codes "inv-1") received₁.2.applications)
receive_payment-paid_example =
    receive_payment-paid hashes shop (with_invoice InvoiceState.sent) part now received₁.0
      received₁.1 received₁.2 received₁.3 (codes "inv-1") received

void_payment-IsSettled_example :
    IsSettled voided₁.1
    × IsVoided hashes received₁.0 voided₁.0 received₁.1 voided₁.1 (codes "pmt-1") none now
void_payment-IsSettled_example =
    void_payment-IsSettled hashes received₁.0 received₁.1 (codes "pmt-1") none now voided₁.0
      voided₁.1 receive_payment-IsSettled_example voided

-- ===== src/Sales/Posting/Sent.antt =====
-- packages/sales/src/sales.ts: sending an invoice is not refused because its entry does not balance.
use pnw.Base.{
  ℕ, ◌≢◌, sym, ◌∙◌, not, Option, List, [], ◌∷◌, arith, length, ◌==◌, Option-cases, inl, inr,
  or_else,
}
use pnw.Data.Int.{pos, leb_ℤ, Number}
use pnw.Data.Result.{
  ok, err, traverse, fail_if, >>=-ne-err, fail_if-ne-err, or_fail-ne-err, traverse-ne-err,
  ok-ne-err,
}
use pnw.Data.Text.{Text, truthy}
use pnw.Data.Text.Order.{text_lt}
use pnw.Ledger.Errors.{Ledger, unbalanced}
use pnw.Ledger.Money.{Cents}
use pnw.Ledger.Tags.{clean_tags}
use pnw.Ledger.Periods.{IsoDate, assert_date}
use pnw.Ledger.Accounts.{SystemRole}
use pnw.Ledger.Books.State.{Books, Hashes, NameRef}
use pnw.Ledger.Books.Chart.{find_system_account}
use pnw.Ledger.Books.Journal.{post_entry}
use pnw.Ledger.Books.Journal.Unbalanced.{post_entry-ne-unbalanced, assert_date-ne-unbalanced}
use pnw.Sales.Errors.{
  SalesError, refused, in_ledger, from_ledger, already_sent, empty_total, due_before_date, no_lines,
}
use pnw.Sales.Dates.{add_days, civil_of}
use pnw.Sales.Amounts.{clean_tax_rate, parse_quantity}
use pnw.Sales.State.{Sales, Invoice, InvoiceLine, InvoiceLineInput, InvoiceInput, terms_days}
use pnw.Sales.Parties.{find_customer}
use pnw.Sales.Invoices.{
  clean_invoice, clean_invoice_lines, clean_line, find_account, find_invoice, is_draft,
  date_or_later, invoice_totals, line_amount,
}
use pnw.Sales.Posting.{as_input, invoice_entry, income_lines, tax_lines, customer_ref, send_invoice}
use pnw.Sales.Posting.Balanced.{invoice_entry-asked, clean_invoice-IsPriced}

-- The failure that does not occur.
abbrev not_even : SalesError
not_even = in_ledger unbalanced

from_ledger-ne {ℓ} : {A : Type ℓ} (r : Ledger A) → r ≢ err unbalanced → from_ledger r ≢ err not_even
from_ledger-ne (ok a) h e = cc
from_ledger-ne (err c) h e = h (cc)

add_days-ne : (d : IsoDate) (n : ℕ) → from_ledger (add_days d n) ≢ err not_even
unfolding add_days
add_days-ne d n = from_ledger-ne (add_days d n) (
    >>=-ne-err (civil_of d) _ unbalanced
      (>>=-ne-err (assert_date d) _ unbalanced (assert_date-ne-unbalanced d)
        (λ t _ e. ground arith))
      (λ c _. ok-ne-err _ unbalanced))

date_or_later-ne :
    (given : Option IsoDate) (d : IsoDate) (n : ℕ) → date_or_later given d n ≢ err not_even
date_or_later-ne given d n = elim (Option-cases (truthy given)) [
  | inl missing ↦ rw (missing, date_or_later) (add_days-ne d n)
  | inr (t, there) ↦
      rw (there, date_or_later) (from_ledger-ne (assert_date t) (assert_date-ne-unbalanced t))
]

clean_line-ne : (books : Books) (l : InvoiceLineInput) → clean_line books l ≢ err not_even
unfolding clean_line find_account parse_quantity clean_tags
clean_line-ne books l e = ground arith

clean_tax_rate-ne : (n : Option Number) → clean_tax_rate n ≢ err not_even
unfolding clean_tax_rate
clean_tax_rate-ne n e = ground arith

clean_invoice_lines-ne :
    (books : Books) (ls : List InvoiceLineInput) → clean_invoice_lines books ls ≢ err not_even
unfolding clean_invoice_lines
clean_invoice_lines-ne books ls =
    >>=-ne-err (fail_if (length ls == 0) (refused no_lines)) _ not_even
      (fail_if-ne-err _ _ _ (λ e. cc))
      (λ _ _. traverse-ne-err (clean_line books) ls not_even (clean_line-ne books))

clean_invoice-ne :
    (books : Books) (sales : Sales) (i : InvoiceInput) → clean_invoice books sales i ≢ err not_even
unfolding clean_invoice find_customer
clean_invoice-ne books sales i =
    >>=-ne-err (find_customer sales i.customer_id) _ not_even (or_fail-ne-err _ _ _ (λ e. cc))
      (λ c _.
        >>=-ne-err (from_ledger (assert_date i.date)) _ not_even
          (from_ledger-ne (assert_date i.date) (assert_date-ne-unbalanced i.date))
          (λ date _.
            >>=-ne-err (date_or_later i.due_date date (terms_days (or_else i.terms c.terms))) _
              not_even (date_or_later-ne i.due_date date _)
              (λ due _.
                >>=-ne-err (fail_if (text_lt due date) (refused due_before_date)) _ not_even
                  (fail_if-ne-err _ _ _ (λ e. cc))
                  (λ _ _.
                    >>=-ne-err (clean_tax_rate i.tax_rate_bp) _ not_even
                      (clean_tax_rate-ne i.tax_rate_bp)
                      (λ bp _.
                        >>=-ne-err (clean_invoice_lines books i.lines) _ not_even
                          (clean_invoice_lines-ne books i.lines)
                          (λ lines _. ok-ne-err _ not_even))))))

line_amount-ne : (l : InvoiceLine) → line_amount l ≢ err not_even
unfolding line_amount parse_quantity
line_amount-ne l e = ground arith

invoice_totals-ne : (ls : List InvoiceLine) (bp : ℕ) → invoice_totals ls bp ≢ err not_even
unfolding invoice_totals
invoice_totals-ne ls bp =
    >>=-ne-err (traverse line_amount ls) _ not_even
      (traverse-ne-err line_amount ls not_even line_amount-ne) (λ as' _. ok-ne-err _ not_even)

system-ne :
    (books : Books) (r : SystemRole) → from_ledger (find_system_account books r) ≢ err not_even
unfolding find_system_account
system-ne books r = from_ledger-ne (find_system_account books r) (or_fail-ne-err _ _ _ (λ e. cc))

income_lines-ne : (name : NameRef) (ls : List InvoiceLine) → income_lines name ls ≢ err not_even
income_lines-ne name [] = ok-ne-err _ not_even
income_lines-ne name (l ∷ ls) = >>=-ne-err (line_amount l) _ not_even (line_amount-ne l) (λ a _.
    >>=-ne-err (income_lines name ls) _ not_even (income_lines-ne name ls)
      (λ rest _. ok-ne-err _ not_even))

tax_lines-ne :
    (books : Books) (name : NameRef) (tax : Cents) → tax_lines books name tax ≢ err not_even
tax_lines-ne books name tax e = ground (arith, system-ne books SystemRole.sales_tax_payable)

invoice_entry-ne :
    (books : Books) (i : Invoice) (tax total : Cents)
    → invoice_entry books i tax total ≢ err not_even
unfolding invoice_entry
invoice_entry-ne books i tax total =
    >>=-ne-err (from_ledger (find_system_account books SystemRole.accounts_receivable)) _ not_even
      (system-ne books SystemRole.accounts_receivable)
      (λ r _.
        >>=-ne-err (income_lines (customer_ref i.customer_id) i.lines) _ not_even
          (income_lines-ne _ i.lines)
          (λ income _.
            >>=-ne-err (tax_lines books (customer_ref i.customer_id) tax) _ not_even
              (tax_lines-ne books _ tax) (λ taxes _. ok-ne-err _ not_even)))

module _ (h : Hashes) where
  -- Sending an invoice is never refused because the debits and credits of its entry differ: the total
  -- that is debited is what the income lines and the sales tax credit.
  pub send_invoice-ne-unbalanced :
      (books : Books) (sales : Sales) (id now : Text)
      → send_invoice h books sales id now ≢ err (in_ledger unbalanced)
  unfolding send_invoice find_invoice
  send_invoice-ne-unbalanced books sales id now =
      >>=-ne-err (find_invoice sales id) _ not_even (or_fail-ne-err _ _ _ (λ e. cc)) (λ i _.
        >>=-ne-err (fail_if (not (is_draft i.state)) (refused already_sent)) _ not_even
          (fail_if-ne-err _ _ _ (λ e. cc))
          (λ _ _.
            >>=-ne-err (clean_invoice books sales (as_input i)) _ not_even
              (clean_invoice-ne books sales (as_input i))
              (λ c hc.
                let (priced, small) = clean_invoice-IsPriced books sales i c hc in
                >>=-ne-err (invoice_totals i.lines i.tax_rate_bp) _ not_even
                  (invoice_totals-ne i.lines i.tax_rate_bp)
                  (λ t ht.
                    >>=-ne-err (fail_if (leb_ℤ t.total (pos 0)) (refused empty_total)) _ not_even
                      (fail_if-ne-err _ _ _ (λ e. cc))
                      (λ _ _.
                        >>=-ne-err (invoice_entry books i t.tax t.total) _ not_even
                          (invoice_entry-ne books i t.tax t.total)
                          (λ input hi.
                            let (d, c) = invoice_entry-asked books i t input priced small ht hi in
                            >>=-ne-err (from_ledger (post_entry h books input now)) _ not_even
                              (from_ledger-ne (post_entry h books input now)
                                (post_entry-ne-unbalanced h books input now (d ∙ sym c)))
                              (λ r _. ok-ne-err _ not_even)))))))

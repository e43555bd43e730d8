-- ===== src/Sales/Posting/Balanced.antt =====
-- packages/sales/src/sales.ts: the entry of an invoice that is sent has equal debits and credits.
use pnw.Base.{
  ℕ, length, ◌==◌, ◌≤◌, ◌≡◌, refl, sym, ap, ◌∙◌, subst, not, none, some, List, [], ◌∷◌, ◌++◌, map,
  arith, All, Bool-cases, inl, inr, if◌then◌else◌,
}
use pnw.Data.Int.{pos, ◌≤ℤ◌, ◌+ℤ◌, ltb_ℤ, int_laws, eq_of_parts, zero-+ℤ, +ℤ-zero, integer}
use pnw.Data.Result.{ok, ◌>>=◌, traverse, fail_if, >>=-eq-ok, ok-injective}
use pnw.Data.Sort.{total, total-append}
use pnw.Data.Text.{truthy}
use pnw.Ledger.Money.{Cents, sum_cents}
use pnw.Ledger.Accounts.{SystemRole}
use pnw.Ledger.Books.State.{Books, EntryInput, LineInput, NameRef}
use pnw.Ledger.Books.Chart.{find_system_account}
use pnw.Ledger.Books.Journal.Validity.{sum_cents-cons}
use pnw.Ledger.Books.Journal.Unbalanced.{asked, asked_debits, asked_credits}
use pnw.Data.Text.Order.{text_lt}
use pnw.Ledger.Periods.{assert_date}
use pnw.Ledger.Accounts.{BaseType, same_base, base_of}
use pnw.Ledger.Books.State.{bigint}
use pnw.Sales.Amounts.{clean_tax_rate}
use pnw.Sales.Parties.{find_customer}
use pnw.Sales.Errors.{Fallible, SalesError, from_ledger}
use pnw.Sales.State.{InvoiceLine, Invoice, Sales, terms_days}
use pnw.Sales.Invoices.{
  line_amount, InvoiceTotals, totals_of, invoice_totals, clean_line, clean_invoice_lines,
  clean_invoice, CleanInvoice, checked_price, find_account, date_or_later,
}
use pnw.Sales.Invoices.Bounds.{IsPriced, IsTotal, invoice_totals-IsTotal, amounts-nonneg}
use pnw.Sales.Posting.{
  customer_ref, line_input, as_input, credit_line, income_lines, tax_lines, invoice_entry,
}

abbrev with_income : NameRef → InvoiceLine → Cents → List LineInput → List LineInput
with_income name l a rest =
    if ltb_ℤ (pos 0) a
    then credit_line l.account_id a (some name) (truthy (some l.description)) l.tags ∷ rest
    else rest

with_income-asked :
    (name : NameRef) (l : InvoiceLine) (a : Cents) (rest : List LineInput)
    → pos 0 ≤ℤ a
    → (asked_debits (with_income name l a rest) ≡ asked_debits rest)
      × (asked_credits (with_income name l a rest) ≡ a +ℤ asked_credits rest)
with_income-asked name l a rest nonneg = elim (Bool-cases (ltb_ℤ (pos 0) a)) [
  | inl more ↦ rw more (zero-+ℤ (asked_debits rest), refl)
  | inr nothing ↦ rw nothing (
    refl,
    let none_left : a ≡ pos 0 = ground (arith, eq_of_parts a (pos 0)) in
        rw none_left (sym (zero-+ℤ (asked_credits rest))),
  )
]

-- The income lines leave out only amounts of 0.
income_lines-asked :
    (name : NameRef) (lines : List InvoiceLine) (inputs : List LineInput) (amounts : List Cents)
    → income_lines name lines ≡ ok inputs
    → traverse line_amount lines ≡ ok amounts
    → All (λ a. pos 0 ≤ℤ a) amounts
    → (asked_debits inputs ≡ pos 0) × (asked_credits inputs ≡ sum_cents amounts)
unfolding sum_cents
income_lines-asked name [] inputs amounts hi ha nonneg =
    rw (sym (ok-injective [] inputs hi), sym (ok-injective [] amounts ha)) (refl, refl)
income_lines-asked name (l ∷ lines) inputs amounts hi ha nonneg =
    let (a, h1, h2) = >>=-eq-ok (line_amount l) _ hi in
    let (rest, h3, h4) = >>=-eq-ok (income_lines name lines) _ h2 in
    let (a', k1, k2) = >>=-eq-ok (line_amount l) _ ha in
    let (as', k3, k4) = >>=-eq-ok (traverse line_amount lines) (λ ys. ok (a' ∷ ys)) k2 in
    let same_a : a ≡ a' = ok-injective a a' (sym h1 ∙ k1) in
    let same_as = ok-injective (a' ∷ as') amounts k4 in
    let good : All (λ a. pos 0 ≤ℤ a) (a' ∷ as') =
      subst (All (λ a. pos 0 ≤ℤ a)) (sym same_as) nonneg in
    let (ds, cs) = income_lines-asked name lines rest as' h3 k3 good.1 in
    let (d, c) = with_income-asked name l a rest (subst (λ a. pos 0 ≤ℤ a) (sym same_a) good.0) in
    let same_inputs : with_income name l a rest ≡ inputs = ok-injective _ inputs h4 in
    (
      ap asked_debits (sym same_inputs) ∙ d ∙ ds,
      ap asked_credits (sym same_inputs)
          ∙ c
          ∙ rw (same_a, cs) (sym (sum_cents-cons a' as'))
          ∙ ap sum_cents same_as,
    )

abbrev tax_line : Books → NameRef → Cents → Fallible (List LineInput)
tax_line books name tax =
    from_ledger (find_system_account books SystemRole.sales_tax_payable) >>= λ a.
    ok (credit_line a.id tax (some name) none none ∷ [])

tax_lines-asked :
    (books : Books) (name : NameRef) (tax : Cents) (inputs : List LineInput)
    → pos 0 ≤ℤ tax
    → tax_lines books name tax ≡ ok inputs
    → (asked_debits inputs ≡ pos 0) × (asked_credits inputs ≡ tax)
tax_lines-asked books name tax inputs nonneg h = elim (Bool-cases (ltb_ℤ (pos 0) tax)) [
  | inl more ↦
      let h' : tax_line books name tax ≡ ok inputs =
        subst (λ b. (if b then tax_line books name tax else ok []) ≡ ok inputs) more h in
      let (a, _, made) =
        >>=-eq-ok (from_ledger (find_system_account books SystemRole.sales_tax_payable)) _ h' in
      let same = ok-injective (credit_line a.id tax (some name) none none ∷ []) inputs made in
      (ap asked_debits (sym same) ∙ zero-+ℤ _, ap asked_credits (sym same) ∙ +ℤ-zero tax)
  | inr nothing ↦
      let same : [] ≡ inputs = ok-injective {E = SalesError} [] inputs (ground arith) in
      let none_left : tax ≡ pos 0 = ground (arith, eq_of_parts tax (pos 0)) in
      (ap asked_debits (sym same), ap asked_credits (sym same) ∙ sym none_left)
]

asked-append :
    (w : LineInput → Cents) (xs ys : List LineInput) (a b : Cents)
    → total w xs ≡ a
    → total w ys ≡ b
    → total w (xs ++ ys) ≡ a +ℤ b
asked-append w xs ys a b ha hb = total-append w xs ys ∙ rw (ha, hb) refl

-- The entry of an invoice asks for a debit of the total, and for credits that add up to it.
pub invoice_entry-asked :
    (books : Books) (invoice : Invoice) (t : InvoiceTotals) (input : EntryInput)
    → All IsPriced invoice.lines
    → invoice.tax_rate_bp ≤ 10_000
    → invoice_totals invoice.lines invoice.tax_rate_bp ≡ ok t
    → invoice_entry books invoice t.tax t.total ≡ ok input
    → (asked_debits input.lines ≡ t.total) × (asked_credits input.lines ≡ t.total)
unfolding invoice_entry invoice_totals
invoice_entry-asked books invoice t input priced small ht hi =
    let bp = invoice.tax_rate_bp in
    let sound : IsTotal bp t = invoice_totals-IsTotal invoice.lines bp t priced small ht in
    let (amounts, ha, e) =
      >>=-eq-ok (traverse line_amount invoice.lines) (λ as'. ok (totals_of invoice.lines bp as'))
        ht in
    let same_t = ok-injective (totals_of invoice.lines bp amounts) t e in
    let (receivable, _, h1) =
      >>=-eq-ok (from_ledger (find_system_account books SystemRole.accounts_receivable)) _ hi in
    let (income, h2, h3) =
      >>=-eq-ok (income_lines (customer_ref invoice.customer_id) invoice.lines) _ h1 in
    let (taxes, h4, h5) =
      >>=-eq-ok (tax_lines books (customer_ref invoice.customer_id) t.tax) _ h3 in
    let same = ok-injective _ input h5 in
    let (di, ci) =
      income_lines-asked _ invoice.lines income amounts h2 ha
        (amounts-nonneg invoice.lines amounts priced ha) in
    let (dt, ct) = tax_lines-asked books _ t.tax taxes sound.tax_nonneg h4 in
    (
      ap (λ (i : EntryInput). asked_debits i.lines) (sym same)
          ∙ rw (asked-append (λ i. asked i.debit) income taxes _ _ di dt) (omega int_laws),
      ap (λ (i : EntryInput). asked_credits i.lines) (sym same)
          ∙ rw (asked-append (λ i. asked i.credit) income taxes _ _ ci ct) (
              zero-+ℤ _
              ∙ ap (λ s. s +ℤ t.tax) (ap (λ (t : InvoiceTotals). t.subtotal) same_t)
              ∙ sym sound.total_is_sum),
    )

clean_line-IsPriced :
    (books : Books) (l c : InvoiceLine) → clean_line books (line_input l) ≡ ok c → IsPriced l
unfolding clean_line
clean_line-IsPriced books l c h =
    let (acct, _, h1) = >>=-eq-ok (find_account books l.account_id) _ h in
    let (_, _, h2) = >>=-eq-ok (fail_if (not (same_base (base_of acct) BaseType.income)) _) _ h1 in
    let (p, hp, _) = >>=-eq-ok (checked_price (bigint l.unit_price)) _ h2 in ground arith

-- What `cleanInvoice` lets pass has prices that are not negative and a rate of at most 10,000.
clean_lines-IsPriced :
    (books : Books) (lines : List InvoiceLine) (clean : List InvoiceLine)
    → traverse (clean_line books) (map line_input lines) ≡ ok clean
    → All IsPriced lines
clean_lines-IsPriced books [] clean h = tt
clean_lines-IsPriced books (l ∷ lines) clean h =
    let (c, hc, h1) = >>=-eq-ok (clean_line books (line_input l)) _ h in
    let (cs, hcs, _) = >>=-eq-ok (traverse (clean_line books) (map line_input lines)) _ h1 in
    (clean_line-IsPriced books l c hc, clean_lines-IsPriced books lines cs hcs)

clean_tax_rate-small : (bp r : ℕ) → clean_tax_rate (some (integer (pos bp))) ≡ ok r → bp ≤ 10_000
unfolding clean_tax_rate
clean_tax_rate-small bp r h = ground arith

pub clean_invoice-IsPriced :
    (books : Books) (sales : Sales) (i : Invoice) (c : CleanInvoice)
    → clean_invoice books sales (as_input i) ≡ ok c
    → All IsPriced i.lines × (i.tax_rate_bp ≤ 10_000)
unfolding clean_invoice clean_invoice_lines
clean_invoice-IsPriced books sales i c h =
    let (customer, _, h1) = >>=-eq-ok (find_customer sales i.customer_id) _ h in
    let (date, _, h2) = >>=-eq-ok (from_ledger (assert_date i.date)) _ h1 in
    let (due, _, h3) = >>=-eq-ok (date_or_later (some i.due_date) date (terms_days i.terms)) _ h2 in
    let (_, _, h4) = >>=-eq-ok (fail_if (text_lt due date) _) _ h3 in
    let (bp, hb, h5) = >>=-eq-ok (clean_tax_rate (some (integer (pos i.tax_rate_bp)))) _ h4 in
    let (clean, hc, _) = >>=-eq-ok (clean_invoice_lines books (map line_input i.lines)) _ h5 in
    let (_, _, h6) = >>=-eq-ok (fail_if (length (map line_input i.lines) == 0) _) _ hc in
    (clean_lines-IsPriced books i.lines clean h6, clean_tax_rate-small i.tax_rate_bp bp hb)

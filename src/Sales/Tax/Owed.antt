-- ===== src/Sales/Tax/Owed.antt =====
-- packages/sales/src/salestax.ts: what a report says is owed is the balance of the account.
use pnw.Base.{
  ◌≡◌, refl, sym, ap, ◌∙◌, false, List, [], ◌∷◌, foldl, All, select, Bool-cases, inl, inr,
}
use pnw.Data.Int.{ℤ, pos, ◌+ℤ◌, ◌-ℤ◌, int_laws, parts_eq, zero-+ℤ}
use pnw.Data.Result.{ok, fail_if, traverse, >>=-eq-ok, ok-injective}
use pnw.Data.Text.{Text, text_eq}
use pnw.Data.Text.Order.{text_lt}
use pnw.Data.Dict.{Dict}
use pnw.Ledger.Money.{Cents}
use pnw.Ledger.Periods.{IsoDate, assert_date}
use pnw.Ledger.Accounts.{Account, SystemRole}
use pnw.Ledger.Books.State.{Books, Entry, Line}
use pnw.Ledger.Books.Chart.{find_system_account, balance_of, add_line, add_lines}
use pnw.Sales.Errors.{from_ledger}
use pnw.Sales.State.{Sales}
use pnw.Sales.Tax.{
  SalesTaxReport, TaxWalk, credit_from, credit_of, entry_map, entry_ids_of, walk_entry, tax_row,
  is_posted_in, report_of, sales_tax_report, sales_tax_owed,
}

credit_from-adds :
    (stp : Text) (ls : List Line) (t : Cents)
    → credit_from stp ls t ≡ t +ℤ credit_from stp ls (pos 0)
credit_from-adds stp [] t = omega int_laws
credit_from-adds stp (l ∷ ls) t = elim (Bool-cases (text_eq l.account_id stp)) [
  | inl hit ↦ rw hit (
      rw (credit_from-adds stp ls (t +ℤ l.credit -ℤ l.debit))
        (rw (credit_from-adds stp ls (pos 0 +ℤ l.credit -ℤ l.debit)) (omega int_laws)))
  | inr miss ↦ rw miss (credit_from-adds stp ls t)
]

-- Credits of an account and its balance, which counts debits, add up to nothing.
credit_from-add_lines :
    (stp : Text) (ls : List Line) (t bal : Cents)
    → t +ℤ bal ≡ pos 0
    → credit_from stp ls t +ℤ add_lines stp bal ls ≡ pos 0
unfolding add_line
credit_from-add_lines stp [] t bal even = even
credit_from-add_lines stp (l ∷ ls) t bal even = elim (Bool-cases (text_eq l.account_id stp)) [
  | inl hit ↦ rw hit (
      credit_from-add_lines stp ls (t +ℤ l.credit -ℤ l.debit) (bal +ℤ (l.debit -ℤ l.credit))
        (omega (int_laws, parts_eq _ _ even)))
  | inr miss ↦ rw miss (credit_from-add_lines stp ls t bal even)
]

abbrev owed_by : Text → List Entry → Cents → Cents
owed_by stp es owed = foldl (λ owed e. credit_from stp e.lines owed) owed es

owed_by-balance :
    (stp : Text) (es : List Entry) (owed bal : Cents)
    → owed +ℤ bal ≡ pos 0
    → owed_by stp es owed +ℤ foldl (λ bal e. add_lines stp bal e.lines) bal es ≡ pos 0
owed_by-balance stp [] owed bal even = even
owed_by-balance stp (e ∷ es) owed bal even =
    owed_by-balance stp es (credit_from stp e.lines owed) (add_lines stp bal e.lines)
      (credit_from-add_lines stp e.lines owed bal even)

-- No entry is dated after the end of the range.
abbrev pub EndsBy : IsoDate → List Entry → Type 0
EndsBy to = All (λ e. text_lt to e.date ≡ false)

module _ (stp : Text) (entries : Dict Entry) (invoice_entries : List Text) (from to : IsoDate) where
  abbrev walk : TaxWalk → List Entry → TaxWalk
  walk = foldl (walk_entry stp entries invoice_entries from to)

  abbrev walked : TaxWalk → Cents
  walked w = w.opening +ℤ w.movement

  walk_entry-owed :
      (w : TaxWalk) (e : Entry)
      → text_lt to e.date ≡ false
      → walked (walk_entry stp entries invoice_entries from to w e)
        ≡ credit_from stp e.lines (walked w)
  unfolding walk_entry credit_of
  walk_entry-owed w e in_time = sym (
      credit_from-adds stp e.lines (walked w) ∙ elim (Bool-cases (text_lt e.date from)) [
        | inl early ↦ rw early (omega int_laws)
        | inr later ↦ rw (later, in_time) (omega int_laws)
      ])

  walk-owed :
      (es : List Entry) (w : TaxWalk)
      → EndsBy to es
      → walked (walk w es) ≡ owed_by stp es (walked w)
  walk-owed [] w h = refl
  walk-owed (e ∷ es) w h =
      walk-owed es (walk_entry stp entries invoice_entries from to w e) h.1
      ∙ ap (owed_by stp es) (walk_entry-owed w e h.0)

sales_tax_owed-balance :
    (books : Books) (owed : Cents) (stp : Account)
    → find_system_account books SystemRole.sales_tax_payable ≡ ok stp
    → sales_tax_owed books ≡ ok owed
    → owed +ℤ balance_of books stp.id ≡ pos 0
unfolding sales_tax_owed balance_of
sales_tax_owed-balance books owed stp found e =
    let (stp', found', e') =
      >>=-eq-ok (from_ledger (find_system_account books SystemRole.sales_tax_payable))
        (λ stp. ok (owed_by stp.id books.entries (pos 0))) e in
    let same : stp' ≡ stp = ok-injective stp' stp (sym found' ∙ ap from_ledger found) in
    let amount = ok-injective (owed_by stp'.id books.entries (pos 0)) owed e' in
    rw (sym amount, same) (owed_by-balance stp.id books.entries (pos 0) (pos 0) (omega int_laws))

module _ (locale_compare : Text → Text → ℤ) where
  -- Where no entry is dated after the end of the range, what the report says is owed is what is owed
  -- now, and it is the balance of Sales Tax Payable on the credit side.
  pub sales_tax_report-owed :
      (books : Books) (sales : Sales) (from to : IsoDate) (report : SalesTaxReport) (stp : Account)
      → EndsBy to books.entries
      → find_system_account books SystemRole.sales_tax_payable ≡ ok stp
      → sales_tax_report locale_compare books sales from to ≡ ok report
      → (sales_tax_owed books ≡ ok report.owed) × (report.owed +ℤ balance_of books stp.id ≡ pos 0)
  unfolding sales_tax_report sales_tax_owed
  sales_tax_report-owed books sales from to report stp in_time found e =
      let (_, _, e1) = >>=-eq-ok (from_ledger (assert_date from)) _ e in
      let (_, _, e2) = >>=-eq-ok (from_ledger (assert_date to)) _ e1 in
      let (_, _, e3) = >>=-eq-ok (fail_if (text_lt to from) _) _ e2 in
      let (stp', found', e4) =
        >>=-eq-ok (from_ledger (find_system_account books SystemRole.sales_tax_payable)) _ e3 in
      let (rows, _, e5) =
        >>=-eq-ok (traverse tax_row (select (is_posted_in from to) sales.invoices)) _ e4 in
      let start : TaxWalk = record {
        opening = pos 0;
        movement = pos 0;
        voided = pos 0;
        payments = [];
      } in
      let w =
        walk stp'.id (entry_map books.entries) (entry_ids_of sales.invoices) from to start
          books.entries in
      let made = ok-injective (report_of locale_compare from to w rows) report e5 in
      let owed : owed_by stp'.id books.entries (pos 0) ≡ report.owed =
        ap (owed_by stp'.id books.entries) (sym (zero-+ℤ (pos 0)))
        ∙ sym (
            walk-owed stp'.id (entry_map books.entries) (entry_ids_of sales.invoices) from to
              books.entries start in_time)
        ∙ ap (λ (r : SalesTaxReport). r.owed) made in
      let now : sales_tax_owed books ≡ ok report.owed = rw found' (ap ok owed) in
      (now, sales_tax_owed-balance books report.owed stp found now)

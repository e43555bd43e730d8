-- ===== src/Sales/Payments/Settled.antt =====
-- packages/sales/src/sales.ts: no invoice is paid more than its total, and receiving and voiding
-- payments keep it so.
use pnw.Base.{
  ◌≡◌, refl, sym, ap, ◌∙◌, subst, Bool, true, false, not, none, List, [], ◌∷◌, ◌++◌, map, find,
  select, arith, some, All, All-find, Bool-cases, inl, inr, if◌then◌else◌,
}
use pnw.Data.Int.{pos, ◌≤ℤ◌, ◌+ℤ◌, ◌-ℤ◌, int_laws, parts_eq}
use pnw.Data.Result.{ok, err, ◌>>=◌, fail_if, >>=-eq-ok, ok-injective, or_fail-eq-ok, Result-cases}
use pnw.Data.Text.{Text, text_eq, text_eq_iff, is_truthy}
use pnw.Ledger.Money.{Cents, sum_cents}
use pnw.Ledger.Books.Journal.Validity.{sum_cents-cons}
use pnw.Sales.Errors.{SalesError, Fallible}
use pnw.Sales.State.{Application, Invoice, Payment, Sales}
use pnw.Sales.Invoices.{InvoiceTotals, invoice_totals, find_invoice, is_sent}
use pnw.Sales.Balances.{amounts_for, all_amounts, invoice_paid, invoice_balance, is_by}
use pnw.Sales.Payments.{payable_on, replace_payment}
use pnw.Sales.Payments.Applied.{put_on}

-- The payments of a list that count, and what they put on a target.
abbrev pub is_live : Payment → Bool
is_live p = not (is_truthy p.void_entry_id)

abbrev pub paid_by : Text → List Payment → Cents
paid_by id [] = pos 0
paid_by id (p ∷ ps) =
    let rest = paid_by id ps in if is_live p then put_on id p.applications +ℤ rest else rest

sum_cents-append : (xs ys : List Cents) → sum_cents (xs ++ ys) ≡ sum_cents xs +ℤ sum_cents ys
unfolding sum_cents
sum_cents-append [] ys = omega int_laws
sum_cents-append (x ∷ xs) ys =
    sum_cents-cons x (xs ++ ys)
    ∙ rw (sum_cents-append xs ys) (omega (int_laws, parts_eq _ _ (sum_cents-cons x xs)))

paid-list :
    (id : Text) (ps : List Payment)
    → sum_cents (
        all_amounts id
          (map (λ p. p.applications) (select (λ p. is_by p.date none) (select is_live ps))))
      ≡ paid_by id ps
unfolding sum_cents
paid-list id [] = refl
paid-list id (p ∷ ps) = elim (Bool-cases (is_live p)) [
  | inl live ↦
      rw live (sum_cents-append (amounts_for id p.applications) _ ∙ rw (paid-list id ps) refl)
  | inr gone ↦ rw gone (paid-list id ps)
]

pub invoice_paid-paid_by :
    (sales : Sales) (id : Text) → invoice_paid sales id none ≡ paid_by id sales.payments
unfolding invoice_paid
invoice_paid-paid_by sales id = paid-list id sales.payments

pub paid_by-snoc :
    (id : Text) (ps : List Payment) (p : Payment)
    → is_live p ≡ true
    → paid_by id (ps ++ p ∷ []) ≡ paid_by id ps +ℤ put_on id p.applications
paid_by-snoc id [] p live = rw live (omega int_laws)
paid_by-snoc id (q ∷ ps) p live = elim (Bool-cases (is_live q)) [
  | inl kept ↦ rw kept (rw (paid_by-snoc id ps p live) (omega int_laws))
  | inr gone ↦ rw gone (paid_by-snoc id ps p live)
]

abbrev pub IsNonneg : Payment → Type 0
IsNonneg p = All (λ a. pos 0 ≤ℤ a.amount) p.applications

pub put_on-nonneg :
    (id : Text) (apps : List Application)
    → All (λ a. pos 0 ≤ℤ a.amount) apps
    → pos 0 ≤ℤ put_on id apps
unfolding sum_cents
put_on-nonneg id [] h = omega arith
put_on-nonneg id (a ∷ apps) h = elim (Bool-cases (text_eq a.target_id id)) [
  | inl hit ↦ rw hit (
      omega (
        int_laws,
        parts_eq _ _ (sum_cents-cons a.amount (amounts_for id apps)),
        put_on-nonneg id apps h.1,
        h.0,
      ))
  | inr miss ↦ rw miss (put_on-nonneg id apps h.1)
]

-- Payments that count no longer put nothing on any target.
pub paid_by-replace :
    (id pid : Text) (next : Payment) (ps : List Payment)
    → is_live next ≡ false
    → All IsNonneg ps
    → paid_by id (replace_payment pid next ps) ≤ℤ paid_by id ps
paid_by-replace id pid next [] gone h = omega arith
paid_by-replace id pid next (p ∷ ps) gone h =
    let rest = paid_by-replace id pid next ps gone h.1 in
    let here = put_on-nonneg id p.applications h.0 in
    elim (Bool-cases (text_eq p.id pid)) [
      | inl same ↦
          rw (same, gone)
            (elim (Bool-cases (is_live p)) [
              | inl live ↦ rw live (omega (int_laws, rest, here))
              | inr dead ↦ rw dead rest
            ])
      | inr other ↦ rw other (elim (Bool-cases (is_live p)) [
        | inl live ↦ rw live (omega (int_laws, rest))
        | inr dead ↦ rw dead rest
      ])
    ]

-- What the payments of other ids put on a target is what is left.
abbrev pub others : Text → List Payment → List Payment
others pid = select (λ p. not (text_eq p.id pid))

pub paid_by-replaced :
    (id pid : Text) (next : Payment) (ps : List Payment)
    → is_live next ≡ false
    → paid_by id (replace_payment pid next ps) ≡ paid_by id (others pid ps)
paid_by-replaced id pid next [] gone = refl
paid_by-replaced id pid next (p ∷ ps) gone = elim (Bool-cases (text_eq p.id pid)) [
  | inl same ↦ rw (same, gone) (paid_by-replaced id pid next ps gone)
  | inr other ↦ rw other (rw (paid_by-replaced id pid next ps gone) refl)
]

pub find-replace_payment :
    (id : Text) (next p : Payment) (ps : List Payment)
    → text_eq next.id id ≡ true
    → find (λ p. text_eq p.id id) ps ≡ some p
    → find (λ p. text_eq p.id id) (replace_payment id next ps) ≡ some next
find-replace_payment id next p [] named found = cc
find-replace_payment id next p (x ∷ ps) named found = elim (Bool-cases (text_eq x.id id)) [
  | inl here ↦ rw (here, named) refl
  | inr other ↦
      rw (other, other) (find-replace_payment id next p ps named (ground (arith, found, other)))
]

pub replace-IsNonneg :
    (pid : Text) (next : Payment) (ps : List Payment)
    → IsNonneg next
    → All IsNonneg ps
    → All IsNonneg (replace_payment pid next ps)
replace-IsNonneg pid next [] hn h = tt
replace-IsNonneg pid next (p ∷ ps) hn h = elim (Bool-cases (text_eq p.id pid)) [
  | inl same ↦ rw same (hn, replace-IsNonneg pid next ps hn h.1)
  | inr other ↦ rw other (h.0, replace-IsNonneg pid next ps hn h.1)
]

-- What is owed on the invoice that stands under an id.
abbrev pub owed_on : Sales → Text → Fallible Cents
owed_on sales id = find_invoice sales id >>= λ i. invoice_balance sales i none

-- A balance, if there is one, is not negative.
abbrev pub IsNotBelow : Fallible Cents → Type 0
IsNotBelow (ok b) = pos 0 ≤ℤ b
IsNotBelow (err _) = Unit

-- No payment puts a negative amount on an invoice, and no invoice has a negative balance: what is paid
-- on it is at most its total.
pub record IsSettled (sales : Sales) : Type 0 where
  pub nonneg : All (λ p. All (λ a. pos 0 ≤ℤ a.amount) p.applications) sales.payments
  pub not_below : (id : Text) → IsNotBelow (owed_on sales id)

-- The same of one invoice, in terms of its total.
abbrev pub Within : Sales → Text → Type 0
Within sales id =
    (i : Invoice) (t : InvoiceTotals)
    → find_invoice sales id ≡ ok i
    → is_sent i.state ≡ true
    → invoice_totals i.lines i.tax_rate_bp ≡ ok t
    → invoice_paid sales id none ≤ℤ t.total

find_invoice-id :
    (sales : Sales) (id : Text) (i : Invoice) → find_invoice sales id ≡ ok i → i.id ≡ id
unfolding find_invoice
find_invoice-id sales id i e =
    let found = or_fail-eq-ok (find (λ i. text_eq i.id id) sales.invoices) _ i e in
    (text_eq_iff i.id id).0
      (All-find (λ _. Unit {0}) (λ i. text_eq i.id id) sales.invoices i (all_units sales.invoices)
        found).1
  where
    all_units : (is : List Invoice) → All (λ _. Unit {0}) is
    all_units [] = tt
    all_units (_ ∷ is) = (tt, all_units is)

pub payable_on-balance :
    (sales : Sales) (customer id : Text) (b : Cents) (i : Invoice) (t : InvoiceTotals)
    → payable_on sales customer id ≡ ok b
    → find_invoice sales id ≡ ok i
    → is_sent i.state ≡ true
    → invoice_totals i.lines i.tax_rate_bp ≡ ok t
    → b ≡ t.total -ℤ invoice_paid sales id none
unfolding payable_on invoice_balance
payable_on-balance sales customer id b i t e found sent ht =
    let (i', found', e1) = >>=-eq-ok (find_invoice sales id) _ e in
    let same : i' ≡ i = ok-injective i' i (sym found' ∙ found) in
    let (_, _, e2) = >>=-eq-ok (fail_if (not (text_eq i'.customer_id customer)) _) _ e1 in
    let (_, _, e3) = >>=-eq-ok (fail_if (not (is_sent i'.state)) _) _ e2 in
    let balance : invoice_balance sales i none ≡ ok b =
      subst (λ i. invoice_balance sales i none ≡ ok b) same e3 in
    let total : ◌≡◌ {A = Fallible Cents} (ok (t.total -ℤ invoice_paid sales i.id none)) (ok b) =
      ground (arith, balance, ht, sent) in
    sym (ok-injective _ b total)
    ∙ ap (λ k. t.total -ℤ invoice_paid sales k none) (find_invoice-id sales id i found)

pub to-Within : (sales : Sales) (id : Text) → IsNotBelow (owed_on sales id) → Within sales id
unfolding invoice_balance
to-Within sales id h i t found sent ht =
    let owed : owed_on sales id ≡ ok (t.total -ℤ invoice_paid sales i.id none) =
      rw (found, sent, ht) refl in
    let nonneg = subst IsNotBelow owed h in
    rw (sym (find_invoice-id sales id i found)) (omega (int_laws, nonneg))

pub of-Within : (sales : Sales) (id : Text) → Within sales id → IsNotBelow (owed_on sales id)
unfolding invoice_balance
of-Within sales id within = elim (Result-cases (owed_on sales id)) [
  | inr (e, failed) ↦ rw failed tt
  | inl (b, owed) ↦
      let (i, found, h1) = >>=-eq-ok (find_invoice sales id) _ owed in
      rw owed (elim (Bool-cases (is_sent i.state)) [
        | inr not_sent ↦
            let nothing : pos 0 ≡ b =
              ok-injective {E = SalesError} (pos 0) b (ground (arith, h1, not_sent)) in
            subst (λ b. pos 0 ≤ℤ b) nothing (omega arith)
        | inl sent ↦
            let balance : balance_of_sent sales i ≡ ok b = ground (arith, h1, sent) in
            let (t, ht, made) = >>=-eq-ok (invoice_totals i.lines i.tax_rate_bp) _ balance in
            let paid : invoice_paid sales i.id none ≤ℤ t.total =
              subst (λ k. invoice_paid sales k none ≤ℤ t.total)
                (sym (find_invoice-id sales id i found)) (within i t found sent ht) in
            subst (λ b. pos 0 ≤ℤ b) (ok-injective (t.total -ℤ invoice_paid sales i.id none) b made)
              (omega (int_laws, paid))
      ])
]
  where
    balance_of_sent : Sales → Invoice → Fallible Cents
    balance_of_sent sales i =
        invoice_totals i.lines i.tax_rate_bp >>= λ t. ok (t.total -ℤ invoice_paid sales i.id none)

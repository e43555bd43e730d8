-- ===== src/Sales/Invoices/Bounds.antt =====
-- packages/sales/src/sales.ts: the bounds and the rounding of the amounts of an invoice.
use native.Mathlib.Nat.{mul-le-mul_left}
use pnw.Base.{
  ℕ, ◌+◌, ◌*◌, ◌/◌, ◌≤◌, ◌<◌, ◌≡◌, refl, sym, subst, ap, ◌∙◌, List, [], ◌∷◌, arith, All, Bool-cases,
  inl, inr,
}
use pnw.Data.Int.{ℤ, pos, pos_part, neg_part, ◌≤ℤ◌, ◌+ℤ◌, ◌*ℤ◌, int_laws, parts_eq}
use pnw.Data.Result.{ok, traverse, >>=-eq-ok, ok-injective}
use pnw.Ledger.Money.{Cents, sum_cents}
use pnw.Ledger.Books.Journal.Validity.{sum_cents-cons}
use pnw.Sales.Amounts.{quot, price, parse_quantity}
use pnw.Sales.State.{InvoiceLine}
use pnw.Sales.Invoices.{
  line_amount, InvoiceTotals, taxable_amounts, tax_on, totals_of, invoice_totals,
}

pos-*ℤ : (a b : ℕ) → pos a *ℤ pos b ≡ pos (a * b)
unfolding ◌*ℤ◌
pos-*ℤ a b = ground arith

pos-+ℤ : (a b : ℕ) → pos a +ℤ pos b ≡ pos (a + b)
unfolding ◌+ℤ◌
pos-+ℤ a b = ground arith

price-pos : (q p : ℕ) → price q (pos p) ≡ pos ((q * p + 50) / 100)
price-pos q p =
    ap (λ z. quot (z +ℤ pos 50) 100) (pos-*ℤ q p) ∙ ap (λ z. quot z 100) (pos-+ℤ (q * p) 50)

tax_on-pos : (x bp : ℕ) → tax_on (pos x) bp ≡ pos ((x * bp + 5000) / 10_000)
unfolding tax_on
tax_on-pos x bp =
    ap (λ z. quot (z +ℤ pos 5000) 10_000) (pos-*ℤ x bp)
    ∙ ap (λ z. quot z 10_000) (pos-+ℤ (x * bp) 5000)

mul-le : (x bp : ℕ) → bp ≤ 10_000 → x * bp ≤ x * 10_000
mul-le x bp h = mul-le-mul_left x h

pub nonneg_pos : (a : ℤ) → pos 0 ≤ℤ a → a ≡ pos (pos_part a)
nonneg_pos a h = ground arith

nonneg_neg : (a : ℤ) → pos 0 ≤ℤ a → neg_part a ≡ 0
nonneg_neg a h = ground arith

-- The prices of the lines are not negative.
abbrev pub IsPriced : InvoiceLine → Type 0
IsPriced l = pos 0 ≤ℤ l.unit_price

-- Of a line whose price is not negative, the amount is its quantity, in hundredths, times its price
-- over 100, to the nearest cent and up where two are as near.
pub line_amount-nearest :
    (l : InvoiceLine) (q : ℕ) (a : Cents)
    → IsPriced l
    → parse_quantity l.quantity ≡ ok q
    → line_amount l ≡ ok a
    → (n : ℕ) × (a ≡ pos n)
      × (100 * n ≤ q * pos_part l.unit_price + 50)
      × (q * pos_part l.unit_price < 100 * n + 50)
unfolding line_amount
line_amount-nearest l q a priced hq ha =
    let (q', hq', e) = >>=-eq-ok (parse_quantity l.quantity) (λ q. ok (price q l.unit_price)) ha in
    let same : q' ≡ q = ok-injective q' q (sym hq' ∙ hq) in
    let amount : price q l.unit_price ≡ a =
      ok-injective _ _ (ap (λ q. ok (price q l.unit_price)) (sym same) ∙ e) in
    let p = pos_part l.unit_price in
    (
      (q * p + 50) / 100,
      sym amount ∙ ap (price q) (nonneg_pos l.unit_price priced) ∙ price-pos q p,
      omega arith,
      omega arith,
    )

line_amount-nonneg : (l : InvoiceLine) (a : Cents) → IsPriced l → line_amount l ≡ ok a → pos 0 ≤ℤ a
unfolding line_amount
line_amount-nonneg l a priced ha =
    let (q, hq, e) = >>=-eq-ok (parse_quantity l.quantity) (λ q. ok (price q l.unit_price)) ha in
    let (n, same, _, _) = line_amount-nearest l q a priced hq ha in
    subst (λ a. pos 0 ≤ℤ a) (sym same) (omega arith)

pub amounts-nonneg :
    (lines : List InvoiceLine) (amounts : List Cents)
    → All IsPriced lines
    → traverse line_amount lines ≡ ok amounts
    → All (λ a. pos 0 ≤ℤ a) amounts
amounts-nonneg [] amounts priced h = subst (All _) (ok-injective [] amounts h) tt
amounts-nonneg (l ∷ lines) amounts priced h =
    let (a, ha, h1) = >>=-eq-ok (line_amount l) _ h in
    let (rest, hr, h2) = >>=-eq-ok (traverse line_amount lines) (λ ys. ok (a ∷ ys)) h1 in
    subst (All _) (ok-injective (a ∷ rest) amounts h2)
      (line_amount-nonneg l a priced.0 ha, amounts-nonneg lines rest priced.1 hr)

pub sum_cents-nonneg : (vs : List Cents) → All (λ a. pos 0 ≤ℤ a) vs → pos 0 ≤ℤ sum_cents vs
unfolding sum_cents
sum_cents-nonneg [] h = omega arith
sum_cents-nonneg (v ∷ vs) h =
    omega (int_laws, parts_eq _ _ (sum_cents-cons v vs), sum_cents-nonneg vs h.1, h.0)

taxable_amounts-le :
    (lines : List InvoiceLine) (amounts : List Cents)
    → All (λ a. pos 0 ≤ℤ a) amounts
    → (pos 0 ≤ℤ sum_cents (taxable_amounts lines amounts))
      × (sum_cents (taxable_amounts lines amounts) ≤ℤ sum_cents amounts)
unfolding sum_cents
taxable_amounts-le [] amounts h = (omega arith, sum_cents-nonneg amounts h)
taxable_amounts-le (l ∷ lines) [] h = (omega arith, omega arith)
taxable_amounts-le (l ∷ lines) (a ∷ amounts) h =
    let rest = taxable_amounts-le lines amounts h.1 in
    let all_of_it = parts_eq _ _ (sum_cents-cons a amounts) in
    elim (Bool-cases l.taxable) [
      | inl taxed ↦ rw taxed (
          let part = parts_eq _ _ (sum_cents-cons a (taxable_amounts lines amounts)) in
          (omega (int_laws, part, rest.0, h.0), omega (int_laws, part, all_of_it, rest.1)))
      | inr free ↦ rw free (rest.0, omega (int_laws, all_of_it, rest.1, h.0))
    ]

-- What holds of the totals of an invoice at a rate of `bp` basis points.
pub record IsTotal (bp : ℕ) (t : InvoiceTotals) : Type 0 where
  pub taxable_nonneg : pos 0 ≤ℤ t.taxable
  pub taxable_within : t.taxable ≤ℤ t.subtotal
  pub tax_nonneg : pos 0 ≤ℤ t.tax
  pub tax_within : t.tax ≤ℤ t.taxable
  pub tax_low : 10_000 * pos_part t.tax ≤ pos_part t.taxable * bp + 5000
  pub tax_high : pos_part t.taxable * bp < 10_000 * pos_part t.tax + 5000
  pub total_is_sum : t.total ≡ t.subtotal +ℤ t.tax

pub tax_on-IsNear :
    (x : Cents) (bp : ℕ)
    → pos 0 ≤ℤ x
    → bp ≤ 10_000
    → (pos 0 ≤ℤ tax_on x bp)
      × (tax_on x bp ≤ℤ x)
      × (10_000 * pos_part (tax_on x bp) ≤ pos_part x * bp + 5000)
      × (pos_part x * bp < 10_000 * pos_part (tax_on x bp) + 5000)
tax_on-IsNear x bp h small =
    let n = pos_part x in
    let same : tax_on x bp ≡ pos ((n * bp + 5000) / 10_000) =
      ap (λ x. tax_on x bp) (nonneg_pos x h) ∙ tax_on-pos n bp in
    let capped = mul-le n bp small in
    rw same (omega arith, omega (arith, capped, nonneg_neg x h), omega arith, omega arith)

-- On lines whose prices are not negative and at a rate of at most 10,000 basis points, the taxable
-- amount is at least 0 and at most the subtotal, the tax is at least 0 and at most the taxable amount,
-- it is the taxable amount's share to the nearest cent, half a cent up, and the total is the subtotal
-- and the tax.
pub invoice_totals-IsTotal :
    (lines : List InvoiceLine) (bp : ℕ) (t : InvoiceTotals)
    → All IsPriced lines
    → bp ≤ 10_000
    → invoice_totals lines bp ≡ ok t
    → IsTotal bp t
unfolding invoice_totals
invoice_totals-IsTotal lines bp t priced small h =
    let (amounts, ha, e) =
      >>=-eq-ok (traverse line_amount lines) (λ as'. ok (totals_of lines bp as')) h in
    let within = taxable_amounts-le lines amounts (amounts-nonneg lines amounts priced ha) in
    let near = tax_on-IsNear (sum_cents (taxable_amounts lines amounts)) bp within.0 small in
    subst (IsTotal bp) (ok-injective (totals_of lines bp amounts) t e) (record {
      taxable_nonneg = within.0;
      taxable_within = within.1;
      tax_nonneg = near.0;
      tax_within = near.1;
      tax_low = near.2;
      tax_high = near.3;
      total_is_sum = refl;
    })

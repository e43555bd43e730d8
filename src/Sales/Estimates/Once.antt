-- ===== src/Sales/Estimates/Once.antt =====
-- packages/sales/src/estimates.ts: a converted estimate, and how it is handed back when its draft invoice
-- is deleted (packages/sales/src/sales.ts).
use pnw.Base.{
  ◌≡◌, refl, sym, ap, ◌∙◌, subst, true, not, Option, some, none, List, [], ◌∷◌, ◌++◌, map, select,
  any, find, arith, All, All-find, Bool-cases, inl, inr,
}
use pnw.Data.Result.{ok, err, fail_if, or_fail, >>=-eq-ok, ok-injective, or_fail-eq-ok}
use pnw.Data.Text.{Text, text_eq, text_eq_refl, opt_eq}
use pnw.Ledger.Periods.{IsoDate}
use pnw.Ledger.Books.State.{Books}
use pnw.Sales.Errors.{refused, estimate_converted, estimate_settled, no_estimate, no_invoice}
use pnw.Sales.State.{Estimate, EstimateState, Invoice, InvoiceState, InvoiceInput, Sales}
use pnw.Sales.Parties.{find_customer}
use pnw.Sales.Invoices.{
  create_invoice, clean_invoice, replace_invoice, find_invoice, delete_draft_invoice, hand_back,
}
use pnw.Sales.Estimates.{
  EstimateInput, state_index, same_state, find_estimate, update_estimate, delete_estimate,
  mark_estimate, replace_estimate, invoice_input_of, convert_estimate_to_invoice,
}

-- What stands under an id after it was replaced.
find-replace :
    (id : Text) (next e : Estimate) (es : List Estimate)
    → text_eq next.id id ≡ true
    → find (λ e. text_eq e.id id) es ≡ some e
    → find (λ e. text_eq e.id id) (replace_estimate id next es) ≡ some next
find-replace id next e [] named found = cc
find-replace id next e (x ∷ es) named found = elim (Bool-cases (text_eq x.id id)) [
  | inl here ↦ rw (here, named) refl
  | inr other ↦ rw (other, other) (find-replace id next e es named (ground (arith, found, other)))
]

find-map :
    (id : Text) (f : Estimate → Estimate) (e : Estimate) (es : List Estimate)
    → ((e : Estimate) → (f e).id ≡ e.id)
    → find (λ e. text_eq e.id id) es ≡ some e
    → find (λ e. text_eq e.id id) (map f es) ≡ some (f e)
find-map id f e [] keep found = cc
find-map id f e (x ∷ es) keep found =
    let same : text_eq (f x).id id ≡ text_eq x.id id = ap (λ k. text_eq k id) (keep x) in
    elim (Bool-cases (text_eq x.id id)) [
      | inl here ↦
          let first : x ≡ e = ground (arith, found, here) in
          rw (same ∙ here) (ap (λ e. some (f e)) first)
      | inr other ↦ rw (same ∙ other) (find-map id f e es keep (ground (arith, found, other)))
    ]

-- The invoice that stands under an id after one was put there.
find-replace_invoice :
    (id : Text) (next : Invoice) (is : List Invoice)
    → text_eq next.id id ≡ true
    → any (λ i. text_eq i.id id) is ≡ true
    → find (λ i. text_eq i.id id) (replace_invoice id next is) ≡ some next
find-replace_invoice id next [] named there = absurd (cc)
find-replace_invoice id next (x ∷ is) named there = elim (Bool-cases (text_eq x.id id)) [
  | inl here ↦ rw (here, named) refl
  | inr other ↦
      rw (other, other) (find-replace_invoice id next is named (ground (arith, there, other)))
]

any-snoc :
    (id : Text) (is : List Invoice) (i : Invoice)
    → text_eq i.id id ≡ true
    → any (λ i. text_eq i.id id) (is ++ i ∷ []) ≡ true
any-snoc id [] i h = rw h refl
any-snoc id (x ∷ is) i h = ground (arith, any-snoc id is i h)

-- The new state has the draft that was created, and the estimates as they were.
create_invoice-estimates :
    (books : Books) (sales : Sales) (input : InvoiceInput) (sales' : Sales) (i : Invoice)
    → create_invoice books sales input ≡ ok (sales', i)
    → (sales'.estimates ≡ sales.estimates)
      × (i.state ≡ InvoiceState.draft)
      × (any (λ x. text_eq x.id i.id) sales'.invoices ≡ true)
unfolding create_invoice
create_invoice-estimates books sales input sales' i e =
    let (customer, _, e1) = >>=-eq-ok (find_customer sales input.customer_id) _ e in
    let (_, _, e2) = >>=-eq-ok (fail_if (not customer.active) _) _ e1 in
    let (clean, _, e3) = >>=-eq-ok (clean_invoice books sales input) _ e2 in
    let same = ok-injective _ (sales', i) e3 in
    (
      ap (λ (t : Sales × Invoice). t.0.estimates) (sym same),
      ap (λ (t : Sales × Invoice). t.1.state) (sym same),
      subst (λ (t : Sales × Invoice). any (λ x. text_eq x.id t.1.id) t.0.invoices ≡ true) same
          (any-snoc _ sales.invoices _ (text_eq_refl _)),
    )

-- The state of an estimate that stands under an id.
abbrev pub IsConverted : Sales → Text → Invoice → Type 0
IsConverted sales id i =
    (e : Estimate) × (find_estimate sales id ≡ ok e)
    × (e.state ≡ EstimateState.converted)
    × (e.invoice_id ≡ some i.id)
    × (i.estimate_id ≡ some e.id)
    × (find_invoice sales i.id ≡ ok i)
    × (i.state ≡ InvoiceState.draft)

convert-IsConverted :
    (books : Books) (sales : Sales) (id : Text) (date : Option IsoDate) (sales' : Sales)
    (i : Invoice)
    → convert_estimate_to_invoice books sales id date ≡ ok (sales', i)
    → IsConverted sales' id i
unfolding convert_estimate_to_invoice find_estimate find_invoice
convert-IsConverted books sales id date sales' i h =
    let (e, found, h1) = >>=-eq-ok (find_estimate sales id) _ h in
    let (_, _, h2) = >>=-eq-ok (fail_if (same_state e.state EstimateState.converted) _) _ h1 in
    let (_, _, h3) = >>=-eq-ok (fail_if (same_state e.state EstimateState.declined) _) _ h2 in
    let (made, hc, h4) = >>=-eq-ok (create_invoice books sales (invoice_input_of e date)) _ h3 in
    let (kept, drafted, present) =
      create_invoice-estimates books sales (invoice_input_of e date) made.0 made.1 hc in
    let invoice : Invoice = record made.1 { estimate_id = some e.id } in
    let final : Estimate = record e {
      state = EstimateState.converted;
      invoice_id = some invoice.id;
    } in
    let after : Sales = record made.0 {
      invoices = replace_invoice invoice.id invoice made.0.invoices;
      estimates = replace_estimate id final made.0.estimates;
    } in
    let found' = or_fail-eq-ok (find (λ e. text_eq e.id id) sales.estimates) _ e found in
    let named : text_eq e.id id ≡ true =
      (All-find (λ _. Unit {0}) (λ e. text_eq e.id id) sales.estimates e (all_units sales.estimates)
        found').1 in
    let stands : find_estimate after id ≡ ok final =
      ap (λ o. or_fail o (refused no_estimate))
        (ap (λ es. find (λ e. text_eq e.id id) (replace_estimate id final es)) kept
          ∙ find-replace id final e sales.estimates named found') in
    let held : find_invoice after invoice.id ≡ ok invoice =
      ap (λ o. or_fail o (refused no_invoice))
        (find-replace_invoice invoice.id invoice made.0.invoices (text_eq_refl invoice.id)
          present) in
    subst (λ (t : Sales × Invoice). IsConverted t.0 id t.1)
      (ok-injective (after, invoice) (sales', i) h4)
      (final, stands, refl, refl, refl, held, drafted)
  where
    all_units : (es : List Estimate) → All (λ _. Unit {0}) es
    all_units [] = tt
    all_units (_ ∷ es) = (tt, all_units es)

-- While the estimate stands as converted, whatever is tried with the estimate itself fails.
abbrev pub IsHeld : Sales → Text → Type 0
IsHeld sales id =
    ((books : Books) (date : Option IsoDate)
      → convert_estimate_to_invoice books sales id date ≡ err (refused estimate_converted))
    × ((books : Books) (input : EstimateInput)
        → update_estimate books sales id input ≡ err (refused estimate_settled))
    × (delete_estimate sales id ≡ err (refused estimate_converted))
    × (mark_estimate sales id EstimateState.sent ≡ err (refused estimate_converted))
    × (mark_estimate sales id EstimateState.accepted ≡ err (refused estimate_converted))
    × (mark_estimate sales id EstimateState.declined ≡ err (refused estimate_converted))

converted-IsHeld :
    (sales : Sales) (id : Text) (i : Invoice) → IsConverted sales id i → IsHeld sales id
unfolding convert_estimate_to_invoice update_estimate delete_estimate mark_estimate same_state
    state_index
converted-IsHeld sales id i (e, found, state, _, _, _, _) = (
  λ books date. rw (found, state) refl,
  λ books input. rw (found, state) refl,
  rw (found, state) refl,
  rw (found, state) refl,
  rw (found, state) refl,
  rw (found, state) refl,
)

-- Deleting the draft invoice succeeds, and leaves the estimate accepted, without an invoice.
abbrev pub IsReturned : Sales → Text → Invoice → Type 0
IsReturned sales id i =
    (e : Estimate) × (find_estimate sales id ≡ ok e)
    × (sales' : Sales) × (delete_draft_invoice sales i.id ≡ ok sales')
    × (find_estimate sales' id
        ≡ ok (record e { state = EstimateState.accepted; invoice_id = none }))

hand_back-id : (id : Text) (o : Option Text) (e : Estimate) → (hand_back id o e).id ≡ e.id
hand_back-id id o e = ground arith

converted-IsReturned :
    (sales : Sales) (id : Text) (i : Invoice) → IsConverted sales id i → IsReturned sales id i
unfolding delete_draft_invoice find_estimate opt_eq
converted-IsReturned sales id i (e, found, _, points, back, held, drafted) =
    let found' = or_fail-eq-ok (find (λ e. text_eq e.id id) sales.estimates) _ e found in
    let after : Sales = record sales {
      invoices = select (λ x. not (text_eq x.id i.id)) sales.invoices;
      estimates = map (hand_back i.id i.estimate_id) sales.estimates;
    } in
    let returned : hand_back i.id i.estimate_id e
        ≡ record e { state = EstimateState.accepted; invoice_id = none } =
      rw (back, points, text_eq_refl e.id, text_eq_refl i.id) refl in
    (
      e,
      found,
      after,
      rw (held, drafted) refl,
      ap (λ o. or_fail o (refused no_estimate))
            (find-map id (hand_back i.id i.estimate_id) e sales.estimates
              (hand_back-id i.id i.estimate_id) found')
          ∙ ap ok returned,
    )

-- Right after an estimate was converted it points at the draft invoice that it became, which points
-- back, and converting, changing, deleting and marking the estimate fail; deleting the draft invoice
-- succeeds, and hands the estimate back as accepted and without an invoice.
pub convert-IsHeld :
    (books : Books) (sales : Sales) (id : Text) (date : Option IsoDate) (sales' : Sales)
    (i : Invoice)
    → convert_estimate_to_invoice books sales id date ≡ ok (sales', i)
    → IsConverted sales' id i × IsHeld sales' id × IsReturned sales' id i
convert-IsHeld books sales id date sales' i h =
    let converted = convert-IsConverted books sales id date sales' i h in
    (converted, converted-IsHeld sales' id i converted, converted-IsReturned sales' id i converted)

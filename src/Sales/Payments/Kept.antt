-- ===== src/Sales/Payments/Kept.antt =====
-- packages/sales/src/sales.ts: receiving and voiding a payment keep every invoice within its total.
use pnw.Base.{
  ◌≡◌, refl, sym, ap, ◌∙◌, subst, true, false, not, Option, none, some, map, find, arith, All-snoc,
  All-find, inl, inr,
}
use pnw.Data.Int.{◌≤ℤ◌, ◌+ℤ◌, ltb_ℤ, int_laws, parts_eq}
use pnw.Ledger.Errors.{LedgerErrorCode}
use pnw.Data.Result.{
  Result, ok, err, fail_if, or_fail, traverse, >>=-eq-ok, ok-injective, or_fail-eq-ok,
}
use pnw.Data.Text.{Text, codes, text_eq, is_truthy}
use pnw.Ledger.Periods.{IsoDate, assert_date}
use pnw.Ledger.Books.State.{Books, Entry, Hashes}
use pnw.Ledger.Books.Journal.{post_entry, reverse_entry, append, ReverseOptions}
use pnw.Ledger.Books.Journal.Inversion.{reverse_entry-inv}
use pnw.Sales.Errors.{from_ledger, refused, no_payment, payment_already_void}
use pnw.Sales.State.{Payment, PaymentInput, Sales}
use pnw.Sales.Parties.{find_customer, trimmed}
use pnw.Sales.Invoices.{find_invoice}
use pnw.Sales.Balances.{amount_applied, invoice_paid}
use pnw.Sales.Payments.{
  positive_amount, deposit_account, clean_applications, payable_on, payment_entry, payment_memo,
  payment_id_of, add_payment, receive_payment, void_payment, find_payment, replace_payment,
}
use pnw.Sales.Payments.Applied.{put_on, AreWithin, clean_applications-AreWithin}
use pnw.Sales.Payments.Settled.{
  is_live, others, invoice_paid-paid_by, paid_by-snoc, paid_by-replace, paid_by-replaced,
  find-replace_payment, replace-IsNonneg, IsNonneg, IsSettled, payable_on-balance, to-Within,
  of-Within,
}

from_ledger-ok {ℓ} :
    {A : Type ℓ} (r : Result LedgerErrorCode A) (a : A) → from_ledger r ≡ ok a → r ≡ ok a
from_ledger-ok (ok b) a e = cc
from_ledger-ok (err c) a e = cc

-- A payment that counts, whose amounts are within what the invoices owe.
pub record IsReceived (sales : Sales) (input : PaymentInput) (payment : Payment) : Type 0 where
  pub within : AreWithin (payable_on sales input.customer_id) payment.applications
  pub not_above : amount_applied payment.applications ≤ℤ payment.amount
  pub live : is_live payment ≡ true

add_payment-IsSettled :
    (sales : Sales) (input : PaymentInput) (p : Payment)
    → IsSettled sales
    → IsReceived sales input p
    → IsSettled (add_payment sales p)
unfolding find_invoice
add_payment-IsSettled sales input p settled got = record {
  nonneg = All-snoc IsNonneg sales.payments p settled.nonneg got.within.nonneg;
  not_below = λ id. of-Within (add_payment sales p) id (λ i t found sent ht.
      let before = to-Within sales id (settled.not_below id) i t found sent ht in
      let paid =
        invoice_paid-paid_by (add_payment sales p) id
        ∙ paid_by-snoc id sales.payments p got.live
        ∙ ap (λ c. c +ℤ put_on id p.applications) (sym (invoice_paid-paid_by sales id)) in
      rw paid (elim (got.within.within id) [
        | inl nothing ↦ rw nothing (omega (int_laws, before))
        | inr (b, hb, le) ↦
            let owed = payable_on-balance sales input.customer_id id b i t hb found sent ht in
            omega (int_laws, le, parts_eq _ _ owed)
      ]));
}

module _ (h : Hashes) where
  receive_payment-inv :
      (books : Books) (sales : Sales) (input : PaymentInput) (now : Text) (books' : Books)
      (sales' : Sales) (payment : Payment) (entry : Entry)
      → receive_payment h books sales input now ≡ ok (books', sales', payment, entry)
      → IsReceived sales input payment × (sales' ≡ add_payment sales payment)
  unfolding receive_payment
  receive_payment-inv books sales input now books' sales' payment entry e =
      let (date, _, e1) = >>=-eq-ok (from_ledger (assert_date input.date)) _ e in
      let (_, _, e2) = >>=-eq-ok (find_customer sales input.customer_id) _ e1 in
      let (amount, _, e3) = >>=-eq-ok (positive_amount input.amount) _ e2 in
      let (_, _, e4) = >>=-eq-ok (deposit_account books input.deposit_account_id) _ e3 in
      let (apps, happs, e5) =
        >>=-eq-ok (clean_applications input.applications (payable_on sales input.customer_id)) _
          e4 in
      let (_, g, e6) = >>=-eq-ok (fail_if (ltb_ℤ amount (amount_applied apps)) _) _ e5 in
      let (invoices, _, e7) =
        >>=-eq-ok (traverse (λ a. find_invoice sales a.target_id) apps) _ e6 in
      let (input', _, e8) =
        >>=-eq-ok
          (payment_entry books input date amount (payment_id_of sales.next_payment)
            (payment_memo (map (λ i. i.number) invoices)))
          _ e7 in
      let (posted, _, e9) = >>=-eq-ok (from_ledger (post_entry h books input' now)) _ e8 in
      let made : Payment = record {
        id = payment_id_of sales.next_payment;
        date = date;
        customer_id = input.customer_id;
        amount = amount;
        deposit_account_id = input.deposit_account_id;
        reference = trimmed input.reference;
        applications = apps;
        entry_id = posted.1.id;
        void_entry_id = none;
      } in
      let same =
        ok-injective (posted.0, add_payment sales made, made, posted.1)
          (books', sales', payment, entry) e9 in
      let same_payment : made ≡ payment = ap (λ (t : Books × Sales × Payment × Entry). t.2) same in
      (
        subst (IsReceived sales input) same_payment (record {
          within = clean_applications-AreWithin input.applications _ apps happs;
          not_above = ground arith;
          live = refl;
        }),
        ap (λ (t : Books × Sales × Payment × Entry). t.1) (sym same)
            ∙ ap (add_payment sales) same_payment,
      )

  -- Receiving a payment keeps the invoices settled: no payment puts a negative amount on an invoice, and
  -- what is paid on an invoice that is sent is at most its total, so no balance is negative.
  pub receive_payment-IsSettled :
      (books : Books) (sales : Sales) (input : PaymentInput) (now : Text) (books' : Books)
      (sales' : Sales) (payment : Payment) (entry : Entry)
      → IsSettled sales
      → receive_payment h books sales input now ≡ ok (books', sales', payment, entry)
      → IsSettled sales'
  receive_payment-IsSettled books sales input now books' sales' payment entry settled e =
      let (got, same) = receive_payment-inv books sales input now books' sales' payment entry e in
      subst IsSettled (sym same) (add_payment-IsSettled sales input payment settled got)

  -- What a received payment puts on invoices is at most its amount, and afterwards exactly that much
  -- more is paid on each of them.
  pub receive_payment-paid :
      (books : Books) (sales : Sales) (input : PaymentInput) (now : Text) (books' : Books)
      (sales' : Sales) (payment : Payment) (entry : Entry) (id : Text)
      → receive_payment h books sales input now ≡ ok (books', sales', payment, entry)
      → (amount_applied payment.applications ≤ℤ payment.amount)
        × (invoice_paid sales' id none
            ≡ invoice_paid sales id none +ℤ put_on id payment.applications)
  receive_payment-paid books sales input now books' sales' payment entry id e =
      let (got, same) = receive_payment-inv books sales input now books' sales' payment entry e in
      (
        got.not_above,
        ap (λ s. invoice_paid s id none) same
            ∙ invoice_paid-paid_by (add_payment sales payment) id
            ∙ paid_by-snoc id sales.payments payment got.live
            ∙ ap (λ c. c +ℤ put_on id payment.applications) (sym (invoice_paid-paid_by sales id)),
      )

  -- The entry of a reversal has an id.
  reverse_entry-has_id :
      (books : Books) (id : Text) (o : ReverseOptions) (now : Text) (r : Books × Entry)
      → reverse_entry h books id o now ≡ ok r
      → is_truthy (some r.1.id) ≡ true
  unfolding append
  reverse_entry-has_id books id o now r e =
      let (draft, _, made) = reverse_entry-inv h books id o now r e in
      subst (λ (r : Books × Entry). is_truthy (some r.1.id) ≡ true) (sym made) refl

  -- Payment `id` of `sales` is void in `sales'`: its entry is reversed in the books, it is kept with the
  -- id of the reversal, every invoice is paid what the payments of other ids put on it, and voiding it again fails.
  pub record IsVoided (books books' : Books) (sales sales' : Sales) (id : Text)
      (date : Option IsoDate) (now : Text) : Type 0 where
    pub payment : Payment
    pub found : find_payment sales id ≡ ok payment
    pub counted : is_live payment ≡ true
    pub reversal : Entry
    pub reversed :
        reverse_entry h books payment.entry_id
          (record { date = date; memo = some (codes "Void payment received") })
          now
        ≡ ok (books', reversal)
    pub kept : find_payment sales' id ≡ ok (record payment { void_entry_id = some reversal.id })
    pub paid :
        (target : Text)
        → invoice_paid sales' target none
          ≡ invoice_paid (record sales { payments = others id sales.payments }) target none
    pub once :
        (books : Books) (date : Option IsoDate) (now : Text)
        → void_payment h books sales' id date now ≡ err (refused payment_already_void)

  -- Voiding a payment that counts keeps the invoices settled; afterwards the books are those with the
  -- payment's entry reversed, what is paid on each invoice is what the payments of other ids put on it,
  -- the payment is kept with the id of the reversal, and it cannot be voided again.
  pub void_payment-IsSettled :
      (books : Books) (sales : Sales) (id : Text) (date : Option IsoDate) (now : Text)
      (books' : Books) (sales' : Sales)
      → IsSettled sales
      → void_payment h books sales id date now ≡ ok (books', sales')
      → IsSettled sales' × IsVoided books books' sales sales' id date now
  unfolding void_payment find_payment find_invoice
  void_payment-IsSettled books sales id date now books' sales' settled e =
      let options : ReverseOptions = record {
        date = date;
        memo = some (codes "Void payment received");
      } in
      let (p, found, e1) = >>=-eq-ok (find_payment sales id) _ e in
      let (_, counts, e2) = >>=-eq-ok (fail_if (is_truthy p.void_entry_id) _) _ e1 in
      let (reversed, hr, e3) =
        >>=-eq-ok (from_ledger (reverse_entry h books p.entry_id options now)) _ e2 in
      let hr' = from_ledger-ok (reverse_entry h books p.entry_id options now) reversed hr in
      let next : Payment = record p { void_entry_id = some reversed.1.id } in
      let left : Sales = record sales { payments = replace_payment id next sales.payments } in
      let same = ok-injective (reversed.0, left) (books', sales') e3 in
      let has_id = reverse_entry-has_id books p.entry_id options now reversed hr' in
      let gone : is_live next ≡ false = ap not has_id in
      let found' = or_fail-eq-ok (find (λ p. text_eq p.id id) sales.payments) _ p found in
      let (nonneg, named) =
        All-find IsNonneg (λ p. text_eq p.id id) sales.payments p settled.nonneg found' in
      let stands : find_payment left id ≡ ok next =
        ap (λ o. or_fail o (refused no_payment))
          (find-replace_payment id next p sales.payments named found') in
      subst (λ (t : Books × Sales). IsSettled t.1 × IsVoided books t.0 sales t.1 id date now) same
        (
          record {
            nonneg = replace-IsNonneg id next sales.payments nonneg settled.nonneg;
            not_below = λ t. of-Within left t (λ i totals found sent ht.
                let fewer : invoice_paid left t none ≤ℤ invoice_paid sales t none =
                  rw (invoice_paid-paid_by left t, invoice_paid-paid_by sales t)
                    (paid_by-replace t id next sales.payments gone settled.nonneg) in
                omega
                  (arith, fewer, to-Within sales t (settled.not_below t) i totals found sent ht));
          },
          record {
            payment = p;
            found = found;
            counted = ground arith;
            reversal = reversed.1;
            reversed = hr';
            kept = stands;
            paid = λ target.
                invoice_paid-paid_by left target
                ∙ paid_by-replaced target id next sales.payments gone
                ∙ sym (
                    invoice_paid-paid_by (record sales { payments = others id sales.payments })
                      target);
            once = λ books date now. rw (stands, has_id) refl;
          },
        )

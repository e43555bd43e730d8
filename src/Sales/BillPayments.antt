-- ===== src/Sales/BillPayments.antt =====
-- packages/sales/src/sales.ts: payments of bills, and what was paid to a vendor.
use pnw.Base.{
  ℕ, ◌+◌, Bool, not, ◌&&◌, Option, none, some, List, [], ◌∷◌, ◌++◌, map, find, select, length, ◌==◌,
  if◌then◌else◌,
}
use pnw.Data.Int.{pos, leb_ℤ}
use pnw.Data.Result.{ok, ◌>>=◌, ◌>>◌, fail_if, or_fail}
use pnw.Data.Text.{Text, codes, text_eq, is_truthy}
use pnw.Data.Text.Order.{text_le}
use pnw.Data.Decimal.{show}
use pnw.Ledger.Money.{Cents, sum_cents}
use pnw.Ledger.Periods.{IsoDate, assert_date}
use pnw.Ledger.Accounts.{SystemRole}
use pnw.Ledger.Books.State.{Books, Entry, EntryInput, SourceKind, Hashes}
use pnw.Ledger.Books.Chart.{find_system_account}
use pnw.Ledger.Books.Journal.{post_entry, reverse_entry}
use pnw.Sales.Errors.{
  Fallible, refused, from_ledger, other_vendor, bill_is_void, no_bills_chosen, no_payment,
  payment_already_void,
}
use pnw.Sales.State.{Application, BillPayment, BillPaymentInput, Sales}
use pnw.Sales.Parties.{find_vendor, trimmed}
use pnw.Sales.Balances.{bill_balance, amount_applied, live_bill_payments}
use pnw.Sales.Posting.{debit_line, credit_line, posted_for}
use pnw.Sales.Payments.{bank_account, clean_applications}
use pnw.Sales.Attachments.{find_bill}
use pnw.Sales.Bills.{vendor_ref}

-- What a payment to a vendor may put on a bill.
unfoldable pub payable_on_bill : Sales → Text → Text → Fallible Cents
payable_on_bill sales vendor_id id = do
  bill ← find_bill sales id
  fail_if (not (text_eq bill.vendor_id vendor_id)) (refused other_vendor)
  fail_if (is_truthy bill.void_entry_id) (refused bill_is_void)
  ok (bill_balance sales bill none)

abbrev pub bill_payment_amount : List Application → Cents
bill_payment_amount = amount_applied

abbrev pub bill_payment_memo : ℕ → Text
bill_payment_memo n =
    codes "Bill payment" ++ (if n == 1 then [] else codes ", " ++ show n ++ codes " bills")

-- The entry that a payment of bills posts.
unfoldable pub bill_payment_entry :
    Books → BillPaymentInput → IsoDate → Cents → Text → Text → Fallible EntryInput
bill_payment_entry books input date amount id memo = do
  let name = vendor_ref input.vendor_id
  payable ← from_ledger (find_system_account books SystemRole.accounts_payable)
  ok record {
    date = date;
    memo = some memo;
    source = some (posted_for SourceKind.bill_payment id);
    lines =
        debit_line payable.id amount (some name) none none
        ∷ credit_line input.bank_account_id amount (some name) (trimmed input.reference) none
        ∷ [];
  }

abbrev pub add_bill_payment : Sales → BillPayment → Sales
add_bill_payment sales payment = record sales {
  bill_payments = sales.bill_payments ++ payment ∷ [];
  next_bill_payment = sales.next_bill_payment + 1;
}

unfoldable pub find_bill_payment : Sales → Text → Fallible BillPayment
find_bill_payment sales id =
    or_fail (find (λ p. text_eq p.id id) sales.bill_payments) (refused no_payment)

abbrev pub replace_bill_payment : Text → BillPayment → List BillPayment → List BillPayment
replace_bill_payment id next = map (λ p. if text_eq p.id id then next else p)

module _ (h : Hashes) where
  unfoldable pub pay_bills :
      Books → Sales → BillPaymentInput → Text → Fallible (Books × Sales × BillPayment × Entry)
  pay_bills books sales input now = do
    date ← from_ledger (assert_date input.date)
    _ ← find_vendor sales input.vendor_id
    _ ← bank_account books input.bank_account_id
    applications ← clean_applications input.applications (payable_on_bill sales input.vendor_id)
    let amount = bill_payment_amount applications
    fail_if (leb_ℤ amount (pos 0)) (refused no_bills_chosen)
    let id = codes "bpmt-" ++ show sales.next_bill_payment
    entry_input ←
        bill_payment_entry books input date amount id (bill_payment_memo (length applications))
    (posted_books, entry) ← from_ledger (post_entry h books entry_input now)
    let payment : BillPayment = record {
      id = id;
      date = date;
      vendor_id = input.vendor_id;
      bank_account_id = input.bank_account_id;
      reference = trimmed input.reference;
      applications = applications;
      entry_id = entry.id;
      void_entry_id = none;
    }
    ok (posted_books, add_bill_payment sales payment, payment, entry)

  unfoldable pub void_bill_payment :
      Books → Sales → Text → Option IsoDate → Text → Fallible (Books × Sales)
  void_bill_payment books sales id date now = do
    payment ← find_bill_payment sales id
    fail_if (is_truthy payment.void_entry_id) (refused payment_already_void)
    (reversed_books, entry) ← from_ledger (
        reverse_entry h books payment.entry_id
          (record { date = date; memo = some (codes "Void bill payment") }) now)
    let next : BillPayment = record payment { void_entry_id = some entry.id }
    ok (
      reversed_books,
      record sales { bill_payments = replace_bill_payment id next sales.bill_payments },
    )

-- By payments dated in the range that count.
unfoldable pub paid_to_vendor : Sales → Text → IsoDate → IsoDate → Fallible Cents
paid_to_vendor sales vendor_id from to = do
  _ ← from_ledger (assert_date from)
  _ ← from_ledger (assert_date to)
  let in_range : BillPayment → Bool =
      λ p. text_eq p.vendor_id vendor_id && text_le from p.date && text_le p.date to
  ok (
      sum_cents (
        map (λ p. bill_payment_amount p.applications) (select in_range (live_bill_payments sales))))

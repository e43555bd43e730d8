-- ===== src/Sales/Payments.antt =====
-- packages/sales/src/sales.ts: payments received, what they are put on, and how one is undone.
pub mod Applied
pub mod Settled
pub mod Kept
use pnw.Base.{
  ℕ, ◌+◌, Bool, true, false, not, ◌&&◌, ◌||◌, Option, none, some, List, [], ◌∷◌, ◌++◌, map, find,
  if◌then◌else◌,
}
use pnw.Data.Int.{ℤ, pos, ◌+ℤ◌, ◌-ℤ◌, ltb_ℤ, leb_ℤ, eqb_ℤ}
use pnw.Data.Result.{ok, err, ◌>>=◌, ◌>>◌, fail_if, or_fail, traverse}
use pnw.Data.Text.{Text, codes, text_eq, is_truthy}
use pnw.Data.Decimal.{show}
use pnw.Data.Dict.{Dict, insert}
use pnw.Data.Sort.{sort}
use pnw.Ledger.Money.{Cents}
use pnw.Ledger.Periods.{IsoDate, assert_date}
use pnw.Ledger.Accounts.{Account, AccountType, SystemRole, same_type}
use pnw.Ledger.Books.State.{
  Books, Entry, EntryInput, Amount, bigint, not_bigint, SourceKind, Hashes,
}
use pnw.Ledger.Books.Chart.{find_system_account, has_role}
use pnw.Ledger.Books.Journal.{post_entry, reverse_entry}
use pnw.Ledger.Reports.{amount_at}
use pnw.Sales.Errors.{
  Fallible, refused, from_ledger, choose_deposit_account, choose_bank_account, negative_application,
  above_balance, other_customer, invoice_not_sent, no_amount, applied_above_received, no_payment,
  payment_already_void,
}
use pnw.Sales.State.{Application, ApplicationInput, Payment, PaymentInput, Sales}
use pnw.Sales.Parties.{find_customer, trimmed}
use pnw.Sales.Invoices.{find_account, find_invoice, is_sent}
use pnw.Sales.Balances.{invoice_balance, amount_applied}
use pnw.Sales.Posting.{customer_ref, debit_line, credit_line, posted_for}

unfoldable pub deposit_account : Books → Text → Fallible Account
deposit_account books id = do
  acct ← find_account books id
  fail_if
      (not (same_type acct.type AccountType.bank)
        && not (has_role SystemRole.payments_to_deposit acct))
      (refused choose_deposit_account)
  ok acct

unfoldable pub bank_account : Books → Text → Fallible Account
bank_account books id = do
  acct ← find_account books id
  fail_if (not (same_type acct.type AccountType.bank)) (refused choose_bank_account)
  ok acct

abbrev pub checked_application : Amount → Fallible Cents
checked_application not_bigint = err (refused negative_application)
checked_application (bigint c) =
    if ltb_ℤ c (pos 0) then err (refused negative_application) else ok c

-- One round of the loop that combines repeated targets.
abbrev pub add_application : Text → Cents → Dict Cents → Dict Cents
add_application id c merged =
    if eqb_ℤ c (pos 0) then merged else insert id (amount_at id merged +ℤ c) merged

abbrev pub merge_applications : List ApplicationInput → Dict Cents → Fallible (Dict Cents)
merge_applications [] merged = ok merged
merge_applications (a ∷ apps) merged = checked_application a.amount >>= λ c.
    merge_applications apps (add_application a.target_id c merged)

-- Each target's amount against what it still owes.
abbrev pub check_applications : (Text → Fallible Cents) → Dict Cents → Fallible (Unit {0})
check_applications balance_of_target [] = ok tt
check_applications balance_of_target ((id, amount) ∷ merged) = do
  balance ← balance_of_target id
  fail_if (ltb_ℤ balance amount) (refused above_balance)
  check_applications balance_of_target merged

abbrev pub to_application : Text × Cents → Application
to_application (id, amount) = record { target_id = id; amount = amount }

unfoldable pub clean_applications :
    List ApplicationInput → (Text → Fallible Cents) → Fallible (List Application)
clean_applications apps balance_of_target = do
  merged ← merge_applications apps []
  check_applications balance_of_target merged
  ok (map to_application merged)

-- What a payment of a customer may put on an invoice.
unfoldable pub payable_on : Sales → Text → Text → Fallible Cents
payable_on sales customer_id id = do
  inv ← find_invoice sales id
  fail_if (not (text_eq inv.customer_id customer_id)) (refused other_customer)
  fail_if (not (is_sent inv.state)) (refused invoice_not_sent)
  invoice_balance sales inv none

abbrev pub positive_amount : Amount → Fallible Cents
positive_amount not_bigint = err (refused no_amount)
positive_amount (bigint c) = if leb_ℤ c (pos 0) then err (refused no_amount) else ok c

-- `xs.join(", ")`
abbrev pub join_commas : List Text → Text
join_commas [] = []
join_commas (s ∷ []) = s
join_commas (s ∷ t ∷ rest) = s ++ codes ", " ++ join_commas (t ∷ rest)

abbrev pub payment_memo : List Text → Text
payment_memo [] = codes "Payment received"
payment_memo (n ∷ numbers) = codes "Payment for " ++ join_commas (n ∷ numbers)

abbrev pub payment_id_of : ℕ → Text
payment_id_of n = codes "pmt-" ++ show n

-- The entry that a payment of `amount` posts.
unfoldable pub payment_entry :
    Books → PaymentInput → IsoDate → Cents → Text → Text → Fallible EntryInput
payment_entry books input date amount id memo = do
  let name = customer_ref input.customer_id
  receivable ← from_ledger (find_system_account books SystemRole.accounts_receivable)
  ok record {
    date = date;
    memo = some memo;
    source = some (posted_for SourceKind.payment id);
    lines =
        debit_line input.deposit_account_id amount (some name) (trimmed input.reference) none
        ∷ credit_line receivable.id amount (some name) none none
        ∷ [];
  }

abbrev pub add_payment : Sales → Payment → Sales
add_payment sales payment = record sales {
  payments = sales.payments ++ payment ∷ [];
  next_payment = sales.next_payment + 1;
}

unfoldable pub find_payment : Sales → Text → Fallible Payment
find_payment sales id = or_fail (find (λ p. text_eq p.id id) sales.payments) (refused no_payment)

abbrev pub replace_payment : Text → Payment → List Payment → List Payment
replace_payment id next = map (λ p. if text_eq p.id id then next else p)

module _ (h : Hashes) where
  unfoldable pub receive_payment :
      Books → Sales → PaymentInput → Text → Fallible (Books × Sales × Payment × Entry)
  receive_payment books sales input now = do
    date ← from_ledger (assert_date input.date)
    _ ← find_customer sales input.customer_id
    amount ← positive_amount input.amount
    _ ← deposit_account books input.deposit_account_id
    applications ← clean_applications input.applications (payable_on sales input.customer_id)
    fail_if (ltb_ℤ amount (amount_applied applications)) (refused applied_above_received)
    let id = payment_id_of sales.next_payment
    invoices ← traverse (λ a. find_invoice sales a.target_id) applications
    entry_input ←
        payment_entry books input date amount id (payment_memo (map (λ i. i.number) invoices))
    (posted_books, entry) ← from_ledger (post_entry h books entry_input now)
    let payment : Payment = record {
      id = id;
      date = date;
      customer_id = input.customer_id;
      amount = amount;
      deposit_account_id = input.deposit_account_id;
      reference = trimmed input.reference;
      applications = applications;
      entry_id = entry.id;
      void_entry_id = none;
    }
    ok (posted_books, add_payment sales payment, payment, entry)

  unfoldable pub void_payment :
      Books → Sales → Text → Option IsoDate → Text → Fallible (Books × Sales)
  void_payment books sales id date now = do
    payment ← find_payment sales id
    fail_if (is_truthy payment.void_entry_id) (refused payment_already_void)
    (reversed_books, entry) ← from_ledger (
        reverse_entry h books payment.entry_id
          (record { date = date; memo = some (codes "Void payment received") }) now)
    let next : Payment = record payment { void_entry_id = some entry.id }
    ok (reversed_books, record sales { payments = replace_payment id next sales.payments })

-- An invoice that still owes.
pub record OpenInvoice : Type 0 where
  pub id : Text
  pub due_date : IsoDate
  pub balance : Cents

-- What is taken of an invoice's balance while `left` is left.
abbrev pub take_up_to : Cents → Cents → Cents
take_up_to left balance =
    let take = if ltb_ℤ left balance then left else balance in
    if ltb_ℤ (pos 0) take then take else pos 0

unfoldable pub suggest_from : List OpenInvoice → Cents → Dict Cents → Dict Cents
suggest_from [] left out = out
suggest_from (o ∷ open_invoices) left out =
    let take = take_up_to left o.balance in
    suggest_from open_invoices (left -ℤ take) (insert o.id take out)

-- `locale_compare` is `String.prototype.localeCompare`.
module _ (locale_compare : Text → Text → ℤ) where
  -- Oldest due first, and by id among those due on one day.
  abbrev pub due_later : OpenInvoice → OpenInvoice → Bool
  due_later a b =
      let by_date = locale_compare a.due_date b.due_date in
      if eqb_ℤ by_date (pos 0)
      then ltb_ℤ (pos 0) (locale_compare a.id b.id)
      else ltb_ℤ (pos 0) by_date

  unfoldable pub suggest_applications : List OpenInvoice → Cents → Dict Cents
  unfolding suggest_from
  suggest_applications open_invoices amount = suggest_from (sort due_later open_invoices) amount []

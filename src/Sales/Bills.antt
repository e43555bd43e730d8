-- ===== src/Sales/Bills.antt =====
-- packages/sales/src/sales.ts: bills, which post when they are entered, and how one is voided.
use pnw.Base.{
  ◌+◌, Bool, false, not, ◌&&◌, ◌||◌, Option, none, some, List, [], ◌∷◌, ◌++◌, map, any, or_else,
  length, ◌==◌, if◌then◌else◌,
}
use pnw.Data.Int.{pos, ltb_ℤ, leb_ℤ}
use pnw.Data.Result.{ok, err, ◌>>=◌, ◌>>◌, fail_if, traverse}
use pnw.Data.Text.{Text, codes, text_eq, trim, truthy, is_truthy}
use pnw.Data.Text.Order.{text_lt}
use pnw.Data.Decimal.{show}
use pnw.Ledger.Money.{Cents}
use pnw.Ledger.Periods.{IsoDate, assert_date}
use pnw.Ledger.Tags.{clean_tags}
use pnw.Ledger.Accounts.{Account, AccountType, BaseType, SystemRole, same_base, same_type, base_of}
use pnw.Ledger.Books.State.{
  Books, Entry, EntryInput, LineInput, Amount, bigint, not_bigint, NameRef, vendor, SourceKind,
  Hashes,
}
use pnw.Ledger.Books.Chart.{find_system_account}
use pnw.Ledger.Books.Journal.{post_entry, reverse_entry}
use pnw.Sales.Errors.{
  Fallible, refused, from_ledger, bad_tag, vendor_inactive, due_before_date, bill_entered_twice,
  no_lines, choose_bill_account, no_bill_amount, already_void, payments_applied,
}
use pnw.Sales.State.{BillLine, BillLineInput, Bill, BillInput, terms_days, Sales}
use pnw.Sales.Parties.{find_vendor, trimmed}
use pnw.Sales.Invoices.{find_account, date_or_later}
use pnw.Sales.Balances.{bill_total, bill_paid}
use pnw.Sales.Posting.{debit_line, credit_line, posted_for}
use pnw.Sales.Attachments.{clean_attachment, find_bill, replace_bill}

-- Any expense, or an asset that isn't cash or a receivable.
unfoldable pub is_bill_account : Account → Bool
is_bill_account a =
    same_base (base_of a) BaseType.expense
    || same_base (base_of a) BaseType.asset
      && not (same_type a.type AccountType.bank)
      && not (same_type a.type AccountType.accounts_receivable)

abbrev pub bill_label : Bill → Text
bill_label bill = elim (truthy bill.number) [
  | none ↦ codes "Bill of " ++ bill.date
  | some number ↦ codes "Bill " ++ number
]

abbrev pub checked_bill_amount : Amount → Fallible Cents
checked_bill_amount not_bigint = err (refused no_bill_amount)
checked_bill_amount (bigint c) = if leb_ℤ c (pos 0) then err (refused no_bill_amount) else ok c

unfoldable pub clean_bill_line : Books → BillLineInput → Fallible BillLine
clean_bill_line books l = do
  acct ← find_account books l.account_id
  fail_if (not (is_bill_account acct)) (refused choose_bill_account)
  amount ← checked_bill_amount l.amount
  tags ← clean_tags bad_tag l.tags
  ok record {
    description = trim l.description;
    account_id = l.account_id;
    amount = amount;
    tags = tags;
  }

abbrev pub vendor_ref : Text → NameRef
vendor_ref id = record { kind = vendor; id = id }

abbrev pub bill_debit : NameRef → BillLine → LineInput
bill_debit name l =
    debit_line l.account_id l.amount (some name) (truthy (some l.description)) l.tags

abbrev pub bill_memo : Option Text → Option Text → Text
bill_memo number memo =
    let label : Text = elim number [ none ↦ codes "Bill" | some n ↦ codes "Bill " ++ n ] in
    elim memo [ none ↦ label | some m ↦ label ++ codes ": " ++ m ]

-- The entry that entering a bill posts.
unfoldable pub bill_entry :
    Books → Text → Text → IsoDate → Text → List BillLine → Fallible EntryInput
bill_entry books id vendor_id date memo lines = do
  let name = vendor_ref vendor_id
  payable ← from_ledger (find_system_account books SystemRole.accounts_payable)
  ok record {
    date = date;
    memo = some memo;
    source = some (posted_for SourceKind.bill id);
    lines =
        map (bill_debit name) lines
        ++ credit_line payable.id (bill_total lines) (some name) none none ∷ [];
  }

module _ (lower_case : Text → Text) where
  -- A bill of the vendor that counts, with the same number.
  abbrev pub has_number : Text → Text → Bill → Bool
  has_number vendor_id number b =
      not (is_truthy b.void_entry_id)
      && text_eq b.vendor_id vendor_id
      && elim b.number [ none ↦ false | some n ↦ text_eq (lower_case n) (lower_case number) ]

  abbrev pub is_entered_twice : Sales → Text → Option Text → Bool
  is_entered_twice sales vendor_id number = elim number [
    | none ↦ false
    | some n ↦ any (has_number vendor_id n) sales.bills
  ]

  module _ (h : Hashes) where
    unfoldable pub enter_bill :
        Books → Sales → BillInput → Text → Fallible (Books × Sales × Bill × Entry)
    enter_bill books sales input now = do
      owner ← find_vendor sales input.vendor_id
      fail_if (not owner.active) (refused vendor_inactive)
      date ← from_ledger (assert_date input.date)
      let terms = or_else input.terms owner.terms
      due_date ← date_or_later input.due_date date (terms_days terms)
      fail_if (text_lt due_date date) (refused due_before_date)
      let number = trimmed input.number
      fail_if (is_entered_twice sales owner.id number) (refused bill_entered_twice)
      fail_if (length input.lines == 0) (refused no_lines)
      lines ← traverse (clean_bill_line books) input.lines
      attachments ← traverse clean_attachment input.attachments
      let id = codes "bill-" ++ show sales.next_bill
      let memo = trimmed input.memo
      entry_input ← bill_entry books id owner.id date (bill_memo number memo) lines
      (posted_books, entry) ← from_ledger (post_entry h books entry_input now)
      let bill : Bill = record {
        id = id;
        vendor_id = owner.id;
        number = number;
        date = date;
        due_date = due_date;
        terms = terms;
        lines = lines;
        memo = memo;
        attachments = attachments;
        entry_id = entry.id;
        void_entry_id = none;
      }
      ok (
        posted_books,
        record sales { bills = sales.bills ++ bill ∷ []; next_bill = sales.next_bill + 1 },
        bill,
        entry,
      )

    unfoldable pub void_bill :
        Books → Sales → Text → Option IsoDate → Text → Fallible (Books × Sales)
    void_bill books sales id date now = do
      bill ← find_bill sales id
      fail_if (is_truthy bill.void_entry_id) (refused already_void)
      fail_if (ltb_ℤ (pos 0) (bill_paid sales id none)) (refused payments_applied)
      let memo = codes "Void " ++ lower_case (bill_label bill)
      (reversed_books, entry) ←
          from_ledger
            (reverse_entry h books bill.entry_id (record { date = date; memo = some memo }) now)
      let next : Bill = record bill { void_entry_id = some entry.id }
      ok (reversed_books, record sales { bills = replace_bill id next sales.bills })

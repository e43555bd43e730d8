-- ===== src/Ledger/Books/Journal.antt =====
-- Posting, reversing and editing entries (packages/ledger/src/books.ts).
pub mod Inversion
pub mod Validity
pub mod Preserve
pub mod Growth
pub mod Balances
pub mod Edit
pub mod Rules
pub mod Inactive
pub mod Unbalanced
use pnw.Base.{
  ℕ, ◌+◌, Bool, true, false, not, ◌&&◌, ◌||◌, Option, none, some, List, [], ◌∷◌, ◌++◌, leb, ltb,
  ◌==◌, map, find, last?, length, or_else, all, if◌then◌else◌,
}
use pnw.Data.Int.{ℤ, pos, ◌+ℤ◌, ltb_ℤ, eqb_ℤ}
use pnw.Data.Result.{ok, err, ◌>>=◌, ◌>>◌, fail_if, or_fail, traverse}
use pnw.Data.Text.{Text, codes, text_eq, opt_eq, truthy, is_truthy, is_digit}
use pnw.Data.Decimal.{show}
use pnw.Data.Dict.{Dict, lookup}
use pnw.Ledger.Errors.{
  Ledger, bad_amount, bad_line, bad_doc, empty_entry, unbalanced, unknown_account, inactive_account,
  name_required, unknown_entry, already_reversed, period_locked,
}
use pnw.Ledger.Money.{Cents, sum_cents}
use pnw.Ledger.Periods.{
  IsoDate, assert_date, assert_open, period_of, status_of, PeriodStatus, is_locked,
}
use pnw.Ledger.Accounts.{Account, AccountType}
use pnw.Ledger.Books.State.{
  Books, Entry, EntryInput, Unhashed, Line, LineInput, Amount, bigint, not_bigint, NameRef,
  NameKind, customer, vendor, Source, SourceKind, manual, reversal, account_map, Hashes, hash_entry,
  genesis_hash,
}

-- `input.debit ?? 0n`, if it is a `bigint`.
abbrev pub amount_of : Option Amount → Ledger Cents
amount_of none = ok (pos 0)
amount_of (some (bigint c)) = ok c
amount_of (some not_bigint) = err bad_amount

abbrev pub names : NameKind → Option NameRef → Bool
names kind none = false
names customer (some n) = elim n.kind [ customer ↦ true | _ ↦ false ]
names vendor (some n) = elim n.kind [ vendor ↦ true | _ ↦ false ]
names _ (some n) = false

abbrev pub needs_customer : Account → Option NameRef → Bool
needs_customer acct name = elim acct.type [
  | AccountType.accounts_receivable ↦ not (names customer name)
  | _ ↦ false
]

abbrev pub needs_vendor : Account → Option NameRef → Bool
needs_vendor acct name = elim acct.type [
  | AccountType.accounts_payable ↦ not (names vendor name)
  | _ ↦ false
]

unfoldable pub normalize_line : Dict Account → LineInput → Ledger Line
normalize_line accounts input = do
  debit ← amount_of input.debit
  credit ← amount_of input.credit
  fail_if (ltb_ℤ debit (pos 0) || ltb_ℤ credit (pos 0)) bad_line
  let has_debit = ltb_ℤ (pos 0) debit
  let has_credit = ltb_ℤ (pos 0) credit
  fail_if (has_debit && has_credit || not has_debit && not has_credit) bad_line
  acct ← or_fail (lookup input.account_id accounts) unknown_account
  fail_if (not acct.active) inactive_account
  fail_if (needs_customer acct input.name) name_required
  fail_if (needs_vendor acct input.name) name_required
  ok (record {
    account_id = input.account_id;
    debit = debit;
    credit = credit;
    memo = input.memo;
    name = input.name;
    tags = input.tags;
  })

abbrev pub debits : List Line → Cents
debits lines = sum_cents (map (λ l. l.debit) lines)

abbrev pub credits : List Line → Cents
credits lines = sum_cents (map (λ l. l.credit) lines)

unfoldable pub normalize_lines : Books → List LineInput → Ledger (List Line)
normalize_lines books inputs = do
  fail_if (ltb (length inputs) 2) empty_entry
  lines ← traverse (normalize_line (account_map books)) inputs
  fail_if (not (eqb_ℤ (debits lines) (credits lines))) unbalanced
  ok lines

-- The fields that `append` is handed: an entry without its place in the chain.
pub record Draft : Type 0 where
  pub date : IsoDate
  pub memo : Option Text
  pub source : Source
  pub lines : List Line
  pub reverses : Option Text
  pub replaces : Option Text

-- `je-${seq}`
abbrev pub entry_id : ℕ → Text
entry_id seq = codes "je-" ++ show seq

-- `books.entries[books.entries.length - 1]?.hash ?? GENESIS_HASH`
abbrev pub last_hash : List Entry → Text
last_hash entries = elim (last? entries) [ none ↦ genesis_hash | some e ↦ e.hash ]

abbrev is_hex : ℕ → Bool
is_hex c = is_digit c || leb b'a' c && leb c b'f'

-- DOC_HASH = /^[0-9a-f]{64}$/
abbrev pub is_doc_hash : Text → Bool
is_doc_hash doc = all is_hex doc && (length doc == 64)

abbrev pub bad_doc_hash : Source → Bool
bad_doc_hash source = elim source.doc [ none ↦ false | some doc ↦ not (is_doc_hash doc) ]

unfoldable pub normalize_source : Option Source → Ledger Source
normalize_source none = ok (record { kind = manual; ref = none; doc = none })
normalize_source (some source) = do fail_if (bad_doc_hash source) bad_doc; ok source

unfoldable pub find_entry : Books → Text → Ledger Entry
find_entry books id = or_fail (find (λ e. text_eq e.id id) books.entries) unknown_entry

-- The reversal that cancels `id`, if any.
unfoldable pub reversal_of : Books → Text → Option Entry
reversal_of books id = find (λ e. opt_eq e.reverses (some id)) books.entries

abbrev pub mirror : Line → Line
mirror l = record l { debit = l.credit; credit = l.debit }

abbrev pub reversal_memo : Entry → Text
reversal_memo original =
    codes "Reverses "
    ++ original.id
    ++ elim (truthy original.memo) [ none ↦ [] | some memo ↦ codes ": " ++ memo ]

pub record ReverseOptions : Type 0 where
  pub date : Option IsoDate
  pub memo : Option Text

abbrev is_reversal : Option Source → Bool
is_reversal none = false
is_reversal (some s) = elim s.kind [ reversal ↦ true | _ ↦ false ]

abbrev pub period_is_locked : Books → Text → Bool
period_is_locked books period = elim (status_of books.marks period) [ is_locked ↦ true | _ ↦ false ]

abbrev pub is_some : {A : Type 0} → Option A → Bool
is_some none = false
is_some (some _) = true

module _ (h : Hashes) where
  -- `now` is what the clock says when the entry is appended.
  unfoldable pub append : Books → Draft → Text → Books × Entry
  append books draft now =
      let seq = length books.entries + 1 in
      let unhashed : Unhashed = record {
        id = entry_id seq;
        seq = seq;
        date = draft.date;
        memo = draft.memo;
        source = draft.source;
        lines = draft.lines;
        posted_at = now;
        reverses = draft.reverses;
        replaces = draft.replaces;
        prev_hash = last_hash books.entries;
      } in
      let entry : Entry = record { body = unhashed; hash = hash_entry h unhashed } in
      (record books { entries = books.entries ++ entry ∷ [] }, entry)

  unfoldable pub post : Books → EntryInput → Option Text → Text → Ledger (Books × Entry)
  post books input replaces now = do
    date ← assert_date input.date
    assert_open books.marks date
    source ← normalize_source input.source
    lines ← normalize_lines books input.lines
    let draft : Draft = record {
      date = date;
      memo = truthy input.memo;
      source = source;
      lines = lines;
      reverses = none;
      replaces = replaces;
    }
    ok (append books draft now)

  unfoldable pub post_entry : Books → EntryInput → Text → Ledger (Books × Entry)
  unfolding post
  post_entry books input now = do
    fail_if (is_reversal input.source) bad_line
    post books input none now

  unfoldable pub reverse_entry : Books → Text → ReverseOptions → Text → Ledger (Books × Entry)
  reverse_entry books id options now = do
    original ← find_entry books id
    fail_if (is_truthy original.reverses) already_reversed
    fail_if (is_some (reversal_of books id)) already_reversed
    period ← period_of original.date
    fail_if (period_is_locked books period) period_locked
    date ← assert_date (or_else options.date original.date)
    assert_open books.marks date
    let draft : Draft = record {
      date = date;
      memo = some (or_else options.memo (reversal_memo original));
      source = record { kind = reversal; ref = some original.id; doc = none };
      lines = map mirror original.lines;
      reverses = some original.id;
      replaces = none;
    }
    ok (append books draft now)

  -- The reversal, then the corrected entry, with the clock read once for each.
  unfoldable pub edit_entry :
      Books → Text → EntryInput → Option IsoDate → Text → Text → Ledger (Books × Entry × Entry)
  edit_entry books id corrected reversal_date now_reversed now_posted = do
    original ← find_entry books id
    date ← assert_date corrected.date
    assert_open books.marks date
    source ← normalize_source corrected.source
    lines ← normalize_lines books corrected.lines
    (reversed_books, reversed) ←
        reverse_entry books id (record { date = truthy reversal_date; memo = none }) now_reversed
    let input : EntryInput = record corrected {
      source = some (or_else corrected.source original.source);
    }
    (posted_books, posted) ← post reversed_books input (some id) now_posted
    ok (posted_books, reversed, posted)

-- ===== src/Ledger/Tests/Samples.antt =====
-- Small books of packages/ledger/src, run step by step.
use pnw.Base.{ℕ, ◌≡◌, refl, none, some, [], ◌∷◌, map, leb, ◌&&◌, if◌then◌else◌, ◌+◌}
use pnw.Data.Int.{pos, ◌+ℤ◌, ◌-ℤ◌, neg}
use pnw.Data.Result.{ok, err}
use pnw.Data.Text.{Text, codes, text_eq, opt_eq, trim}
use pnw.Data.Text.Order.{text_lt}
use pnw.Data.Decimal.{show, read, pad_start2}
use pnw.Data.Dict.{lookup, insert}
use pnw.Data.Json.{stringify, quote}
use pnw.Ledger.Errors.{Ledger}
use pnw.Ledger.Periods.{
  assert_date, assert_period, split_period, match_date, match_period, period_of, status_of,
  assert_open, previous_period,
}
use pnw.Ledger.Money.{sum_cents}
use pnw.Ledger.Accounts.{validate_account, base_of_type, base_of, check_not_under, depth_of}
use pnw.Ledger.Books.State.{
  Books, Entry, EntryInput, LineInput, bigint, Settings, Hashes, map_of, account_map, hash_entry,
  canonical_entry, kind_text, name_kind_text, SourceKind,
}
use pnw.Ledger.Books.Chart.{create_books, add_account, insert_account, balance_of, add_line}
use pnw.Ledger.Books.Journal.{
  post_entry, post, reverse_entry, edit_entry, append, normalize_line, normalize_lines,
  normalize_source, find_entry, reversal_of, ReverseOptions,
}
use pnw.Ledger.Books.Chain.{verify_chain, verify_from}
use pnw.Ledger.Books.History.{Step, Reach}
use pnw.Ledger.Books.Closing.{close_through, reopen_from, lock_through}

-- The hash functions of the tests: every text is its own bytes and its own digest.
abbrev pub hashes : Hashes
hashes = record { blake3_hex = λ bytes. bytes; utf8_to_bytes = λ t. t }

abbrev pub lower : Text → Text
lower = map (λ c. if leb 65 c && leb c 90 then c + 32 else c)

-- Unfolds what the ledger computes with.
unfoldable pub program : Unit {0}
unfolding create_books insert_account add_account validate_account base_of_type base_of
    check_not_under depth_of lookup insert map_of account_map text_eq opt_eq text_lt show read
    pad_start2 stringify assert_date assert_period split_period match_date match_period period_of
    status_of assert_open previous_period sum_cents hash_entry canonical_entry kind_text
    name_kind_text balance_of add_line post_entry post reverse_entry edit_entry append
    normalize_line normalize_lines normalize_source find_entry reversal_of verify_chain verify_from
    quote close_through reopen_from lock_through ◌+ℤ◌ ◌-ℤ◌ neg trim
program = tt

abbrev pub settings : Settings
settings = record { business_name = codes "Acme"; fiscal_year_start_month = 1 }

abbrev pub no_books : Books
no_books = record {
  settings = settings;
  accounts = [];
  entries = [];
  marks = record { closed_through = none; locked_through = none };
  events = [];
  next_account = 1;
}

abbrev pub or_books : Ledger Books → Books
or_books (ok b) = b
or_books (err _) = no_books

unfoldable pub books₀ : Books
unfolding program
books₀ = or_books (create_books lower settings)

pub created : create_books lower settings ≡ ok books₀
unfolding program books₀
created = refl

abbrev pub line : Text → ℕ → ℕ → LineInput
line account debit credit = record {
  account_id = account;
  debit = some (bigint (pos debit));
  credit = some (bigint (pos credit));
  memo = none;
  name = none;
  tags = none;
}

abbrev pub opening : ℕ → EntryInput
opening amount = record {
  date = codes "2026-10-15";
  memo = some (codes "Opening");
  source = none;
  lines = line (codes "acct-2") amount 0 ∷ line (codes "acct-6") 0 amount ∷ [];
}

abbrev pub no_entry : Entry
no_entry = record {
  body = record {
    id = [];
    seq = 0;
    date = [];
    memo = none;
    source = record { kind = SourceKind.manual; ref = none; doc = none };
    lines = [];
    posted_at = [];
    reverses = none;
    replaces = none;
    prev_hash = [];
  };
  hash = [];
}

abbrev pub or_posted : Ledger (Books × Entry) → Books × Entry
or_posted (ok r) = r
or_posted (err _) = (no_books, no_entry)

abbrev pub now : Text
now = codes "2026-10-15T09:00:00.000Z"

abbrev pub as_is : ReverseOptions
as_is = record { date = none; memo = none }

-- The opening balance, posted, then reversed, or edited to another amount.
unfoldable pub posted₁ : Books × Entry
unfolding program books₀
posted₁ = or_posted (post_entry hashes books₀ (opening 12345) now)

pub posted : post_entry hashes books₀ (opening 12345) now ≡ ok posted₁
unfolding program books₀ posted₁
posted = refl

unfoldable pub reversed₁ : Books × Entry
unfolding program books₀ posted₁
reversed₁ = or_posted (reverse_entry hashes posted₁.0 (codes "je-1") as_is now)

pub reversed : reverse_entry hashes posted₁.0 (codes "je-1") as_is now ≡ ok reversed₁
unfolding program books₀ posted₁ reversed₁
reversed = refl

abbrev pub or_edited : Ledger (Books × Entry × Entry) → Books × Entry × Entry
or_edited (ok r) = r
or_edited (err _) = (no_books, no_entry, no_entry)

unfoldable pub edited₁ : Books × Entry × Entry
unfolding program books₀ posted₁
edited₁ = or_edited (edit_entry hashes posted₁.0 (codes "je-1") (opening 999) none now now)

pub edited : edit_entry hashes posted₁.0 (codes "je-1") (opening 999) none now now ≡ ok edited₁
unfolding program books₀ posted₁ edited₁
edited = refl

pub found : find_entry posted₁.0 (codes "je-1") ≡ ok posted₁.1
unfolding program books₀ posted₁
found = refl

pub Reach₁ : Reach lower hashes posted₁.0
Reach₁ =
    Reach.stepped (Reach.created settings books₀ created)
      (Step.posted (opening 12345) now posted₁.1 posted)

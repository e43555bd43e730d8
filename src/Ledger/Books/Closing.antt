-- ===== src/Ledger/Books/Closing.antt =====
-- Closing, reopening and locking periods (packages/ledger/src/books.ts).
pub mod Marks
pub mod Marked
use pnw.Base.{Bool, true, false, not, Option, none, some, List, [], ◌∷◌, ◌++◌}
use pnw.Data.Result.{ok, err, ◌>>=◌, ◌>>◌, fail_if}
use pnw.Data.Text.{Text}
use pnw.Ledger.Errors.{Ledger, bad_close, period_locked}
use pnw.Ledger.Periods.{PeriodId, assert_period, previous_period, within}
use pnw.Ledger.Books.State.{Books, BooksEvent, closed, reopened, locked}

-- Closes every period up to and including `period`.
unfoldable pub close_through : Books → PeriodId → Text → Ledger Books
close_through books period now = do
  checked ← assert_period period
  let marks = books.marks
  fail_if (within marks.closed_through period) bad_close
  ok (record books {
    marks = record marks { closed_through = some period };
    events = books.events ++ closed period now ∷ [];
  })

-- Reopens `period` and everything after it.
unfoldable pub reopen_from : Books → PeriodId → Text → Ledger Books
reopen_from books period now = do
  checked ← assert_period period
  let marks = books.marks
  fail_if (not (within marks.closed_through period)) bad_close
  fail_if (within marks.locked_through period) period_locked
  previous ← previous_period period
  ok (record books {
    marks = record marks { closed_through = some previous };
    events = books.events ++ reopened period now ∷ [];
  })

-- Locks every period up to `period`, for good.
unfoldable pub lock_through : Books → PeriodId → Text → Ledger Books
lock_through books period now = do
  checked ← assert_period period
  let marks = books.marks
  fail_if (not (within marks.closed_through period)) bad_close
  fail_if (within marks.locked_through period) bad_close
  ok (record books {
    marks = record marks { locked_through = some period };
    events = books.events ++ locked period now ∷ [];
  })

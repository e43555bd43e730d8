-- ===== src/Ledger/Books/Closing/Marked.antt =====
-- Sequences of the period operations of packages/ledger/src/books.ts.
use pnw.Base.{ℕ, ◌≤◌, ◌≡◌}
use pnw.Data.Result.{ok}
use pnw.Data.Text.{Text}
use pnw.Ledger.Periods.{PeriodId, split_period}
use pnw.Ledger.Books.State.{Books}
use pnw.Ledger.Books.Closing.{close_through, reopen_from, lock_through}
use pnw.Ledger.Books.Closing.Marks.{
  IsOrdered, close_through-IsOrdered, lock_through-IsOrdered, reopen_from-IsOrdered,
}

-- One operation that succeeded; a period that is reopened is of the year 1001 or later.
pub data Marking (b b' : Books) : Type 0 where
  closes : (period : PeriodId) (now : Text) → close_through b period now ≡ ok b' → Marking b b'
  locks : (period : PeriodId) (now : Text) → lock_through b period now ≡ ok b' → Marking b b'
  reopens :
      (period : PeriodId) (now : Text) (year month : ℕ)
      → split_period period ≡ ok (year, month)
      → 1001 ≤ year
      → reopen_from b period now ≡ ok b'
      → Marking b b'

pub data Marked (b : Books) : Books → Type 0 where
  unmarked : Marked b b
  then_marked : {b' b'' : Books} → Marked b b' → Marking b' b'' → Marked b b''

Marking-IsOrdered : (b b' : Books) → IsOrdered b.marks → Marking b b' → IsOrdered b'.marks
Marking-IsOrdered b b' o (closes period now e) = close_through-IsOrdered b b' period now o e
Marking-IsOrdered b b' o (locks period now e) = lock_through-IsOrdered b b' period now o e
Marking-IsOrdered b b' o (reopens period now year month split recent e) =
    reopen_from-IsOrdered b b' period now year month split recent o e

-- Where the lock is a period and not past the close, it is so after any sequence of closes, locks,
-- and reopenings from periods of the year 1001 or later, that succeed.
pub Marked-IsOrdered : (b b' : Books) → IsOrdered b.marks → Marked b b' → IsOrdered b'.marks
Marked-IsOrdered b _ o unmarked = o
Marked-IsOrdered b b' o (then_marked {b' = between} before step) =
    Marking-IsOrdered between b' (Marked-IsOrdered b between o before) step

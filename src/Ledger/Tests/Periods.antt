-- ===== src/Ledger/Tests/Periods.antt =====
-- Closing, locking and reopening (packages/ledger/src/books.ts) at small books.
use pnw.Base.{◌≡◌, refl, true, none, some, arith, subst}
use pnw.Data.Result.{ok}
use pnw.Data.Text.{Text, codes}
use pnw.Ledger.Periods.{assert_period, status_of, previous_period, within, is_closed}
use pnw.Ledger.Books.State.{Books}
use pnw.Ledger.Books.Closing.Marks.{IsOrdered}
use pnw.Ledger.Books.Closing.Marked.{
  closes, locks, reopens, Marked, unmarked, then_marked, Marked-IsOrdered,
}
use pnw.Ledger.Books.Closing.{close_through, reopen_from, lock_through}
use pnw.Ledger.Tests.Samples.{no_books, or_books, now, program}

-- Closing, locking and reopening periods.
abbrev at : Books → Text → Text → Books
at b closed locked = record b {
  marks = record { closed_through = some closed; locked_through = some locked };
}

closed_books : Books
closed_books = at no_books (codes "2026-08") (codes "2026-06")

IsOrdered₁ : IsOrdered closed_books.marks
unfolding program closed_books
IsOrdered₁ l e =
    subst (λ l. (assert_period l ≡ ok l) × (within (some (codes "2026-08")) l ≡ true)) (same e)
      (refl, refl)
  where
    same : {l : Text} → some (codes "2026-06") ≡ some l → codes "2026-06" ≡ l
    same e = cc

-- September is closed, then everything up to July locked, then September reopened.
closed₁ : Books
unfolding program closed_books
closed₁ = or_books (close_through closed_books (codes "2026-09") now)

locked₁ : Books
unfolding program closed_books closed₁
locked₁ = or_books (lock_through closed₁ (codes "2026-07") now)

reopened₁ : Books
unfolding program closed_books closed₁ locked₁
reopened₁ = or_books (reopen_from locked₁ (codes "2026-09") now)

sequence : Marked closed_books reopened₁
unfolding program closed_books closed₁ locked₁ reopened₁
sequence =
    then_marked
      (then_marked (then_marked unmarked (closes (codes "2026-09") now refl))
        (locks (codes "2026-07") now refl))
      (reopens (codes "2026-09") now 2026 9 refl (omega arith) refl)

Marked-IsOrdered_example : IsOrdered reopened₁.marks
Marked-IsOrdered_example = Marked-IsOrdered closed_books reopened₁ IsOrdered₁ sequence

-- Before the year 1001 the month before loses a digit, and everything reads as closed.
previous_period_short : previous_period (codes "1000-01") ≡ ok (codes "999-12")
unfolding program
previous_period_short = refl

reopen_early_closes :
    status_of
      (record { closed_through = some (codes "999-12"); locked_through = none })
      (codes "2026-10")
    ≡ is_closed
unfolding program
reopen_early_closes = refl

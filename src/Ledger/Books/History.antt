-- ===== src/Ledger/Books/History.antt =====
-- What may happen to the books: any sequence of the operations that packages/ledger/src/books.ts
-- exports, each a step that succeeded.
pub mod Chart
pub mod Reachable
pub mod AppendOnly
pub mod Walks
pub mod Ends
use pnw.Base.{ℕ, ◌≡◌, Option, List}
use pnw.Data.Result.{ok}
use pnw.Data.Text.{Text}
use pnw.Ledger.Periods.{IsoDate, PeriodId}
use pnw.Ledger.Accounts.{Account, AccountInput}
use pnw.Ledger.Books.State.{Books, Settings, Entry, EntryInput, Hashes}
use pnw.Ledger.Books.Chart.{
  AccountChanges, create_books, add_account, update_account, deactivate_account, reactivate_account,
}
use pnw.Ledger.Books.Journal.{post_entry, reverse_entry, edit_entry, ReverseOptions}
use pnw.Ledger.Books.Closing.{close_through, reopen_from, lock_through}

module _ (lower_case : Text → Text) (h : Hashes) where
  pub data Step (b b' : Books) : Type 0 where
    posted :
        (input : EntryInput) (now : Text) (e : Entry)
        → post_entry h b input now ≡ ok (b', e)
        → Step b b'
    reversed :
        (id : Text) (options : ReverseOptions) (now : Text) (e : Entry)
        → reverse_entry h b id options now ≡ ok (b', e)
        → Step b b'
    edited :
        (id : Text) (corrected : EntryInput) (date : Option IsoDate)
        (now_reversed now_posted : Text) (r e : Entry)
        → edit_entry h b id corrected date now_reversed now_posted ≡ ok (b', r, e)
        → Step b b'
    account_added :
        (input : AccountInput) (a : Option Account)
        → add_account lower_case b input ≡ ok (b', a)
        → Step b b'
    account_updated :
        (id : Text) (changes : AccountChanges)
        → update_account lower_case b id changes ≡ ok b'
        → Step b b'
    deactivated : (id : Text) → deactivate_account b id ≡ ok b' → Step b b'
    reactivated : (id : Text) → reactivate_account b id ≡ ok b' → Step b b'
    closed : (period : PeriodId) (now : Text) → close_through b period now ≡ ok b' → Step b b'
    reopened : (period : PeriodId) (now : Text) → reopen_from b period now ≡ ok b' → Step b b'
    locked : (period : PeriodId) (now : Text) → lock_through b period now ≡ ok b' → Step b b'

  -- The books that a business can have.
  pub data Reach : Books → Type 0 where
    created : (settings : Settings) (b : Books) → create_books lower_case settings ≡ ok b → Reach b
    stepped : {b b' : Books} → Reach b → Step b b' → Reach b'

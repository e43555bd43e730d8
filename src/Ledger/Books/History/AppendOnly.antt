-- ===== src/Ledger/Books/History/AppendOnly.antt =====
-- The journal of packages/ledger/src/books.ts is append-only: no operation removes or changes an
-- entry.
use pnw.Base.{◌≡◌, sym, ◌∙◌, ap, List, [], ◌∷◌, ◌++◌}
use mathlib.Core.List.{append-nil}
use pnw.Data.Text.{Text}
use pnw.Ledger.Books.State.{Books, Entry, Hashes}
use pnw.Ledger.Books.Journal.Growth.{post_entry-extend, reverse_entry-extend, edit_entry-extend}
use pnw.Ledger.Books.History.{Step}
use pnw.Ledger.Books.History.Chart.{
  KeepsJournal, add_account-KeepsJournal, update_account-KeepsJournal,
  deactivate_account-KeepsJournal, reactivate_account-KeepsJournal, close_through-KeepsJournal,
  reopen_from-KeepsJournal, lock_through-KeepsJournal,
}

-- The entries of `b` stand unchanged at the front of those of `b'`.
abbrev pub Extends : Books → Books → Type 0
Extends b b' = (new : List Entry) × (b'.entries ≡ b.entries ++ new)

KeepsJournal-Extends : (b b' : Books) → KeepsJournal b b' → Extends b b'
KeepsJournal-Extends b b' k = ([], k.same_entries ∙ sym (append-nil b.entries))

module _ (lower_case : Text → Text) (h : Hashes) where
  -- Every operation that succeeds leaves the entries that were there as they were, in their order,
  -- and adds its own behind them.
  pub Step-Extends : (b b' : Books) → Step lower_case h b b' → Extends b b'
  Step-Extends b b' (Step.posted input now e p) =
      (e ∷ [], ap (λ (b : Books). b.entries) (post_entry-extend h b input now (b', e) p))
  Step-Extends b b' (Step.reversed id options now e p) =
      (e ∷ [], ap (λ (b : Books). b.entries) (reverse_entry-extend h b id options now (b', e) p))
  Step-Extends b b' (Step.edited id corrected date now_r now_p r e p) = (
    r ∷ e ∷ [],
    ap (λ (b : Books). b.entries)
        (edit_entry-extend h b id corrected date now_r now_p (b', r, e) p),
  )
  Step-Extends b b' (Step.account_added input a p) =
      KeepsJournal-Extends b b' (add_account-KeepsJournal lower_case b input b' a p)
  Step-Extends b b' (Step.account_updated id changes p) =
      KeepsJournal-Extends b b' (update_account-KeepsJournal lower_case b id changes b' p)
  Step-Extends b b' (Step.deactivated id p) =
      KeepsJournal-Extends b b' (deactivate_account-KeepsJournal b id b' p)
  Step-Extends b b' (Step.reactivated id p) =
      KeepsJournal-Extends b b' (reactivate_account-KeepsJournal b id b' p)
  Step-Extends b b' (Step.closed period now p) =
      KeepsJournal-Extends b b' (close_through-KeepsJournal b period now b' p)
  Step-Extends b b' (Step.reopened period now p) =
      KeepsJournal-Extends b b' (reopen_from-KeepsJournal b period now b' p)
  Step-Extends b b' (Step.locked period now p) =
      KeepsJournal-Extends b b' (lock_through-KeepsJournal b period now b' p)

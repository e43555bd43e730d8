-- ===== src/Ledger/Books/History/Reachable.antt =====
-- What holds of all books that the operations of packages/ledger/src/books.ts can make.
use pnw.Base.{
  ◌+◌, ◌≡◌, refl, sym, ap, ◌∙◌, subst, true, none, some, List, [], ◌∷◌, arith, All, any, length,
  select, ◌≤◌,
}
use pnw.Data.Result.{ok, >>=-eq-ok, ok-injective}
use pnw.Data.Text.{Text}
use pnw.Ledger.Accounts.{Account, AccountInput, SystemRole, AccountType, system_accounts}
use pnw.Ledger.Books.State.{Books, Settings, Entry, Line, Hashes, genesis_hash}
use pnw.Ledger.Books.Chart.{create_books, insert_all, insert_account, empty_books, has_id}
use pnw.Ledger.Books.Chart.Keys.{HasIds}
use pnw.Ledger.Books.Chain.{intact, verify_chain, verify_from}
use pnw.Ledger.Books.Journal.Inversion.{IsLine}
use pnw.Ledger.Books.Journal.Validity.{IsEntry, IsNumbered, IsValid, cancels}
use pnw.Ledger.Books.Journal.Preserve.{
  post_entry-IsValid, reverse_entry-IsValid, edit_entry-IsValid,
}
use pnw.Ledger.Books.Journal.Growth.{post_entry-extend, reverse_entry-extend, edit_entry-extend}
use pnw.Ledger.Books.History.{Step, Reach}
use pnw.Ledger.Books.History.Chart.{
  KeepsJournal, insert_account-KeepsJournal, add_account-KeepsJournal, update_account-KeepsJournal,
  deactivate_account-KeepsJournal, reactivate_account-KeepsJournal, close_through-KeepsJournal,
  reopen_from-KeepsJournal, lock_through-KeepsJournal,
}

-- More accounts known: lines and entries stay well formed.
lines_mono :
    (as' bs : List Account) (ls : List Line)
    → ((k : Text) → any (has_id k) as' ≡ true → any (has_id k) bs ≡ true)
    → All (IsLine as') ls
    → All (IsLine bs) ls
lines_mono as' bs [] keep h = tt
lines_mono as' bs (l ∷ ls) keep h = (
  record {
    one_sided = h.0.one_sided;
    debit_nonneg = h.0.debit_nonneg;
    credit_nonneg = h.0.credit_nonneg;
    known = keep l.account_id h.0.known;
  },
  lines_mono as' bs ls keep h.1,
)

entries_mono :
    (as' bs : List Account) (es : List Entry)
    → ((k : Text) → any (has_id k) as' ≡ true → any (has_id k) bs ≡ true)
    → All (IsEntry as') es
    → All (IsEntry bs) es
entries_mono as' bs [] keep h = tt
entries_mono as' bs (e ∷ es) keep h = (
  record {
    lines = record {
      lines_ok = lines_mono as' bs e.lines keep h.0.lines.lines_ok;
      balanced = h.0.lines.balanced;
      two = h.0.lines.two;
    };
    dated = h.0.dated;
    source = h.0.source;
  },
  entries_mono as' bs es keep h.1,
)

-- The books as a whole: the journal is sound and the accounts are numbered in order.
pub record IsSound (h : Hashes) (b : Books) : Type 0 where
  pub valid : IsValid h b
  pub ids : HasIds 0 b.accounts
  pub next : b.next_account ≡ length b.accounts + 1

module _ (h : Hashes) where
  KeepsJournal-IsValid : (b b' : Books) → KeepsJournal b b' → IsValid h b → IsValid h b'
  unfolding verify_chain
  KeepsJournal-IsValid b b' k v =
      let same = sym k.same_entries in
      record {
        entries_ok =
            subst (All (IsEntry b'.accounts)) same
              (entries_mono b.accounts b'.accounts b.entries k.known v.entries_ok);
        numbered = subst (IsNumbered 0) same v.numbered;
        chain = subst (λ es. verify_from h 0 genesis_hash es ≡ intact) same v.chain;
        reversed_once =
            λ id. subst (λ es. length (select (cancels id) es) ≤ 1) same (v.reversed_once id);
      }

  KeepsJournal-IsSound : (b b' : Books) → KeepsJournal b b' → IsSound h b → IsSound h b'
  KeepsJournal-IsSound b b' k s = record {
    valid = KeepsJournal-IsValid b b' k s.valid;
    ids = k.ids s.ids s.next;
    next = k.next s.next;
  }

module _ (lower_case : Text → Text) (h : Hashes) where
  insert_all-IsSound :
      (accounts : List (SystemRole × Text × AccountType)) (b b' : Books)
      → IsSound h b
      → insert_all lower_case accounts b ≡ ok b'
      → IsSound h b'
  insert_all-IsSound [] b b' s e = subst (IsSound h) (ok-injective b b' e) s
  insert_all-IsSound ((role, name, type) ∷ rest) b b' s e =
      let input : AccountInput = record {
        name = name;
        number = none;
        type = type;
        parent_id = none;
        description = none;
      } in
      let (next, inserted, e') =
        >>=-eq-ok (insert_account lower_case b input (some role)) (insert_all lower_case rest) e in
      insert_all-IsSound rest next b'
        (KeepsJournal-IsSound h b next
          (insert_account-KeepsJournal lower_case b input (some role) next inserted) s)
        e'

  empty_books-IsSound : (settings : Settings) → IsSound h (empty_books settings)
  unfolding verify_chain
  empty_books-IsSound settings = record {
    valid = record {
      entries_ok = tt;
      numbered = tt;
      chain = refl;
      reversed_once = λ id. omega arith;
    };
    ids = tt;
    next = refl;
  }

  create_books-IsSound :
      (settings : Settings) (b : Books) → create_books lower_case settings ≡ ok b → IsSound h b
  unfolding create_books
  create_books-IsSound settings b e =
      insert_all-IsSound system_accounts (empty_books settings) b (empty_books-IsSound settings)
        (ground arith)

  -- The chart that a posting finds is the chart that it leaves.
  journal-IsSound :
      (b b' : Books)
      → IsSound h b
      → IsValid h b'
      → b'.accounts ≡ b.accounts
      → b'.next_account ≡ b.next_account
      → IsSound h b'
  journal-IsSound b b' s v same next = record {
    valid = v;
    ids = subst (HasIds 0) (sym same) s.ids;
    next = next ∙ s.next ∙ ap (λ (as' : List Account). length as' + 1) (sym same);
  }

  Step-IsSound : {b b' : Books} → Step lower_case h b b' → IsSound h b → IsSound h b'
  Step-IsSound {b} {b'} (Step.posted input now e p) s =
      let g = post_entry-extend h b input now (b', e) p in
      journal-IsSound b b' s (post_entry-IsValid h b input now (b', e) s.valid p)
        (ap (λ (b : Books). b.accounts) g) (ap (λ (b : Books). b.next_account) g)
  Step-IsSound {b} {b'} (Step.reversed id options now e p) s =
      let g = reverse_entry-extend h b id options now (b', e) p in
      journal-IsSound b b' s (reverse_entry-IsValid h b id options now (b', e) s.valid p)
        (ap (λ (b : Books). b.accounts) g) (ap (λ (b : Books). b.next_account) g)
  Step-IsSound {b} {b'} (Step.edited id corrected date now_r now_p r e p) s =
      let g = edit_entry-extend h b id corrected date now_r now_p (b', r, e) p in
      journal-IsSound b b' s
        (edit_entry-IsValid h b id corrected date now_r now_p (b', r, e) s.valid p)
        (ap (λ (b : Books). b.accounts) g) (ap (λ (b : Books). b.next_account) g)
  Step-IsSound {b} {b'} (Step.account_added input a p) s =
      KeepsJournal-IsSound h b b' (add_account-KeepsJournal lower_case b input b' a p) s
  Step-IsSound {b} {b'} (Step.account_updated id changes p) s =
      KeepsJournal-IsSound h b b' (update_account-KeepsJournal lower_case b id changes b' p) s
  Step-IsSound {b} {b'} (Step.deactivated id p) s =
      KeepsJournal-IsSound h b b' (deactivate_account-KeepsJournal b id b' p) s
  Step-IsSound {b} {b'} (Step.reactivated id p) s =
      KeepsJournal-IsSound h b b' (reactivate_account-KeepsJournal b id b' p) s
  Step-IsSound {b} {b'} (Step.closed period now p) s =
      KeepsJournal-IsSound h b b' (close_through-KeepsJournal b period now b' p) s
  Step-IsSound {b} {b'} (Step.reopened period now p) s =
      KeepsJournal-IsSound h b b' (reopen_from-KeepsJournal b period now b' p) s
  Step-IsSound {b} {b'} (Step.locked period now p) s =
      KeepsJournal-IsSound h b b' (lock_through-KeepsJournal b period now b' p) s

  -- Books that `createBooks` makes and any sequence of successful operations changes have entries
  -- that balance, on real dates, with each line a positive debit or credit on an account of the
  -- books; entry number i has sequence number i and id `je-i`, the hash chain is intact, no entry is
  -- reversed twice, and account number i has id `acct-i`.
  pub Reach-IsSound : {b : Books} → Reach lower_case h b → IsSound h b
  Reach-IsSound (Reach.created settings b e) = create_books-IsSound settings b e
  Reach-IsSound (Reach.stepped r st) = Step-IsSound st (Reach-IsSound r)

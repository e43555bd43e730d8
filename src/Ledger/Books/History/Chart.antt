-- ===== src/Ledger/Books/History/Chart.antt =====
-- What the operations on accounts and periods of packages/ledger/src/books.ts leave alone: the
-- journal, and the ids of the accounts.
use pnw.Base.{
  ℕ, ◌+◌, ◌≡◌, refl, sym, ap, ◌∙◌, subst, Bool, true, false, Option, none, some, List, [], ◌∷◌,
  ◌++◌, arith, any, length, last?, inl, inr, Option-cases, length-append,
}
use pnw.Data.Result.{ok, >>=-eq-ok, ok-injective}
use pnw.Data.Text.{Text, text_eq_iff, trim}
use pnw.Data.Dict.{lookup}
use pnw.Ledger.Periods.{PeriodId, PeriodMarks}
use pnw.Ledger.Accounts.{Account, AccountInput, SystemRole}
use pnw.Ledger.Books.State.{Books, BooksEvent, account_map}
use pnw.Ledger.Books.Chart.{
  AccountChanges, insert_account, add_account, update_account, deactivate_account,
  reactivate_account, has_id, changed, replace, account_id,
}
use pnw.Ledger.Books.Chart.Keys.{
  HasIds, HasIds-snoc, HasIds-replace, length-replace, known-snoc, known-replace, id-of_lookup,
}
use pnw.Ledger.Books.Closing.{close_through, reopen_from, lock_through}

-- What a step on the chart may do: the journal stays, the ids stay in order, no account goes.
pub record KeepsJournal (b b' : Books) : Type 0 where
  pub same_entries : b'.entries ≡ b.entries
  pub ids : HasIds 0 b.accounts → b.next_account ≡ length b.accounts + 1 → HasIds 0 b'.accounts
  pub next : b.next_account ≡ length b.accounts + 1 → b'.next_account ≡ length b'.accounts + 1
  pub known : (k : Text) → any (has_id k) b.accounts ≡ true → any (has_id k) b'.accounts ≡ true

next_number : (n len : ℕ) → n ≡ len + 1 → n ≡ 0 + len + 1
next_number n len e = omega arith

replace-KeepsJournal :
    (b : Books) (id : Text) (f : Account → Account)
    → ((a : Account) → has_id id a ≡ true → (f a).id ≡ a.id)
    → KeepsJournal b (record b { accounts = replace id f b.accounts })
replace-KeepsJournal b id f keep = record {
  same_entries = refl;
  ids = λ h e. HasIds-replace 0 id f b.accounts keep h;
  next = λ e. e ∙ sym (ap1 (length-replace id f b.accounts));
  known = λ k h. known-replace k id f b.accounts keep ∙ h;
}
  where
    ap1 : {m n : ℕ} → m ≡ n → m + 1 ≡ n + 1
    ap1 e = omega arith

module _ (lower_case : Text → Text) where
  -- A new account is numbered next, and stands at the end.
  pub insert_account-shape :
      (b : Books) (input : AccountInput) (system : Option SystemRole) (b' : Books)
      → insert_account lower_case b input system ≡ ok b'
      → (a : Account) × (a.id ≡ account_id b.next_account)
        × (b' ≡ record b { accounts = b.accounts ++ a ∷ []; next_account = b.next_account + 1 })
  unfolding insert_account
  insert_account-shape b input system b' e = (
    record {
      id = account_id b.next_account;
      name = trim input.name;
      number = input.number;
      type = input.type;
      parent_id = input.parent_id;
      description = input.description;
      active = true;
      system = system;
    },
    refl,
    ground arith,
  )

  pub insert_account-KeepsJournal :
      (b : Books) (input : AccountInput) (system : Option SystemRole) (b' : Books)
      → insert_account lower_case b input system ≡ ok b'
      → KeepsJournal b b'
  insert_account-KeepsJournal b input system b' e =
      let (a, numbered, made) = insert_account-shape b input system b' e in
      subst (KeepsJournal b) (sym made) (record {
        same_entries = refl;
        ids = λ h n.
            HasIds-snoc 0 b.accounts a h
              (numbered ∙ ap account_id (next_number b.next_account (length b.accounts) n));
        next = λ n. omega (arith, length-append b.accounts (a ∷ []));
        known = λ k h. known-snoc k b.accounts a h;
      })

  pub add_account-KeepsJournal :
      (b : Books) (input : AccountInput) (b' : Books) (a : Option Account)
      → add_account lower_case b input ≡ ok (b', a)
      → KeepsJournal b b'
  unfolding add_account
  add_account-KeepsJournal b input b' a e =
      let (next, inserted, e') =
        >>=-eq-ok (insert_account lower_case b input none) (λ next. ok (next, last? next.accounts))
          e in
      subst (KeepsJournal b) (ap (λ (r : Books × Option Account). r.0) (ok-injective _ _ e'))
        (insert_account-KeepsJournal b input none next inserted)

  update_account-shape :
      (b : Books) (id : Text) (changes : AccountChanges) (b' : Books)
      → update_account lower_case b id changes ≡ ok b'
      → (current : Account) × (lookup id (account_map b) ≡ some current)
        × (b' ≡ record b { accounts = replace id (λ _. changed current changes) b.accounts })
  unfolding update_account
  update_account-shape b id changes b' e = elim (Option-cases (lookup id (account_map b))) [
    | inl absent ↦ absurd (ground arith)
    | inr (current, found) ↦ (current, found, ground arith)
  ]

  pub update_account-KeepsJournal :
      (b : Books) (id : Text) (changes : AccountChanges) (b' : Books)
      → update_account lower_case b id changes ≡ ok b'
      → KeepsJournal b b'
  unfolding account_map
  update_account-KeepsJournal b id changes b' e =
      let (current, found, made) = update_account-shape b id changes b' e in
      let same = id-of_lookup b.accounts id current found in
      subst (KeepsJournal b) (sym made) (
        replace-KeepsJournal b id (λ _. changed current changes)
          (λ a hit. same ∙ sym ((text_eq_iff a.id id).0 hit)))

-- An account is switched on or off in its place.
set_active-KeepsJournal :
    (b : Books) (id : Text) (on : Bool) (b' : Books)
    → b' ≡ record b { accounts = replace id (λ a. record a { active = on }) b.accounts }
    → KeepsJournal b b'
set_active-KeepsJournal b id on b' made =
    subst (KeepsJournal b) (sym made)
      (replace-KeepsJournal b id (λ a. record a { active = on }) (λ a hit. refl))

pub deactivate_account-KeepsJournal :
    (b : Books) (id : Text) (b' : Books) → deactivate_account b id ≡ ok b' → KeepsJournal b b'
unfolding deactivate_account
deactivate_account-KeepsJournal b id b' e = set_active-KeepsJournal b id false b' (ground arith)

pub reactivate_account-KeepsJournal :
    (b : Books) (id : Text) (b' : Books) → reactivate_account b id ≡ ok b' → KeepsJournal b b'
unfolding reactivate_account
reactivate_account-KeepsJournal b id b' e = set_active-KeepsJournal b id true b' (ground arith)

-- The period operations touch only the marks and the log of events.
same_chart :
    (b b' : Books) (marks : PeriodMarks) (events : List BooksEvent)
    → b' ≡ record b { marks = marks; events = events }
    → KeepsJournal b b'
same_chart b b' marks events made =
    subst (KeepsJournal b) (sym made)
      (record { same_entries = refl; ids = λ h _. h; next = λ n. n; known = λ _ h. h })

pub close_through-KeepsJournal :
    (b : Books) (period : PeriodId) (now : Text) (b' : Books)
    → close_through b period now ≡ ok b'
    → KeepsJournal b b'
unfolding close_through
close_through-KeepsJournal b period now b' e = same_chart b b' b'.marks b'.events (ground arith)

pub reopen_from-KeepsJournal :
    (b : Books) (period : PeriodId) (now : Text) (b' : Books)
    → reopen_from b period now ≡ ok b'
    → KeepsJournal b b'
unfolding reopen_from
reopen_from-KeepsJournal b period now b' e = same_chart b b' b'.marks b'.events (ground arith)

pub lock_through-KeepsJournal :
    (b : Books) (period : PeriodId) (now : Text) (b' : Books)
    → lock_through b period now ≡ ok b'
    → KeepsJournal b b'
unfolding lock_through
lock_through-KeepsJournal b period now b' e = same_chart b b' b'.marks b'.events (ground arith)

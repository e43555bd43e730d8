-- ===== src/Ledger/Books/History/Walks.antt =====
-- No chart that the operations of packages/ledger/src/books.ts make has a cycle of parents.
use pnw.Ledger.Periods.{PeriodId}
use pnw.Base.{
  ◌≡◌, sym, ap, subst, true, false, none, some, Option, List, [], ◌∷◌, arith, last?, inl, inr,
  Option-cases,
}
use pnw.Data.Result.{ok, >>=-eq-ok, ok-injective}
use pnw.Data.Text.{Text, trim}
use pnw.Data.Dict.{lookup}
use pnw.Ledger.Accounts.{
  Account, AccountInput, SystemRole, AccountType, system_accounts, validate_account,
}
use pnw.Ledger.Books.State.{Books, Settings, Hashes, account_map}
use pnw.Ledger.Books.Chart.{
  AccountChanges, create_books, insert_all, empty_books, insert_account, add_account,
  update_account, deactivate_account, reactivate_account, changed, replace, account_id,
}
use pnw.Ledger.Books.Chart.Keys.{id-of_lookup}
use pnw.Ledger.Books.Chart.Ends.{validate_account-IsPlaced}
use pnw.Ledger.Books.Chart.Placing.{
  AllEnd, no_accounts, snoc-AllEnd, replaced-AllEnd, set_active-AllEnd,
}
use pnw.Ledger.Books.Closing.{close_through, reopen_from, lock_through}
use pnw.Ledger.Books.Journal.Growth.{post_entry-extend, reverse_entry-extend, edit_entry-extend}
use pnw.Ledger.Books.History.{Step, Reach}

deactivate_account-AllEnd :
    (b : Books) (id : Text) (b' : Books)
    → deactivate_account b id ≡ ok b'
    → AllEnd b.accounts
    → AllEnd b'.accounts
unfolding deactivate_account
deactivate_account-AllEnd b id b' e h =
    let made : b'.accounts ≡ replace id (λ a. record a { active = false }) b.accounts =
      ground arith in
    subst AllEnd (sym made) (set_active-AllEnd b.accounts id false h)

reactivate_account-AllEnd :
    (b : Books) (id : Text) (b' : Books)
    → reactivate_account b id ≡ ok b'
    → AllEnd b.accounts
    → AllEnd b'.accounts
unfolding reactivate_account
reactivate_account-AllEnd b id b' e h =
    let made : b'.accounts ≡ replace id (λ a. record a { active = true }) b.accounts =
      ground arith in
    subst AllEnd (sym made) (set_active-AllEnd b.accounts id true h)

module _ (lower_case : Text → Text) where
  insert_account-AllEnd :
      (b : Books) (input : AccountInput) (system : Option SystemRole) (b' : Books)
      → insert_account lower_case b input system ≡ ok b'
      → AllEnd b.accounts
      → AllEnd b'.accounts
  unfolding insert_account account_map
  insert_account-AllEnd b input system b' e h =
      let a : Account = record {
        id = account_id b.next_account;
        name = trim input.name;
        number = input.number;
        type = input.type;
        parent_id = input.parent_id;
        description = input.description;
        active = true;
        system = system;
      } in
      let (_, valid, done) = >>=-eq-ok (validate_account lower_case (account_map b) a) _ e in
      subst AllEnd (ap (λ (b : Books). b.accounts) (ok-injective _ _ done))
        (snoc-AllEnd b.accounts a (validate_account-IsPlaced lower_case (account_map b) a valid) h)

  add_account-AllEnd :
      (b : Books) (input : AccountInput) (b' : Books) (a : Option Account)
      → add_account lower_case b input ≡ ok (b', a)
      → AllEnd b.accounts
      → AllEnd b'.accounts
  unfolding add_account
  add_account-AllEnd b input b' a e h =
      let (next, inserted, done) =
        >>=-eq-ok (insert_account lower_case b input none) (λ next. ok (next, last? next.accounts))
          e in
      subst (λ (b : Books). AllEnd b.accounts)
        (ap (λ (r : Books × Option Account). r.0) (ok-injective _ _ done))
        (insert_account-AllEnd b input none next inserted h)

  update_account-AllEnd :
      (b : Books) (id : Text) (changes : AccountChanges) (b' : Books)
      → update_account lower_case b id changes ≡ ok b'
      → AllEnd b.accounts
      → AllEnd b'.accounts
  unfolding update_account account_map
  update_account-AllEnd b id changes b' e h = elim (Option-cases (lookup id (account_map b))) [
    | inl absent ↦ absurd (ground arith)
    | inr (current, found) ↦
        let a = changed current changes in
        let valid : validate_account lower_case (account_map b) a ≡ ok tt = ground arith in
        let made : b'.accounts ≡ replace id (λ _. a) b.accounts = ground arith in
        subst AllEnd (sym made) (
          replaced-AllEnd b.accounts id current a found (id-of_lookup b.accounts id current found)
            (validate_account-IsPlaced lower_case (account_map b) a valid) h)
  ]

  insert_all-AllEnd :
      (accounts : List (SystemRole × Text × AccountType)) (b b' : Books)
      → insert_all lower_case accounts b ≡ ok b'
      → AllEnd b.accounts
      → AllEnd b'.accounts
  insert_all-AllEnd [] b b' e h = subst (λ (b : Books). AllEnd b.accounts) (ok-injective b b' e) h
  insert_all-AllEnd ((role, name, type) ∷ rest) b b' e h =
      let input : AccountInput = record {
        name = name;
        number = none;
        type = type;
        parent_id = none;
        description = none;
      } in
      let (next, inserted, e') =
        >>=-eq-ok (insert_account lower_case b input (some role)) (insert_all lower_case rest) e in
      insert_all-AllEnd rest next b' e' (insert_account-AllEnd b input (some role) next inserted h)

  create_books-AllEnd :
      (settings : Settings) (b : Books)
      → create_books lower_case settings ≡ ok b
      → AllEnd b.accounts
  unfolding create_books
  create_books-AllEnd settings b e =
      insert_all-AllEnd system_accounts (empty_books settings) b (ground arith) no_accounts

same-AllEnd : (b b' : Books) → b'.accounts ≡ b.accounts → AllEnd b.accounts → AllEnd b'.accounts
same-AllEnd b b' same h = subst AllEnd (sym same) h

close_through-accounts :
    (b b' : Books) (period : PeriodId) (now : Text)
    → close_through b period now ≡ ok b'
    → b'.accounts ≡ b.accounts
unfolding close_through
close_through-accounts b b' period now e = ground arith

reopen_from-accounts :
    (b b' : Books) (period : PeriodId) (now : Text)
    → reopen_from b period now ≡ ok b'
    → b'.accounts ≡ b.accounts
unfolding reopen_from
reopen_from-accounts b b' period now e = ground arith

lock_through-accounts :
    (b b' : Books) (period : PeriodId) (now : Text)
    → lock_through b period now ≡ ok b'
    → b'.accounts ≡ b.accounts
unfolding lock_through
lock_through-accounts b b' period now e = ground arith

module _ (lower_case : Text → Text) (h : Hashes) where
  Step-AllEnd : (b b' : Books) → Step lower_case h b b' → AllEnd b.accounts → AllEnd b'.accounts
  Step-AllEnd b b' (Step.posted input now e p) =
      same-AllEnd b b' (ap (λ (b : Books). b.accounts) (post_entry-extend h b input now (b', e) p))
  Step-AllEnd b b' (Step.reversed id options now e p) =
      same-AllEnd b b'
        (ap (λ (b : Books). b.accounts) (reverse_entry-extend h b id options now (b', e) p))
  Step-AllEnd b b' (Step.edited id corrected date now_r now_p r e p) = same-AllEnd b b' (
      ap (λ (b : Books). b.accounts)
        (edit_entry-extend h b id corrected date now_r now_p (b', r, e) p))
  Step-AllEnd b b' (Step.account_added input a p) = add_account-AllEnd lower_case b input b' a p
  Step-AllEnd b b' (Step.account_updated id changes p) =
      update_account-AllEnd lower_case b id changes b' p
  Step-AllEnd b b' (Step.deactivated id p) = deactivate_account-AllEnd b id b' p
  Step-AllEnd b b' (Step.reactivated id p) = reactivate_account-AllEnd b id b' p
  Step-AllEnd b b' (Step.closed period now p) =
      same-AllEnd b b' (close_through-accounts b b' period now p)
  Step-AllEnd b b' (Step.reopened period now p) =
      same-AllEnd b b' (reopen_from-accounts b b' period now p)
  Step-AllEnd b b' (Step.locked period now p) =
      same-AllEnd b b' (lock_through-accounts b b' period now p)

  pub Reach-AllEnd : {b : Books} → Reach lower_case h b → AllEnd b.accounts
  Reach-AllEnd (Reach.created settings b e) = create_books-AllEnd lower_case settings b e
  Reach-AllEnd (Reach.stepped {b} {b'} r st) = Step-AllEnd b b' st (Reach-AllEnd r)

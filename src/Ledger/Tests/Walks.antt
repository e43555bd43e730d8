-- ===== src/Ledger/Tests/Walks.antt =====
-- Sub-accounts of packages/ledger/src/books.ts in small books: walks up to the top, and a move that
-- would make a cycle.
use pnw.Base.{ℕ, ◌+◌, ◌≡◌, ◌≢◌, refl, true, Option, none, some, length}
use pnw.Data.Result.{ok, err}
use pnw.Data.Text.{Text, codes}
use pnw.Ledger.Errors.{Ledger, bad_parent, endless_walk}
use pnw.Ledger.Accounts.{Account, AccountInput, AccountType, depth_of, validate_account}
use pnw.Ledger.Books.State.{Books, account_map}
use pnw.Ledger.Books.Chart.{AccountChanges, add_account, update_account}
use pnw.Ledger.Books.History.{Step, Reach}
use pnw.Ledger.Books.History.Ends.{Reach-depth_of, Reach-validate_account}
use pnw.Ledger.Tests.Samples.{hashes, lower, program, books₀, created, settings, no_books}

-- `parent` holds the new account.
abbrev under : Text → Text → AccountInput
under parent name = record {
  name = name;
  number = none;
  type = AccountType.other_current_asset;
  parent_id = some parent;
  description = none;
}

abbrev or_added : Ledger (Books × Option Account) → Books × Option Account
or_added (ok r) = r
or_added (err _) = (no_books, none)

unfoldable cash : Books × Option Account
unfolding program books₀
cash = or_added (add_account lower books₀ (under (codes "acct-2") (codes "Cash")))

unfoldable tills : Books × Option Account
unfolding program books₀ cash
tills = or_added (add_account lower cash.0 (under (codes "acct-8") (codes "Tills")))

cash_added : add_account lower books₀ (under (codes "acct-2") (codes "Cash")) ≡ ok (cash.0, cash.1)
unfolding program books₀ cash
cash_added = refl

tills_added :
    add_account lower cash.0 (under (codes "acct-8") (codes "Tills")) ≡ ok (tills.0, tills.1)
unfolding program books₀ cash tills
tills_added = refl

nested : Reach lower hashes tills.0
nested =
    Reach.stepped
      (Reach.stepped (Reach.created settings books₀ created)
        (Step.account_added (under (codes "acct-2") (codes "Cash")) cash.1 cash_added))
      (Step.account_added (under (codes "acct-8") (codes "Tills")) tills.1 tills_added)

three_deep : depth_of 11 (account_map tills.0) (some (codes "acct-9")) ≡ ok 3
unfolding program books₀ cash tills
three_deep = refl

abbrev to_tills : AccountChanges
to_tills = record {
  name = none;
  number = none;
  type = none;
  parent_id = some (some (codes "acct-9"));
  description = none;
}

cycle_refused : update_account lower tills.0 (codes "acct-8") to_tills ≡ err bad_parent
unfolding program books₀ cash tills update_account
cycle_refused = refl

abbrev moved_cash : Account
moved_cash = record {
  id = codes "acct-8";
  name = codes "Cash";
  number = none;
  type = AccountType.other_current_asset;
  parent_id = some (codes "acct-9");
  description = none;
  active = true;
  system = none;
}

Reach-depth_of_example :
    (depth : ℕ) × (depth_of
        (length (account_map tills.0) + 2)
        (account_map tills.0)
        (some (codes "acct-9"))
      ≡ ok depth)
Reach-depth_of_example = Reach-depth_of lower hashes nested (some (codes "acct-9"))

Reach-validate_account_example :
    validate_account lower (account_map tills.0) moved_cash ≢ err endless_walk
Reach-validate_account_example = Reach-validate_account lower hashes nested moved_cash

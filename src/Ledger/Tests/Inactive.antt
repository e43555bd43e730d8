-- ===== src/Ledger/Tests/Inactive.antt =====
-- Deactivating an account of packages/ledger/src/books.ts, at small books.
use pnw.Base.{◌≡◌, refl, false, All}
use pnw.Data.Result.{ok, err}
use pnw.Data.Text.{codes, text_eq}
use pnw.Ledger.Errors.{inactive_account, account_in_use}
use pnw.Ledger.Books.State.{Books, Entry}
use pnw.Ledger.Books.Chart.{deactivate_account}
use pnw.Ledger.Books.Journal.{post_entry}
use pnw.Ledger.Books.Journal.Inactive.{deactivate_account-post_entry}
use pnw.Ledger.Tests.Samples.{hashes, program, books₀, opening, or_books, or_posted, now}
use pnw.Ledger.Tests.Reports.{added₁, sale, sold₁}

unfoldable retired : Books
unfolding program books₀ added₁ deactivate_account
retired = or_books (deactivate_account added₁.0 (codes "acct-8"))

deactivated : deactivate_account added₁.0 (codes "acct-8") ≡ ok retired
unfolding program books₀ added₁ deactivate_account retired
deactivated = refl

unfoldable posted₃ : Books × Entry
unfolding program books₀ added₁ deactivate_account retired
posted₃ = or_posted (post_entry hashes retired (opening 50) now)

posted : post_entry hashes retired (opening 50) now ≡ ok posted₃
unfolding program books₀ added₁ deactivate_account retired posted₃
posted = refl

refused : post_entry hashes retired sale now ≡ err inactive_account
unfolding program books₀ added₁ deactivate_account retired
refused = refl

in_use : deactivate_account sold₁.0 (codes "acct-8") ≡ err account_in_use
unfolding program books₀ added₁ sold₁ deactivate_account
in_use = refl

deactivate_account-post_entry_example :
    All (λ l. text_eq l.account_id (codes "acct-8") ≡ false) posted₃.1.lines
deactivate_account-post_entry_example =
    deactivate_account-post_entry hashes added₁.0 retired (codes "acct-8") (opening 50) now posted₃
      deactivated posted

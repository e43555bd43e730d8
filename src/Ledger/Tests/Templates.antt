-- ===== src/Ledger/Tests/Templates.antt =====
-- The templates of packages/ledger/src/templates.ts on new books.
use pnw.Base.{◌≡◌, refl, length, List, ◌++◌}
use pnw.Data.Result.{ok}
use pnw.Data.Sort.{sort}
use pnw.Ledger.Books.State.{Books}
use pnw.Ledger.Books.History.{Reach}
use pnw.Ledger.Templates.{
  service, contractor, retail, apply_template, template_accounts, parents_first,
}
use pnw.Ledger.Accounts.{Account}
use pnw.Ledger.Templates.Rows.{AreMade}
use pnw.Ledger.Templates.Applied.{apply_template-adds}
use pnw.Ledger.Tests.Samples.{hashes, lower, program, settings, books₀, created, or_books}

unfoldable service_books : Books
unfolding program books₀ sort apply_template template_accounts
service_books = or_books (apply_template lower books₀ service)

applied : apply_template lower books₀ service ≡ ok service_books
unfolding program books₀ sort apply_template template_accounts service_books
applied = refl

all_added : length service_books.accounts ≡ 34
unfolding program books₀ sort apply_template template_accounts service_books
all_added = refl

apply_template-adds_example :
    Reach lower hashes service_books
    × (made : List Account) × (service_books.accounts ≡ books₀.accounts ++ made)
    × AreMade service_books.accounts (parents_first (template_accounts service)) made
apply_template-adds_example =
    apply_template-adds lower hashes service books₀ service_books
      (Reach.created settings books₀ created) applied

contractor_adds : length (or_books (apply_template lower books₀ contractor)).accounts ≡ 43
unfolding program books₀ sort apply_template template_accounts
contractor_adds = refl

retail_adds : length (or_books (apply_template lower books₀ retail)).accounts ≡ 40
unfolding program books₀ sort apply_template template_accounts
retail_adds = refl

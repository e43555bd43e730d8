-- ===== src/Ledger/Tests/Reports.antt =====
-- The reports of packages/ledger/src/reports.ts on books with a sale, with the theorems about them.
use pnw.Base.{◌≡◌, refl, true, Option, none, some, [], ◌∷◌}
use pnw.Data.Int.{pos, neg}
use pnw.Data.Result.{ok, err}
use pnw.Data.Text.{Text, codes}
use pnw.Data.Dict.{Dict, lookup}
use pnw.Data.Sort.{sum_of, total}
use pnw.Ledger.Errors.{Ledger}
use pnw.Ledger.Money.{Cents}
use pnw.Ledger.Periods.{fiscal_year_start}
use pnw.Ledger.Accounts.{Account, AccountInput, AccountType, normal_side, base_of}
use pnw.Ledger.Books.State.{Books, Entry, EntryInput, account_map}
use pnw.Ledger.Books.Chart.{add_account, balance_of, find_system_account}
use pnw.Ledger.Books.Journal.{post_entry}
use pnw.Ledger.Books.Journal.Validity.{IsValid}
use pnw.Ledger.Books.History.{Step, Reach}
use pnw.Ledger.Books.History.Reachable.{Reach-IsSound}
use pnw.Ledger.Reports.{
  net_by_account, net_income, display_balance, trial_balance, day_before, TrialBalance,
  on_normal_side,
}
use pnw.Ledger.Reports.Nets.{sum_nets}
use pnw.Ledger.Reports.Totals.{
  net_by_account-total, display_balance-balance_of, on_balance_sheet, net_income-balance_sheet,
}
use pnw.Ledger.Tests.Samples.{
  hashes, lower, program, settings, books₀, created, line, or_posted, now, no_books,
}

unfoldable reports : Unit {0}
unfolding net_by_account net_income display_balance trial_balance day_before fiscal_year_start
    find_system_account normal_side sum_of
reports = tt

abbrev sales : AccountInput
sales = record {
  name = codes "Sales";
  number = none;
  type = AccountType.income;
  parent_id = none;
  description = none;
}

abbrev or_added : Ledger (Books × Option Account) → Books × Option Account
or_added (ok r) = r
or_added (err _) = (no_books, none)

unfoldable pub added₁ : Books × Option Account
unfolding program books₀
added₁ = or_added (add_account lower books₀ sales)

added : add_account lower books₀ sales ≡ ok added₁
unfolding program books₀ added₁
added = refl

abbrev pub sale : EntryInput
sale = record {
  date = codes "2026-10-15";
  memo = none;
  source = none;
  lines = line (codes "acct-2") 700 0 ∷ line (codes "acct-8") 0 700 ∷ [];
}

unfoldable pub sold₁ : Books × Entry
unfolding program books₀ added₁
sold₁ = or_posted (post_entry hashes added₁.0 sale now)

sold : post_entry hashes added₁.0 sale now ≡ ok sold₁
unfolding program books₀ added₁ sold₁
sold = refl

sold-IsValid : IsValid hashes sold₁.0
sold-IsValid =
    (Reach-IsSound lower hashes (
      Reach.stepped
        (Reach.stepped (Reach.created settings books₀ created)
          (Step.account_added sales added₁.1 added))
        (Step.posted sale now sold₁.1 sold))).valid

abbrev october : Text
october = codes "2026-10-01"

abbrev end : Text
end = codes "2026-10-31"

abbrev nets₁ : Dict Cents
nets₁ = (codes "acct-2", pos 700) ∷ (codes "acct-8", neg (pos 700)) ∷ []

netted : net_by_account sold₁.0 (some october) (some end) ≡ ok nets₁
unfolding program reports books₀ added₁ sold₁
netted = refl

earned : net_income sold₁.0 october end ≡ ok (pos 700)
unfolding program reports books₀ added₁ sold₁
earned = refl

day_before_march : day_before (codes "2028-03-01") ≡ ok (codes "2028-02-29")
unfolding program reports
day_before_march = refl

abbrev totals : Ledger TrialBalance → Cents × Cents
totals (ok t) = (t.total_debit, t.total_credit)
totals (err _) = (pos 0, pos 0)

-- The year after, the sale has moved into retained earnings.
trial_next_year : totals (trial_balance sold₁.0 (codes "2027-01-31")) ≡ (pos 700, pos 700)
unfolding program reports books₀ added₁ sold₁
trial_next_year = refl

net_by_account-total_example : sum_nets nets₁ ≡ pos 0
net_by_account-total_example =
    net_by_account-total sold₁.0 hashes (some october) (some end) nets₁ sold-IsValid netted

abbrev account₈ : Account
account₈ = record {
  id = codes "acct-8";
  name = codes "Sales";
  number = none;
  type = AccountType.income;
  parent_id = none;
  description = none;
  active = true;
  system = none;
}

found₈ : lookup (codes "acct-8") (account_map sold₁.0) ≡ some account₈
unfolding program books₀ added₁ sold₁
found₈ = refl

display_balance-balance_of_example :
    display_balance sold₁.0 (codes "acct-8") none
    ≡ ok (on_normal_side (base_of account₈) (balance_of sold₁.0 (codes "acct-8")))
display_balance-balance_of_example =
    display_balance-balance_of sold₁.0 (codes "acct-8") account₈ found₈

net_income-balance_sheet_example : pos 700 ≡ total (on_balance_sheet (account_map sold₁.0)) nets₁
net_income-balance_sheet_example =
    net_income-balance_sheet sold₁.0 hashes october end nets₁ (pos 700) sold-IsValid netted earned

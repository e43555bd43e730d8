-- ===== src/Payroll/Accounts.antt =====
-- packages/payroll/src/payroll.ts: the accounts that payroll posts to, found by name or created.
use pnw.Base.{Bool, ◌&&◌, Option, none, some, List, [], ◌∷◌, find, select, any}
use pnw.Data.Result.{ok, ◌>>=◌, or_fail}
use pnw.Data.Text.{Text, codes, text_eq, trim}
use pnw.Ledger.Errors.{Ledger, script_error}
use pnw.Ledger.Accounts.{
  Account, AccountInput, AccountType, BaseType, SystemRole, base_of, same_base, same_type,
}
use pnw.Ledger.Books.State.{Books}
use pnw.Ledger.Books.Chart.{add_account, find_system_account}
use pnw.Payroll.State.{PayrollAccounts}

abbrev pub named : Text → AccountType → AccountInput
named name type = record {
  name = name;
  number = none;
  type = type;
  parent_id = none;
  description = none;
}

abbrev pub rail_account_name : Text
rail_account_name = codes "Shield account"

abbrev pub legacy_rail_account_names : List Text
legacy_rail_account_names = codes "Rail balance" ∷ []

module _ (lower_case : Text → Text) where
  abbrev pub is_expense_named : Text → Account → Bool
  is_expense_named name a =
      a.active
      && text_eq (lower_case a.name) (lower_case name)
      && same_base (base_of a) BaseType.expense

  -- An account that is added, with its id.
  abbrev pub add_named : Books → Text → AccountType → Ledger (Books × Text)
  add_named books name type = do
    (next, account) ← add_account lower_case books (named name type)
    a ← or_fail account script_error
    ok (next, a.id)

  unfoldable pub ensure : Books → Text → Ledger (Books × Text)
  ensure books name = elim (find (is_expense_named name) books.accounts) [
    | some found ↦ ok (books, found.id)
    | none ↦ add_named books name AccountType.expense
  ]

  unfoldable pub ensure_payroll_accounts : Books → Ledger (Books × PayrollAccounts)
  ensure_payroll_accounts books = do
    (with_wages, wages_id) ← ensure books (codes "Wages")
    (next, employer_taxes_id) ← ensure with_wages (codes "Employer Payroll Taxes")
    liabilities ← find_system_account next SystemRole.payroll_liabilities
    ok (
      next,
      record {
        wages_id = wages_id;
        employer_taxes_id = employer_taxes_id;
        liabilities_id = liabilities.id;
      },
    )

  abbrev pub same_name : Text → Text → Bool
  same_name a b = text_eq (lower_case a) (lower_case b)

  abbrev pub is_rail_name : Text → Bool
  is_rail_name name =
      any (λ n. same_name n (trim name)) (rail_account_name ∷ legacy_rail_account_names)

  abbrev pub is_rail_account : Account → Bool
  is_rail_account a = a.active && same_type a.type AccountType.bank && is_rail_name a.name

  -- `find(...) ?? bank[0]`
  abbrev pub first_choice : List Account → Option Account
  first_choice bank = elim (find (λ a. same_name (trim a.name) rail_account_name) bank) [
    | some a ↦ some a
    | none ↦ elim bank [ [] ↦ none | a ∷ _ ↦ some a ]
  ]

  unfoldable pub find_rail_account : Books → Option Account
  find_rail_account books = first_choice (select is_rail_account books.accounts)

  unfoldable pub ensure_rail_account : Books → Ledger (Books × Text)
  ensure_rail_account books = elim (find_rail_account books) [
    | some found ↦ ok (books, found.id)
    | none ↦ add_named books rail_account_name AccountType.bank
  ]

-- ===== src/Ledger/Books/Chart.antt =====
-- The accounts of the books: creation, addition, update, deactivation (packages/ledger/src/books.ts).
pub mod Keys
pub mod Ends
pub mod Parents
pub mod Fuel
pub mod Placing
use pnw.Base.{
  ℕ, ◌+◌, Bool, true, false, not, ◌&&◌, ◌||◌, Option, none, some, List, [], ◌∷◌, ◌++◌, ltb, map,
  foldl, find, any, or_else, last?, if◌then◌else◌,
}
use pnw.Data.Int.{ℤ, pos, ◌+ℤ◌, ◌-ℤ◌, eqb_ℤ}
use pnw.Data.Result.{ok, err, ◌>>=◌, ◌>>◌, fail_if, or_fail}
use pnw.Data.Text.{Text, codes, text_eq, opt_eq, trim}
use pnw.Data.Decimal.{show}
use pnw.Data.Dict.{lookup}
use pnw.Ledger.Errors.{Ledger, bad_period, unknown_account, system_account, account_in_use}
use pnw.Ledger.Money.{Cents}
use pnw.Ledger.Accounts.{
  Account, AccountInput, AccountType, SystemRole, system_accounts, base_of, base_of_type, same_base,
  same_type, validate_account,
}
use pnw.Ledger.Books.State.{Books, Settings, Entry, Line, account_map}

-- `acct-${n}`
abbrev pub account_id : ℕ → Text
account_id n = codes "acct-" ++ show n

abbrev pub same_role : SystemRole → SystemRole → Bool
same_role SystemRole.accounts_receivable SystemRole.accounts_receivable = true
same_role SystemRole.accounts_payable SystemRole.accounts_payable = true
same_role SystemRole.payments_to_deposit SystemRole.payments_to_deposit = true
same_role SystemRole.opening_balance_equity SystemRole.opening_balance_equity = true
same_role SystemRole.retained_earnings SystemRole.retained_earnings = true
same_role SystemRole.sales_tax_payable SystemRole.sales_tax_payable = true
same_role SystemRole.payroll_liabilities SystemRole.payroll_liabilities = true
same_role _ _ = false

abbrev pub has_role : SystemRole → Account → Bool
has_role role a = elim a.system [ none ↦ false | some r ↦ same_role r role ]

unfoldable pub find_system_account : Books → SystemRole → Ledger Account
find_system_account books role = or_fail (find (has_role role) books.accounts) unknown_account

abbrev pub has_id : Text → Account → Bool
has_id id a = text_eq a.id id

unfoldable pub has_postings : Books → Text → Bool
has_postings books id = any (λ e. any (λ l. text_eq l.account_id id) e.lines) books.entries

-- The balance after one more line, and after one more entry.
unfoldable pub add_line : Text → Cents → Line → Cents
add_line id bal l = if text_eq l.account_id id then bal +ℤ (l.debit -ℤ l.credit) else bal

abbrev pub add_lines : Text → Cents → List Line → Cents
add_lines id = foldl (add_line id)

unfoldable pub balance_of : Books → Text → Cents
balance_of books id = foldl (λ bal e. add_lines id bal e.lines) (pos 0) books.entries

-- `accounts.map((a) => (a.id === id ? f(a) : a))`
abbrev pub replace : Text → (Account → Account) → List Account → List Account
replace id f = map (λ a. if has_id id a then f a else a)

-- What `updateAccount` takes: a field that is there may be there as `undefined`.
pub record AccountChanges : Type 0 where
  pub name : Option Text
  pub number : Option (Option Text)
  pub type : Option AccountType
  pub parent_id : Option (Option Text)
  pub description : Option (Option Text)

-- `{ ...current, ...changes, name: (changes.name ?? current.name).trim() }`
abbrev pub changed : Account → AccountChanges → Account
changed current changes = record current {
  name = trim (or_else changes.name current.name);
  number = or_else changes.number current.number;
  type = or_else changes.type current.type;
  parent_id = or_else changes.parent_id current.parent_id;
  description = or_else changes.description current.description;
}

abbrev pub is_system : Account → Bool
is_system a = elim a.system [ none ↦ false | some _ ↦ true ]

-- `changes.type && changes.type !== current.type`
abbrev pub retypes : Account → Option AccountType → Bool
retypes current none = false
retypes current (some t) = not (same_type t current.type)

-- `changes.type && ACCOUNT_TYPES[changes.type].base !== baseOf(current)`
abbrev pub moves_section : Account → Option AccountType → Bool
moves_section current none = false
moves_section current (some t) = not (same_base (base_of_type t) (base_of current))

abbrev pub empty_books : Settings → Books
empty_books settings = record {
  settings = settings;
  accounts = [];
  entries = [];
  marks = record { closed_through = none; locked_through = none };
  events = [];
  next_account = 1;
}

module _ (lower_case : Text → Text) where
  unfoldable pub insert_account : Books → AccountInput → Option SystemRole → Ledger Books
  insert_account books input system = do
    let account : Account = record {
      id = account_id books.next_account;
      name = trim input.name;
      number = input.number;
      type = input.type;
      parent_id = input.parent_id;
      description = input.description;
      active = true;
      system = system;
    }
    validate_account lower_case (account_map books) account
    ok (record books {
      accounts = books.accounts ++ account ∷ [];
      next_account = books.next_account + 1;
    })

  abbrev pub insert_all : List (SystemRole × Text × AccountType) → Books → Ledger Books
  insert_all [] books = ok books
  insert_all ((role, name, type) ∷ rest) books =
      let input : AccountInput = record {
        name = name;
        number = none;
        type = type;
        parent_id = none;
        description = none;
      } in
      insert_account books input (some role) >>= λ books'. insert_all rest books'

  unfoldable pub create_books : Settings → Ledger Books
  create_books settings = do
    let month = settings.fiscal_year_start_month
    fail_if (ltb month 1 || ltb 12 month) bad_period
    insert_all system_accounts (empty_books settings)

  unfoldable pub add_account : Books → AccountInput → Ledger (Books × Option Account)
  add_account books input =
      insert_account books input none >>= λ next. ok (next, last? next.accounts)

  unfoldable pub update_account : Books → Text → AccountChanges → Ledger Books
  update_account books id changes = do
    let accounts = account_map books
    current ← or_fail (lookup id accounts) unknown_account
    fail_if (is_system current && retypes current changes.type) system_account
    let updated = changed current changes
    fail_if (moves_section current changes.type && has_postings books id) account_in_use
    validate_account lower_case accounts updated
    ok (record books { accounts = replace id (λ _. updated) books.accounts })

unfoldable pub deactivate_account : Books → Text → Ledger Books
unfolding balance_of
deactivate_account books id = do
  acct ← or_fail (lookup id (account_map books)) unknown_account
  fail_if (is_system acct) system_account
  fail_if (not (eqb_ℤ (balance_of books id) (pos 0))) account_in_use
  fail_if (any (λ a. opt_eq a.parent_id (some id) && a.active) books.accounts) account_in_use
  ok (record books { accounts = replace id (λ a. record a { active = false }) books.accounts })

unfoldable pub reactivate_account : Books → Text → Ledger Books
reactivate_account books id = do
  acct ← or_fail (lookup id (account_map books)) unknown_account
  ok (record books { accounts = replace id (λ a. record a { active = true }) books.accounts })

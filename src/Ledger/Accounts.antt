-- ===== src/Ledger/Accounts.antt =====
-- packages/ledger/src/accounts.ts: the chart of accounts and the checks on a new or changed account.
use pnw.Base.{
  ℕ, zero, suc, ◌+◌, Bool, true, false, not, ◌&&◌, ◌||◌, Option, none, some, List, [], ◌∷◌, ltb,
  ◌==◌, if◌then◌else◌, length, or_else, any,
}
use pnw.Data.Result.{ok, err, ◌>>=◌, ◌>>◌, fail_if, or_fail}
use pnw.Data.Text.{Text, codes, text_eq, opt_eq, trim, truthy, is_truthy}
use pnw.Data.Dict.{Dict, lookup}
use pnw.Ledger.Errors.{Ledger, bad_line, duplicate_account, bad_parent, endless_walk}

pub data BaseType : Type 0 where
  asset liability equity income expense : BaseType

pub data AccountType : Type 0 where
  bank accounts_receivable other_current_asset fixed_asset other_asset : AccountType
  credit_card accounts_payable other_current_liability long_term_liability : AccountType
  equity income other_income cost_of_goods_sold expense other_expense : AccountType

-- ACCOUNT_TYPES[type].base
unfoldable pub base_of_type : AccountType → BaseType
base_of_type AccountType.bank = BaseType.asset
base_of_type AccountType.accounts_receivable = BaseType.asset
base_of_type AccountType.other_current_asset = BaseType.asset
base_of_type AccountType.fixed_asset = BaseType.asset
base_of_type AccountType.other_asset = BaseType.asset
base_of_type AccountType.credit_card = BaseType.liability
base_of_type AccountType.accounts_payable = BaseType.liability
base_of_type AccountType.other_current_liability = BaseType.liability
base_of_type AccountType.long_term_liability = BaseType.liability
base_of_type AccountType.equity = BaseType.equity
base_of_type AccountType.income = BaseType.income
base_of_type AccountType.other_income = BaseType.income
base_of_type AccountType.cost_of_goods_sold = BaseType.expense
base_of_type AccountType.expense = BaseType.expense
base_of_type AccountType.other_expense = BaseType.expense

-- A number for each type, to compare two types by.
abbrev pub type_index : AccountType → ℕ
type_index AccountType.bank = 0
type_index AccountType.accounts_receivable = 1
type_index AccountType.other_current_asset = 2
type_index AccountType.fixed_asset = 3
type_index AccountType.other_asset = 4
type_index AccountType.credit_card = 5
type_index AccountType.accounts_payable = 6
type_index AccountType.other_current_liability = 7
type_index AccountType.long_term_liability = 8
type_index AccountType.equity = 9
type_index AccountType.income = 10
type_index AccountType.other_income = 11
type_index AccountType.cost_of_goods_sold = 12
type_index AccountType.expense = 13
type_index AccountType.other_expense = 14

abbrev pub same_type : AccountType → AccountType → Bool
same_type a b = type_index a == type_index b

abbrev pub same_base : BaseType → BaseType → Bool
same_base BaseType.asset BaseType.asset = true
same_base BaseType.liability BaseType.liability = true
same_base BaseType.equity BaseType.equity = true
same_base BaseType.income BaseType.income = true
same_base BaseType.expense BaseType.expense = true
same_base _ _ = false

-- Assets and expenses grow with debits; liabilities, equity and income with credits.
pub data Side : Type 0 where
  on_debit on_credit : Side

unfoldable pub normal_side : BaseType → Side
normal_side base =
    if same_base base BaseType.asset || same_base base BaseType.expense then on_debit else on_credit

-- Accounts the books create for themselves.
pub data SystemRole : Type 0 where
  accounts_receivable accounts_payable payments_to_deposit opening_balance_equity : SystemRole
  retained_earnings sales_tax_payable payroll_liabilities : SystemRole

pub record Account : Type 0 where
  pub id : Text
  pub name : Text
  pub number : Option Text
  pub type : AccountType
  pub parent_id : Option Text
  pub description : Option Text
  pub active : Bool
  pub system : Option SystemRole

pub record AccountInput : Type 0 where
  pub name : Text
  pub number : Option Text
  pub type : AccountType
  pub parent_id : Option Text
  pub description : Option Text

abbrev pub max_depth : ℕ
max_depth = 5

-- SYSTEM_ACCOUNTS: the role, the name and the type.
abbrev pub system_accounts : List (SystemRole × Text × AccountType)
system_accounts =
    (SystemRole.accounts_receivable, codes "Accounts Receivable", AccountType.accounts_receivable)
    ∷ (SystemRole.payments_to_deposit, codes "Payments to Deposit", AccountType.other_current_asset)
    ∷ (SystemRole.accounts_payable, codes "Accounts Payable", AccountType.accounts_payable)
    ∷ (SystemRole.sales_tax_payable, codes "Sales Tax Payable", AccountType.other_current_liability)
    ∷ (
      SystemRole.payroll_liabilities,
      codes "Payroll Liabilities",
      AccountType.other_current_liability,
    )
    ∷ (SystemRole.opening_balance_equity, codes "Opening Balance Equity", AccountType.equity)
    ∷ (SystemRole.retained_earnings, codes "Retained Earnings", AccountType.equity)
    ∷ []

unfoldable pub base_of : Account → BaseType
unfolding base_of_type
base_of account = base_of_type account.type

-- `accounts.get(cur)?.parentId`
abbrev pub parent_of : Dict Account → Text → Option Text
parent_of accounts cur = elim (lookup cur accounts) [ none ↦ none | some a ↦ a.parent_id ]

-- The number of accounts from `id` up to the top. The loop has no bound of its own: out of fuel it
-- has not ended.
unfoldable pub depth_of : ℕ → Dict Account → Option Text → Ledger ℕ
depth_of zero accounts cur = err endless_walk
depth_of (suc fuel) accounts cur = elim (truthy cur) [
  | none ↦ ok 0
  | some c ↦ depth_of fuel accounts (parent_of accounts c) >>= λ depth. ok (depth + 1)
]

-- The loop of the cycle check: fails at `id`, ends above the top.
unfoldable pub check_not_under : ℕ → Dict Account → Text → Option Text → Ledger (Unit {0})
check_not_under zero accounts id cur = err endless_walk
check_not_under (suc fuel) accounts id cur = elim (truthy cur) [
  | none ↦ ok tt
  | some c ↦
      let rest = check_not_under fuel accounts id (parent_of accounts c) in
      if text_eq c id then err bad_parent else rest
]

module _ (lower_case : Text → Text) where
  -- Whether `other` keeps `candidate`, whose trimmed name is `name`, out of the chart.
  abbrev pub clashes : Account → Text → Account → Bool
  clashes candidate name other =
      let same_parent = text_eq (or_else other.parent_id []) (or_else candidate.parent_id []) in
      if text_eq other.id candidate.id
      then false
      else same_parent && text_eq (lower_case (trim other.name)) (lower_case name)
        || is_truthy candidate.number && opt_eq other.number candidate.number

  -- Both loops up to the parents visit an account at most once unless the chart has a cycle.
  abbrev pub validate_parent : Dict Account → Account → Text → Ledger (Unit {0})
  validate_parent accounts candidate parent_id = do
    let fuel = length accounts + 2
    parent ← or_fail (lookup parent_id accounts) bad_parent
    fail_if (not (same_base (base_of parent) (base_of candidate))) bad_parent
    check_not_under fuel accounts candidate.id (some parent.id)
    depth ← depth_of fuel accounts (some parent_id)
    fail_if (ltb max_depth (depth + 1)) bad_parent

  unfoldable pub validate_account : Dict Account → Account → Ledger (Unit {0})
  unfolding check_not_under depth_of base_of
  validate_account accounts candidate = do
    let name = trim candidate.name
    fail_if (not (is_truthy (some name))) bad_line
    fail_if (any (λ (_, other). clashes candidate name other) accounts) duplicate_account
    elim (truthy candidate.parent_id) [
      | none ↦ ok tt
      | some parent_id ↦ validate_parent accounts candidate parent_id
    ]

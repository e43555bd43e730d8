-- ===== src/Ledger/Templates.antt =====
-- packages/ledger/src/templates.ts: the starter charts of accounts.
pub mod Rows
pub mod Applied
use Prim.Native.String.{String}
use pnw.Base.{Bool, ◌&&◌, not, Option, none, some, List, [], ◌∷◌, ◌++◌, find}
use pnw.Data.Result.{ok, ◌>>=◌}
use pnw.Data.Text.{Text, codes, text_eq, truthy, is_truthy}
use pnw.Data.Sort.{sort}
use pnw.Ledger.Errors.{Ledger}
use pnw.Ledger.Accounts.{Account, AccountType}
use pnw.Ledger.Books.State.{Books}
use pnw.Ledger.Books.Chart.{add_account}

pub record TemplateAccount : Type 0 where
  pub number : Text
  pub name : Text
  pub type : AccountType
  pub parent : Option Text

pub data TemplateId : Type 0 where
  service contractor retail : TemplateId

abbrev account : String → String → AccountType → TemplateAccount
account number name type = record {
  number = codes number;
  name = codes name;
  type = type;
  parent = none;
}

abbrev child : String → String → AccountType → String → TemplateAccount
child number name type parent = record {
  number = codes number;
  name = codes name;
  type = type;
  parent = some (codes parent);
}

abbrev pub common : List TemplateAccount
common =
    account "1000" "Checking" AccountType.bank
    ∷ account "1010" "Savings" AccountType.bank
    ∷ account "1500" "Equipment" AccountType.fixed_asset
    ∷ account "1590" "Accumulated Depreciation" AccountType.fixed_asset
    ∷ account "2100" "Business Credit Card" AccountType.credit_card
    ∷ account "2700" "Loans Payable" AccountType.long_term_liability
    ∷ account "3000" "Owner's Investment" AccountType.equity
    ∷ account "3100" "Owner's Draw" AccountType.equity
    ∷ account "4900" "Interest Earned" AccountType.other_income
    ∷ account "6000" "Advertising & Marketing" AccountType.expense
    ∷ account "6050" "Bank & Card Fees" AccountType.expense
    ∷ account "6100" "Insurance" AccountType.expense
    ∷ account "6150" "Legal & Professional Fees" AccountType.expense
    ∷ account "6200" "Office Supplies & Software" AccountType.expense
    ∷ account "6250" "Rent" AccountType.expense
    ∷ account "6300" "Utilities & Phone" AccountType.expense
    ∷ account "6350" "Travel" AccountType.expense
    ∷ account "6400" "Meals" AccountType.expense
    ∷ account "6500" "Payroll Expenses" AccountType.expense
    ∷ child "6510" "Wages" AccountType.expense "Payroll Expenses"
    ∷ child "6520" "Employer Payroll Taxes" AccountType.expense "Payroll Expenses"
    ∷ account "6600" "Taxes & Licenses" AccountType.expense
    ∷ account "6700" "Depreciation" AccountType.expense
    ∷ account "7900" "Interest Paid" AccountType.other_expense
    ∷ []

unfoldable pub template_accounts : TemplateId → List TemplateAccount
template_accounts service =
    account "4000" "Service Income" AccountType.income
    ∷ account "4100" "Reimbursed Expenses" AccountType.income
    ∷ account "6450" "Contract Labor" AccountType.expense
    ∷ common
template_accounts contractor =
    account "1200" "Retainage Receivable" AccountType.other_current_asset
    ∷ account "4000" "Construction Income" AccountType.income
    ∷ account "4050" "Change Order Income" AccountType.income
    ∷ account "5000" "Job Costs" AccountType.cost_of_goods_sold
    ∷ child "5010" "Job Materials" AccountType.cost_of_goods_sold "Job Costs"
    ∷ child "5020" "Subcontractors" AccountType.cost_of_goods_sold "Job Costs"
    ∷ child "5030" "Equipment Rental" AccountType.cost_of_goods_sold "Job Costs"
    ∷ child "5040" "Permits & Fees" AccountType.cost_of_goods_sold "Job Costs"
    ∷ account "1550" "Vehicles" AccountType.fixed_asset
    ∷ account "6800" "Fuel" AccountType.expense
    ∷ account "6810" "Vehicle Repairs" AccountType.expense
    ∷ account "6820" "Small Tools" AccountType.expense
    ∷ common
template_accounts retail =
    account "1300" "Inventory" AccountType.other_current_asset
    ∷ account "1310" "Undeposited Cash" AccountType.other_current_asset
    ∷ account "4000" "Sales" AccountType.income
    ∷ account "4090" "Discounts & Returns" AccountType.income
    ∷ account "4100" "Shipping Income" AccountType.income
    ∷ account "5000" "Cost of Goods Sold" AccountType.cost_of_goods_sold
    ∷ account "5100" "Shipping & Delivery" AccountType.cost_of_goods_sold
    ∷ account "5200" "Inventory Shrinkage" AccountType.cost_of_goods_sold
    ∷ account "6060" "Merchant Processing Fees" AccountType.expense
    ∷ common

-- Accounts without a parent come first, otherwise in the order of the template.
abbrev pub parents_first : List TemplateAccount → List TemplateAccount
parents_first = sort (λ a b. is_truthy a.parent && not (is_truthy b.parent))

abbrev pub id_of_name : Text → List Account → Option Text
id_of_name name accounts = elim (find (λ a. text_eq a.name name) accounts) [
  | none ↦ none
  | some a ↦ some a.id
]

abbrev pub parent_id_of : Books → TemplateAccount → Option Text
parent_id_of books row = elim (truthy row.parent) [
  | none ↦ none
  | some name ↦ truthy (id_of_name name books.accounts)
]

module _ (lower_case : Text → Text) where
  abbrev pub apply_rows : List TemplateAccount → Books → Ledger Books
  apply_rows [] books = ok books
  apply_rows (row ∷ rows) books = do
    (next, _) ← add_account lower_case books record {
      name = row.name;
      number = some row.number;
      type = row.type;
      parent_id = parent_id_of books row;
      description = none;
    }
    apply_rows rows next

  unfoldable pub apply_template : Books → TemplateId → Ledger Books
  apply_template books id = apply_rows (parents_first (template_accounts id)) books

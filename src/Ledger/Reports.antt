-- ===== src/Ledger/Reports.antt =====
-- packages/ledger/src/reports.ts: balances by account, and the trial balance.
pub mod Nets
pub mod Totals
use pnw.Base.{
  ℕ, ◌+◌, ◌-◌, Bool, true, false, not, ◌&&◌, ◌||◌, Option, none, some, List, [], ◌∷◌, ◌++◌, foldl,
  ltb, ◌==◌, or_else, if◌then◌else◌,
}
use pnw.Data.Int.{ℤ, pos, ◌+ℤ◌, ◌-ℤ◌, neg, ltb_ℤ, eqb_ℤ}
use pnw.Data.Result.{ok, err, ◌>>=◌, ◌>>◌}
use pnw.Data.Text.{Text, truthy}
use pnw.Data.Text.Order.{text_lt}
use pnw.Data.Decimal.{show, pad_start2}
use pnw.Data.Dict.{Dict, lookup, insert}
use pnw.Data.Sort.{sum_of}
use pnw.Ledger.Errors.{Ledger, script_error}
use pnw.Ledger.Money.{Cents}
use pnw.Ledger.Periods.{IsoDate, assert_date, match_date, days_in_month, fiscal_year_start}
use pnw.Ledger.Accounts.{
  Account, BaseType, same_base, base_of, normal_side, on_debit, on_credit, retained_earnings,
}
use pnw.Ledger.Books.State.{Books, Entry, Line, account_map}
use pnw.Ledger.Books.Chart.{find_system_account}

abbrev pub is_profit_and_loss : BaseType → Bool
is_profit_and_loss base = same_base base BaseType.income || same_base base BaseType.expense

-- `date ? assertDate(date) : undefined`
abbrev pub assert_bound : Option IsoDate → Ledger (Option IsoDate)
assert_bound date = elim (truthy date) [
  | none ↦ ok none
  | some d ↦ assert_date d >>= λ d. ok (some d)
]

abbrev pub is_before : IsoDate → Option IsoDate → Bool
is_before date none = false
is_before date (some from) = text_lt date from

abbrev pub is_after : IsoDate → Option IsoDate → Bool
is_after date none = false
is_after date (some to) = text_lt to date

-- `m.get(id) ?? 0n`
abbrev pub amount_at : Text → Dict Cents → Cents
amount_at id m = or_else (lookup id m) (pos 0)

abbrev pub net_line : Dict Cents → Line → Dict Cents
net_line m l = insert l.account_id (amount_at l.account_id m +ℤ l.debit -ℤ l.credit) m

abbrev pub net_entry : Option IsoDate → Option IsoDate → Dict Cents → Entry → Dict Cents
net_entry from to m e =
    if is_before e.date from || is_after e.date to then m else foldl net_line m e.lines

-- The balance of every account that is posted to, debits positive, in the order of the first posting.
unfoldable pub net_by_account : Books → Option IsoDate → Option IsoDate → Ledger (Dict Cents)
net_by_account books from to = do
  first ← assert_bound from
  last ← assert_bound to
  ok (foldl (net_entry first last) [] books.entries)

pub record TrialBalanceRow : Type 0 where
  pub account_id : Text
  pub name : Text
  pub base : BaseType
  pub debit : Cents
  pub credit : Cents

pub record TrialBalance : Type 0 where
  pub as_of : IsoDate
  pub rows : List TrialBalanceRow
  pub total_debit : Cents
  pub total_credit : Cents

-- One of the three loops: `target` says which balance takes the net of an account, if one does.
abbrev pub roll :
    (BaseType → Text → Option Text) → Dict Account → Dict Cents → Dict Cents → Ledger (Dict Cents)
roll target accounts [] balances = ok balances
roll target accounts ((id, net) ∷ nets) balances = elim (lookup id accounts) [
  | none ↦ err script_error
  | some account ↦ elim (target (base_of account) id) [
    | none ↦ roll target accounts nets balances
    | some t ↦ roll target accounts nets (insert t (amount_at t balances +ℤ net) balances)
  ]
]

abbrev pub balance_sheet_target : BaseType → Text → Option Text
balance_sheet_target base id = if is_profit_and_loss base then none else truthy (some id)

abbrev pub this_year_target : BaseType → Text → Option Text
this_year_target base id = if is_profit_and_loss base then some id else none

abbrev pub prior_years_target : Text → BaseType → Text → Option Text
prior_years_target retained base id = if is_profit_and_loss base then some retained else none

abbrev pub trial_rows : Dict Cents → List Account → List TrialBalanceRow
trial_rows balances [] = []
trial_rows balances (a ∷ accounts) =
    let rest = trial_rows balances accounts in
    let bal = amount_at a.id balances in
    if eqb_ℤ bal (pos 0)
    then rest
    else record {
      account_id = a.id;
      name = a.name;
      base = base_of a;
      debit = if ltb_ℤ (pos 0) bal then bal else pos 0;
      credit = if ltb_ℤ bal (pos 0) then neg bal else pos 0;
    }
      ∷ rest

-- The year of a date as `toISOString` writes it.
abbrev pub pad_year : ℕ → Text
pad_year y =
    if ltb y 10
    then b'0' ∷ b'0' ∷ b'0' ∷ show y
    else if ltb y 100
    then b'0' ∷ b'0' ∷ show y
    else if ltb y 1000
    then b'0' ∷ show y
    else show y

abbrev pub iso_date : ℕ → ℕ → ℕ → IsoDate
iso_date y m d = pad_year y ++ b'-' ∷ pad_start2 (show m) ++ b'-' ∷ pad_start2 (show d)

-- The day before a date that passes `assertDate`.
unfoldable pub day_before : IsoDate → Ledger IsoDate
day_before date = elim (match_date date) [
  | none ↦ err script_error
  | some (y, m, d) ↦
      if not (d == 1)
      then ok (iso_date y m (d - 1))
      else if not (m == 1)
      then ok (iso_date y (m - 1) (days_in_month y (m - 1)))
      else ok (iso_date (y - 1) 12 31)
]

unfoldable pub trial_balance : Books → IsoDate → Ledger TrialBalance
trial_balance books as_of = do
  year_start ← fiscal_year_start as_of books.settings.fiscal_year_start_month
  let accounts = account_map books
  retained ← find_system_account books retained_earnings
  all_nets ← net_by_account books none (some as_of)
  first ← roll balance_sheet_target accounts all_nets []
  year_nets ← net_by_account books (some year_start) (some as_of)
  second ← roll this_year_target accounts year_nets first
  before ← day_before year_start
  prior_nets ← net_by_account books none (some before)
  balances ← roll (prior_years_target retained.id) accounts prior_nets second
  let rows = trial_rows balances books.accounts
  ok record {
    as_of = as_of;
    rows = rows;
    total_debit = sum_of (λ r. r.debit) rows;
    total_credit = sum_of (λ r. r.credit) rows;
  }

-- The loop of `netIncome`: credits raise income, debits lower it.
abbrev pub add_income : Dict Account → Dict Cents → Cents → Ledger Cents
add_income accounts [] income = ok income
add_income accounts ((id, net) ∷ nets) income = elim (lookup id accounts) [
  | none ↦ err script_error
  | some account ↦
      add_income accounts nets
        (if is_profit_and_loss (base_of account) then income -ℤ net else income)
]

unfoldable pub net_income : Books → IsoDate → IsoDate → Ledger Cents
net_income books from to = net_by_account books (some from) (some to) >>= λ nets.
    add_income (account_map books) nets (pos 0)

abbrev pub on_normal_side : BaseType → Cents → Cents
on_normal_side base net = elim (normal_side base) [ on_debit ↦ net | on_credit ↦ neg net ]

-- The balance of an account, positive on its normal side; 0 for an id that is no account.
unfoldable pub display_balance : Books → Text → Option IsoDate → Ledger Cents
display_balance books id as_of = elim (lookup id (account_map books)) [
  | none ↦ ok (pos 0)
  | some account ↦ net_by_account books none (truthy as_of) >>= λ nets.
      ok (on_normal_side (base_of account) (amount_at id nets))
]

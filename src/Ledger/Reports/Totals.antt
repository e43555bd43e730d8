-- ===== src/Ledger/Reports/Totals.antt =====
-- What the reports of packages/ledger/src/reports.ts say of valid books.
use pnw.Base.{
  ◌≡◌, refl, sym, ap, ◌∙◌, Option, none, some, [], ◌∷◌, foldl, arith, if◌then◌else◌, Bool-cases,
  Option-cases, inl, inr,
}
use pnw.Data.Int.{pos, ◌+ℤ◌, ◌-ℤ◌, int_laws, parts_eq}
use pnw.Data.Result.{ok, >>=-eq-ok, ok-injective}
use pnw.Data.Text.{Text}
use pnw.Data.Dict.{Dict, lookup}
use pnw.Data.Sort.{total}
use pnw.Ledger.Money.{Cents}
use pnw.Ledger.Periods.{IsoDate}
use pnw.Ledger.Accounts.{Account, base_of}
use pnw.Ledger.Books.State.{Books, Hashes, account_map}
use pnw.Ledger.Books.Chart.{balance_of}
use pnw.Ledger.Books.Journal.Validity.{IsValid}
use pnw.Ledger.Reports.{
  amount_at, net_entry, net_by_account, assert_bound, display_balance, on_normal_side,
  is_profit_and_loss, add_income, net_income,
}
use pnw.Ledger.Reports.Nets.{sum_nets, sum_nets-entries, amount_at-entries}

module _ (b : Books) where
  -- The nets of the accounts of valid books, over any range of dates, add up to zero.
  pub net_by_account-total :
      (h : Hashes) (from to : Option IsoDate) (nets : Dict Cents)
      → IsValid h b
      → net_by_account b from to ≡ ok nets
      → sum_nets nets ≡ pos 0
  unfolding net_by_account
  net_by_account-total h from to nets v e =
      let (first, _, e₁) = >>=-eq-ok (assert_bound from) _ e in
      let (last, _, e₂) = >>=-eq-ok (assert_bound to) _ e₁ in
      ap sum_nets (sym (ok-injective _ _ e₂))
      ∙ sum_nets-entries b.accounts first last b.entries [] v.entries_ok

  all_nets : Dict Cents
  all_nets = foldl (net_entry none none) [] b.entries

  net_by_account-all : net_by_account b none none ≡ ok all_nets
  unfolding net_by_account all_nets
  net_by_account-all = refl

  all_nets-balance : (id : Text) → amount_at id all_nets ≡ balance_of b id
  unfolding all_nets balance_of lookup
  all_nets-balance id = amount_at-entries id b.entries []

  -- Without a date, the balance shown for an account is what `balanceOf` says, negated where the
  -- account grows with credits.
  pub display_balance-balance_of :
      (id : Text) (a : Account)
      → lookup id (account_map b) ≡ some a
      → display_balance b id none ≡ ok (on_normal_side (base_of a) (balance_of b id))
  unfolding display_balance
  display_balance-balance_of id a found =
      rw (found, display_balance)
        (rw net_by_account-all (ap (λ v. ok (on_normal_side (base_of a) v)) (all_nets-balance id)))

-- The part of the nets that is on balance-sheet accounts.
abbrev pub on_balance_sheet : Dict Account → Text × Cents → Cents
on_balance_sheet accounts (id, net) = elim (lookup id accounts) [
  | none ↦ pos 0
  | some a ↦ if is_profit_and_loss (base_of a) then pos 0 else net
]

add_income-total :
    (accounts : Dict Account) (nets : Dict Cents) (start income : Cents)
    → add_income accounts nets start ≡ ok income
    → income +ℤ sum_nets nets ≡ start +ℤ total (on_balance_sheet accounts) nets
add_income-total accounts [] start income e = omega (int_laws, parts_eq _ _ (ok-injective _ _ e))
add_income-total accounts ((id, net) ∷ nets) start income e =
    elim (Option-cases (lookup id accounts)) [
      | inl missing ↦ absurd (ground (arith, e, missing))
      | inr (a, found) ↦ elim (Bool-cases (is_profit_and_loss (base_of a))) [
        | inl earns ↦
            let ih =
              add_income-total accounts nets (start -ℤ net) income
                (ground (arith, e, found, earns)) in
            rw (found, on_balance_sheet) (rw earns (omega (int_laws, parts_eq _ _ ih)))
        | inr sheet ↦
            let ih =
              add_income-total accounts nets start income (ground (arith, e, found, sheet)) in
            rw (found, on_balance_sheet) (rw sheet (omega (int_laws, parts_eq _ _ ih)))
      ]
    ]

-- In valid books the net income of a range of dates is what the balance-sheet accounts gain in it.
pub net_income-balance_sheet :
    (b : Books) (h : Hashes) (from to : IsoDate) (nets : Dict Cents) (income : Cents)
    → IsValid h b
    → net_by_account b (some from) (some to) ≡ ok nets
    → net_income b from to ≡ ok income
    → income ≡ total (on_balance_sheet (account_map b)) nets
unfolding net_income
net_income-balance_sheet b h from to nets income v n e =
    let (nets', n', e') = >>=-eq-ok (net_by_account b (some from) (some to)) _ e in
    let same = ok-injective nets' nets (sym n' ∙ n) in
    let added =
      add_income-total (account_map b) nets (pos 0) income
        (ap (λ m. add_income (account_map b) m (pos 0)) (sym same) ∙ e') in
    omega (
      int_laws,
      parts_eq _ _ added,
      parts_eq _ _ (net_by_account-total b h (some from) (some to) nets v n),
    )

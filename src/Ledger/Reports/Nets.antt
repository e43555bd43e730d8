-- ===== src/Ledger/Reports/Nets.antt =====
-- What the nets of packages/ledger/src/reports.ts add up to.
use pnw.Base.{
  ◌≡◌, refl, ap, ◌∙◌, ◌||◌, Option, none, List, [], ◌∷◌, foldl, All, or_else, Bool-cases, inl, inr,
  map,
}
use pnw.Data.Int.{pos, ◌+ℤ◌, ◌-ℤ◌, int_laws, parts_eq}
use pnw.Data.Text.{Text, text_eq, text_eq_iff}
use pnw.Data.Dict.{Dict, lookup, insert, lookup-insert}
use pnw.Data.Sort.{total}
use pnw.Ledger.Money.{Cents, sum_cents}
use pnw.Ledger.Periods.{IsoDate}
use pnw.Ledger.Accounts.{Account}
use pnw.Ledger.Books.State.{Entry, Line}
use pnw.Ledger.Books.Chart.{add_line, add_lines}
use pnw.Ledger.Books.Journal.{debits, credits}
use pnw.Ledger.Books.Journal.Validity.{IsEntry, sum_cents-cons}
use pnw.Ledger.Reports.{is_before, is_after, amount_at, net_line, net_entry}

-- The sum of all nets.
abbrev pub sum_nets : Dict Cents → Cents
sum_nets = total (λ p. p.1)

sum_nets-insert :
    (k : Text) (v : Cents) (m : Dict Cents)
    → sum_nets (insert k v m) +ℤ amount_at k m ≡ sum_nets m +ℤ v
unfolding insert lookup
sum_nets-insert k v [] = omega int_laws
sum_nets-insert k v ((j, w) ∷ m) = elim (Bool-cases (text_eq j k)) [
  | inl same ↦ rw same (omega int_laws)
  | inr other ↦ rw other (omega (int_laws, parts_eq _ _ (sum_nets-insert k v m)))
]

sum_nets-lines :
    (ls : List Line) (m : Dict Cents)
    → sum_nets (foldl net_line m ls) ≡ sum_nets m +ℤ (debits ls -ℤ credits ls)
unfolding sum_cents
sum_nets-lines [] m = omega int_laws
sum_nets-lines (l ∷ ls) m = omega (
  int_laws,
  parts_eq _ _ (sum_nets-lines ls (net_line m l)),
  parts_eq _ _ (sum_nets-insert l.account_id (amount_at l.account_id m +ℤ l.debit -ℤ l.credit) m),
  parts_eq _ _ (sum_cents-cons l.debit (map (λ l. l.debit) ls)),
  parts_eq _ _ (sum_cents-cons l.credit (map (λ l. l.credit) ls)),
)

module _ (accounts : List Account) where
  pub sum_nets-entries :
      (from to : Option IsoDate) (es : List Entry) (m : Dict Cents)
      → All (IsEntry accounts) es
      → sum_nets (foldl (net_entry from to) m es) ≡ sum_nets m
  sum_nets-entries from to [] m h = refl
  sum_nets-entries from to (e ∷ es) m h =
      sum_nets-entries from to es (net_entry from to m e) h.1
      ∙ elim (Bool-cases (is_before e.date from || is_after e.date to)) [
        | inl out ↦ rw out refl
        | inr inside ↦
            rw inside (sum_nets-lines e.lines m ∙ omega (int_laws, parts_eq _ _ h.0.lines.balanced))
      ]

-- The net of one account after a line.
amount_at-line :
    (id : Text) (l : Line) (m : Dict Cents)
    → amount_at id (net_line m l) ≡ add_line id (amount_at id m) l
unfolding add_line
amount_at-line id l m =
    ap (λ o. or_else o (pos 0))
      (lookup-insert l.account_id id (amount_at l.account_id m +ℤ l.debit -ℤ l.credit) m)
    ∙ elim (Bool-cases (text_eq l.account_id id)) [
      | inl same ↦ rw same (
          omega (
            int_laws,
            parts_eq _ _ (ap (λ k. amount_at k m) ((text_eq_iff l.account_id id).0 same)),
          ))
      | inr other ↦ rw other refl
    ]

amount_at-lines :
    (id : Text) (ls : List Line) (m : Dict Cents)
    → amount_at id (foldl net_line m ls) ≡ add_lines id (amount_at id m) ls
amount_at-lines id [] m = refl
amount_at-lines id (l ∷ ls) m =
    amount_at-lines id ls (net_line m l) ∙ ap (λ a. add_lines id a ls) (amount_at-line id l m)

pub amount_at-entries :
    (id : Text) (es : List Entry) (m : Dict Cents)
    → amount_at id (foldl (net_entry none none) m es)
      ≡ foldl (λ bal e. add_lines id bal e.lines) (amount_at id m) es
amount_at-entries id [] m = refl
amount_at-entries id (e ∷ es) m =
    amount_at-entries id es (net_entry none none m e)
    ∙ ap (λ a. foldl (λ bal e. add_lines id bal e.lines) a es) (amount_at-lines id e.lines m)

-- ===== src/Sales/Aging/Totals.antt =====
-- packages/sales/src/sales.ts: the rows of an aging report add up.
use pnw.Base.{
  ◌≡◌, refl, sym, ap, ◌∙◌, subst, List, [], ◌∷◌, arith, or_else, Bool-cases, ◌⊎◌, inl, inr,
}
use pnw.Data.Int.{pos, ◌+ℤ◌, eqb_ℤ, eqb_ℤ_iff, int_laws, parts_eq, +ℤ-zero, zero-+ℤ, +ℤ_assoc}
use pnw.Data.Result.{ok, ◌>>=◌, >>=-eq-ok, ok-injective}
use pnw.Data.Sort.{total, total-insert}
use pnw.Data.Dict.{lookup}
use pnw.Ledger.Money.{Cents}
use pnw.Ledger.Periods.{IsoDate}
use pnw.Sales.Errors.{SalesError, Fallible, from_ledger}
use pnw.Sales.Dates.{days_between}
use pnw.Sales.Aging.{
  AgingBucket, AgingRow, empty_row, bucket_for, add_to_row, AgingItem, Aging, add_item, age_item,
  age_items, aging,
}

-- A column of a report: an amount that items add to independently of the row.
pub record IsColumn (w : AgingRow → Cents) : Type 0 where
  pub empty : w empty_row ≡ pos 0
  pub adds :
      (b : AgingBucket) (c : Cents) (row : AgingRow)
      → w (add_to_row b c row) ≡ w row +ℤ w (add_to_row b c empty_row)

abbrev pub amount_in : AgingBucket → AgingRow → Cents
amount_in AgingBucket.current row = row.current
amount_in AgingBucket.days_1_to_30 row = row.days_1_to_30
amount_in AgingBucket.days_31_to_60 row = row.days_31_to_60
amount_in AgingBucket.days_61_to_90 row = row.days_61_to_90
amount_in AgingBucket.over_90 row = row.over_90

abbrev pub sum_of_buckets : AgingRow → Cents
sum_of_buckets row =
    row.current +ℤ row.days_1_to_30 +ℤ row.days_31_to_60 +ℤ row.days_61_to_90 +ℤ row.over_90

amount_in-adds :
    (k b : AgingBucket) (c : Cents) (row : AgingRow)
    → amount_in k (add_to_row b c row) ≡ amount_in k row +ℤ amount_in k (add_to_row b c empty_row)
unfolding add_to_row
amount_in-adds AgingBucket.current AgingBucket.current c row = omega int_laws
amount_in-adds AgingBucket.current AgingBucket.days_1_to_30 c row = omega int_laws
amount_in-adds AgingBucket.current AgingBucket.days_31_to_60 c row = omega int_laws
amount_in-adds AgingBucket.current AgingBucket.days_61_to_90 c row = omega int_laws
amount_in-adds AgingBucket.current AgingBucket.over_90 c row = omega int_laws
amount_in-adds AgingBucket.days_1_to_30 AgingBucket.current c row = omega int_laws
amount_in-adds AgingBucket.days_1_to_30 AgingBucket.days_1_to_30 c row = omega int_laws
amount_in-adds AgingBucket.days_1_to_30 AgingBucket.days_31_to_60 c row = omega int_laws
amount_in-adds AgingBucket.days_1_to_30 AgingBucket.days_61_to_90 c row = omega int_laws
amount_in-adds AgingBucket.days_1_to_30 AgingBucket.over_90 c row = omega int_laws
amount_in-adds AgingBucket.days_31_to_60 AgingBucket.current c row = omega int_laws
amount_in-adds AgingBucket.days_31_to_60 AgingBucket.days_1_to_30 c row = omega int_laws
amount_in-adds AgingBucket.days_31_to_60 AgingBucket.days_31_to_60 c row = omega int_laws
amount_in-adds AgingBucket.days_31_to_60 AgingBucket.days_61_to_90 c row = omega int_laws
amount_in-adds AgingBucket.days_31_to_60 AgingBucket.over_90 c row = omega int_laws
amount_in-adds AgingBucket.days_61_to_90 AgingBucket.current c row = omega int_laws
amount_in-adds AgingBucket.days_61_to_90 AgingBucket.days_1_to_30 c row = omega int_laws
amount_in-adds AgingBucket.days_61_to_90 AgingBucket.days_31_to_60 c row = omega int_laws
amount_in-adds AgingBucket.days_61_to_90 AgingBucket.days_61_to_90 c row = omega int_laws
amount_in-adds AgingBucket.days_61_to_90 AgingBucket.over_90 c row = omega int_laws
amount_in-adds AgingBucket.over_90 AgingBucket.current c row = omega int_laws
amount_in-adds AgingBucket.over_90 AgingBucket.days_1_to_30 c row = omega int_laws
amount_in-adds AgingBucket.over_90 AgingBucket.days_31_to_60 c row = omega int_laws
amount_in-adds AgingBucket.over_90 AgingBucket.days_61_to_90 c row = omega int_laws
amount_in-adds AgingBucket.over_90 AgingBucket.over_90 c row = omega int_laws

amount_in-IsColumn : (k : AgingBucket) → IsColumn (amount_in k)
amount_in-IsColumn k = record { empty = ground arith; adds = amount_in-adds k }

total-IsColumn : IsColumn (λ row. row.total)
unfolding add_to_row
total-IsColumn = record { empty = refl; adds = λ b c row. ground (arith, zero-+ℤ c) }

-- The parties' rows add up to the totals in a column.
abbrev Ties : (AgingRow → Cents) → Aging → Type 0
Ties w report = total (λ (_, row). w row) report.by_party ≡ w report.totals

add_item-Ties :
    (w : AgingRow → Cents) (item : AgingItem) (b : AgingBucket) (report : Aging)
    → IsColumn w
    → Ties w report
    → Ties w (add_item item b report)
add_item-Ties w item b report column ties =
    let row = or_else (lookup item.party_id report.by_party) empty_row in
    let grown =
      total-insert w empty_row item.party_id (add_to_row b item.balance row) report.by_party
        column.empty in
    omega (
      int_laws,
      parts_eq _ _ grown,
      parts_eq _ _ ties,
      parts_eq _ _ (column.adds b item.balance row),
      parts_eq _ _ (column.adds b item.balance report.totals),
    )

-- A round of the loop: the item owes nothing and is skipped, or it is added in a bucket.
age_item-inv :
    (item : AgingItem) (report next : Aging)
    → age_item item report ≡ ok next
    → ((item.balance ≡ pos 0) × (report ≡ next))
      ⊎ ((b : AgingBucket) × (add_item item b report ≡ next))
unfolding age_item
age_item-inv item report next e = elim (Bool-cases (eqb_ℤ item.balance (pos 0))) [
  | inl nothing ↦ inl (
    (eqb_ℤ_iff item.balance (pos 0)).0 nothing,
    ok-injective {E = SalesError} report next (ground (arith, e, nothing)),
  )
  | inr still_open ↦
      let aged : aged_item item report ≡ ok next = ground (arith, e, still_open) in
      let (days, _, e') =
        >>=-eq-ok (from_ledger (days_between item.due_date report.as_of)) _ aged in
      inr (bucket_for days, ok-injective (add_item item (bucket_for days) report) next e')
]
  where
    aged_item : AgingItem → Aging → Fallible Aging
    aged_item item report = from_ledger (days_between item.due_date report.as_of) >>= λ days.
        ok (add_item item (bucket_for days) report)

-- In the totals, the buckets add up to the total; the total is what the items so far owe.
abbrev Adds : Cents → Aging → Type 0
Adds owed report =
    (sum_of_buckets report.totals ≡ report.totals.total) × (report.totals.total ≡ owed)

sum_of_buckets-adds :
    (b : AgingBucket) (c : Cents) (row : AgingRow)
    → sum_of_buckets (add_to_row b c row) ≡ sum_of_buckets row +ℤ c
unfolding add_to_row
sum_of_buckets-adds AgingBucket.current c row = omega int_laws
sum_of_buckets-adds AgingBucket.days_1_to_30 c row = omega int_laws
sum_of_buckets-adds AgingBucket.days_31_to_60 c row = omega int_laws
sum_of_buckets-adds AgingBucket.days_61_to_90 c row = omega int_laws
sum_of_buckets-adds AgingBucket.over_90 c row = omega int_laws

total-adds :
    (b : AgingBucket) (c : Cents) (row : AgingRow) → (add_to_row b c row).total ≡ row.total +ℤ c
unfolding add_to_row
total-adds AgingBucket.current c row = refl
total-adds AgingBucket.days_1_to_30 c row = refl
total-adds AgingBucket.days_31_to_60 c row = refl
total-adds AgingBucket.days_61_to_90 c row = refl
total-adds AgingBucket.over_90 c row = refl

add_item-Adds :
    (owed : Cents) (item : AgingItem) (b : AgingBucket) (report : Aging)
    → Adds owed report
    → Adds (owed +ℤ item.balance) (add_item item b report)
add_item-Adds owed item b report (buckets, all_of_it) = (
  sum_of_buckets-adds b item.balance report.totals
      ∙ ap (λ c. c +ℤ item.balance) buckets
      ∙ sym (total-adds b item.balance report.totals),
  total-adds b item.balance report.totals ∙ ap (λ c. c +ℤ item.balance) all_of_it,
)

age_items-Adds :
    (items : List AgingItem) (owed : Cents) (report final : Aging)
    → Adds owed report
    → age_items items report ≡ ok final
    → Adds (owed +ℤ total (λ i. i.balance) items) final
unfolding age_items
age_items-Adds [] owed report final adds e =
    subst (Adds (owed +ℤ pos 0)) (ok-injective report final e) (adds.0, adds.1 ∙ sym (+ℤ-zero owed))
age_items-Adds (item ∷ items) owed report final adds e =
    let (next, h, e') = >>=-eq-ok (age_item item report) _ e in
    let one : Adds (owed +ℤ item.balance) next = elim (age_item-inv item report next h) [
      | inl (nothing, same) ↦
          subst (Adds (owed +ℤ item.balance)) same
            (adds.0, adds.1 ∙ sym (ap (λ c. owed +ℤ c) nothing ∙ +ℤ-zero owed))
      | inr (b, same) ↦
          subst (Adds (owed +ℤ item.balance)) same (add_item-Adds owed item b report adds)
    ] in
    let rest = age_items-Adds items (owed +ℤ item.balance) next final one e' in
    (rest.0, rest.1 ∙ +ℤ_assoc owed item.balance (total (λ i. i.balance) items))

age_items-Ties :
    (w : AgingRow → Cents) (items : List AgingItem) (report final : Aging)
    → IsColumn w
    → Ties w report
    → age_items items report ≡ ok final
    → Ties w final
unfolding age_items
age_items-Ties w [] report final column ties e = subst (Ties w) (ok-injective report final e) ties
age_items-Ties w (item ∷ items) report final column ties e =
    let (next, h, e') = >>=-eq-ok (age_item item report) _ e in
    let one : Ties w next = elim (age_item-inv item report next h) [
      | inl (_, same) ↦ subst (Ties w) same ties
      | inr (b, same) ↦ subst (Ties w) same (add_item-Ties w item b report column ties)
    ] in
    age_items-Ties w items next final column one e'

-- In an aging report the five buckets of the totals add up to the total, the total is what all items
-- owe, and in each bucket, and in the total, the parties' rows add up to the report's totals.
pub aging-adds_up :
    (as_of : IsoDate) (items : List AgingItem) (report : Aging)
    → aging as_of items ≡ ok report
    → (sum_of_buckets report.totals ≡ report.totals.total)
      × (report.totals.total ≡ total (λ i. i.balance) items)
      × ((k : AgingBucket)
          → total (λ (_, row). amount_in k row) report.by_party ≡ amount_in k report.totals)
      × (total (λ (_, row). row.total) report.by_party ≡ report.totals.total)
unfolding aging
aging-adds_up as_of items report e =
    let start : Aging = record { as_of = as_of; totals = empty_row; by_party = [] } in
    let (buckets, all_of_it) = age_items-Adds items (pos 0) start report (omega int_laws, refl) e in
    (
      buckets,
      all_of_it ∙ zero-+ℤ _,
      λ k.
          age_items-Ties (amount_in k) items start report (amount_in-IsColumn k)
            (sym (amount_in-IsColumn k).empty) e,
      age_items-Ties (λ row. row.total) items start report total-IsColumn refl e,
    )

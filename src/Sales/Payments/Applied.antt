-- ===== src/Sales/Payments/Applied.antt =====
-- packages/sales/src/sales.ts: what `cleanApplications` has checked when it succeeds.
use pnw.Base.{
  ◌≡◌, refl, sym, ap, ◌∙◌, subst, none, some, List, [], ◌∷◌, map, arith, All, or_else, Bool-cases,
  Option-cases, ◌⊎◌, inl, inr,
}
use pnw.Data.Int.{pos, ◌≤ℤ◌, ◌+ℤ◌, ltb_ℤ, eqb_ℤ, int_laws, +ℤ-zero}
use pnw.Data.Result.{ok, fail_if, >>=-eq-ok, ok-injective}
use pnw.Data.Text.{Text, text_eq, text_eq_iff}
use pnw.Data.Dict.{Dict, lookup, insert, IsKeyed, insert-IsKeyed}
use pnw.Ledger.Money.{Cents, sum_cents}
use pnw.Ledger.Books.Journal.Validity.{sum_cents-cons}
use pnw.Ledger.Reports.{amount_at}
use pnw.Sales.Errors.{Fallible}
use pnw.Sales.State.{Application, ApplicationInput}
use pnw.Sales.Balances.{amounts_for}
use pnw.Sales.Payments.{
  checked_application, add_application, merge_applications, check_applications, to_application,
  clean_applications,
}

-- The part of a list of applications that is put on a target.
abbrev pub put_on : Text → List Application → Cents
put_on id apps = sum_cents (amounts_for id apps)

-- Amounts under distinct targets, none negative.
abbrev Merged : Dict Cents → Type 0
Merged d = IsKeyed d × All (λ (_, c). pos 0 ≤ℤ c) d

amount_at-nonneg :
    (id : Text) (d : Dict Cents) → All (λ (_, c). pos 0 ≤ℤ c) d → pos 0 ≤ℤ amount_at id d
unfolding lookup
amount_at-nonneg id [] h = omega arith
amount_at-nonneg id ((j, c) ∷ d) h = elim (Bool-cases (text_eq j id)) [
  | inl same ↦ rw same h.0
  | inr other ↦ rw other (amount_at-nonneg id d h.1)
]

insert-nonneg :
    (id : Text) (c : Cents) (d : Dict Cents)
    → pos 0 ≤ℤ c
    → All (λ (_, c). pos 0 ≤ℤ c) d
    → All (λ (_, c). pos 0 ≤ℤ c) (insert id c d)
unfolding insert
insert-nonneg id c [] hc h = (hc, tt)
insert-nonneg id c ((j, w) ∷ d) hc h = elim (Bool-cases (text_eq j id)) [
  | inl same ↦ rw same (hc, h.1)
  | inr other ↦ rw other (h.0, insert-nonneg id c d hc h.1)
]

add_application-Merged :
    (id : Text) (c : Cents) (d : Dict Cents)
    → pos 0 ≤ℤ c
    → Merged d
    → Merged (add_application id c d)
add_application-Merged id c d hc h = elim (Bool-cases (eqb_ℤ c (pos 0))) [
  | inl nothing ↦ rw nothing h
  | inr more ↦ rw more (
    insert-IsKeyed id (amount_at id d +ℤ c) d h.0,
    insert-nonneg id (amount_at id d +ℤ c) d (omega (int_laws, amount_at-nonneg id d h.1)) h.1,
  )
]

merge_applications-Merged :
    (apps : List ApplicationInput) (d merged : Dict Cents)
    → Merged d
    → merge_applications apps d ≡ ok merged
    → Merged merged
merge_applications-Merged [] d merged h e = subst Merged (ok-injective d merged e) h
merge_applications-Merged (a ∷ apps) d merged h e =
    let (c, hc, e') = >>=-eq-ok (checked_application a.amount) _ e in
    let nonneg : pos 0 ≤ℤ c = ground arith in
    merge_applications-Merged apps (add_application a.target_id c d) merged
      (add_application-Merged a.target_id c d nonneg h) e'

-- Without a key, nothing is put on it; with it, its amount.
put_on-map :
    (id : Text) (d : Dict Cents) → IsKeyed d → put_on id (map to_application d) ≡ amount_at id d
unfolding lookup sum_cents
put_on-map id [] keyed = refl
put_on-map id ((j, c) ∷ d) keyed = elim (Bool-cases (text_eq j id)) [
  | inl same ↦ rw same (
      let rest : put_on id (map to_application d) ≡ pos 0 =
        put_on-map id d keyed.1
        ∙ ap (λ o. or_else o (pos 0))
            (subst (λ k. lookup k d ≡ none) ((text_eq_iff j id).0 same) keyed.0) in
      sum_cents-cons c (amounts_for id (map to_application d)) ∙ rw rest (+ℤ-zero c))
  | inr other ↦ rw other (put_on-map id d keyed.1)
]

-- Each merged amount is at most what its target owes.
check_applications-within :
    (balance_of_target : Text → Fallible Cents) (d : Dict Cents) (id : Text) (c : Cents)
    → check_applications balance_of_target d ≡ ok tt
    → lookup id d ≡ some c
    → (b : Cents) × (balance_of_target id ≡ ok b) × (c ≤ℤ b)
unfolding lookup
check_applications-within f [] id c e h = cc
check_applications-within f ((j, w) ∷ d) id c e h =
    let (b, hb, e1) = >>=-eq-ok (f j) _ e in
    let (_, g, e2) = >>=-eq-ok (fail_if (ltb_ℤ b w) _) _ e1 in
    elim (Bool-cases (text_eq j id)) [
      | inl same ↦
          let here : some w ≡ some c = ground (arith, h, same) in
          let amount : w ≡ c = cc in
          (
            b,
            subst (λ k. f k ≡ ok b) ((text_eq_iff j id).0 same) hb,
            subst (λ x. x ≤ℤ b) amount (ground arith),
          )
      | inr other ↦ check_applications-within f d id c e2 (ground (arith, h, other))
    ]

All-to_application :
    (d : Dict Cents)
    → All (λ (_, c). pos 0 ≤ℤ c) d
    → All (λ a. pos 0 ≤ℤ a.amount) (map to_application d)
All-to_application [] h = tt
All-to_application (_ ∷ d) h = (h.0, All-to_application d h.1)

-- Every amount is not negative, and what is put on a target is within what the target owes.
pub record AreWithin (owed : Text → Fallible Cents) (apps : List Application) : Type 0 where
  pub nonneg : All (λ a. pos 0 ≤ℤ a.amount) apps
  pub within :
      (id : Text)
      → (put_on id apps ≡ pos 0) ⊎ ((b : Cents) × (owed id ≡ ok b) × (put_on id apps ≤ℤ b))

pub clean_applications-AreWithin :
    (inputs : List ApplicationInput) (owed : Text → Fallible Cents) (apps : List Application)
    → clean_applications inputs owed ≡ ok apps
    → AreWithin owed apps
unfolding clean_applications
clean_applications-AreWithin inputs owed apps e =
    let (merged, hm, e1) = >>=-eq-ok (merge_applications inputs []) _ e in
    let (_, hc, e2) =
      >>=-eq-ok (check_applications owed merged) (λ _. ok (map to_application merged)) e1 in
    let (keyed, nonneg) = merge_applications-Merged inputs [] merged (tt, tt) hm in
    subst (AreWithin owed) (ok-injective (map to_application merged) apps e2) (record {
      nonneg = All-to_application merged nonneg;
      within = λ id. elim (Option-cases (lookup id merged)) [
        | inl missing ↦ inl (put_on-map id merged keyed ∙ ap (λ o. or_else o (pos 0)) missing)
        | inr (c, there) ↦
            let amount = put_on-map id merged keyed ∙ ap (λ o. or_else o (pos 0)) there in
            let (b, hb, le) = check_applications-within owed merged id c hc there in
            inr (b, hb, subst (λ x. x ≤ℤ b) (sym amount) le)
      ];
    })

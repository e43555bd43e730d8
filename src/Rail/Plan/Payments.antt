-- ===== src/Rail/Plan/Payments.antt =====
-- What a plan of packages/rail/src/plan.ts guarantees.
use mathlib.Core.List.{Mem, mem-cons_self}
use pnw.Base.{
  ◌≡◌, ap, ◌∙◌, Bool, true, ◌&&◌, List, [], ◌∷◌, ◌++◌, arith, length, map, leb, Bool-cases,
  Option-cases, inl, inr, All, All-append, any,
}
use pnw.Data.Int.{ℤ, pos, ◌+ℤ◌, ltb_ℤ, leb_ℤ, eqb_ℤ, int_laws, parts_eq}
use pnw.Data.Result.{ok}
use pnw.Data.Text.{Text, text_eq}
use pnw.Data.Sort.{sort, total, total-append, total-map, total-sort, All-sort}
use pnw.Rail.Plan.{
  Payee, Usable, RecordRef, SplitStep, Transfer, check_payees, by_amount_asc, by_amount_desc,
  take_first, existing_ref, assign, carve_all, queue_of, assign_all,
}
use pnw.Rail.Plan.Sums.{payment, assign-pays, assign-uses, carve_all-pays}
use pnw.Rail.Plan.Spending.{Positive, Balances, carve_all-Balances}
use pnw.Rail.Plan.Sources.{
  records_after, IsFrom, AreUsable, AreUsable-more, AreFrom-after, AreTraced, assign-AreFrom,
  carve_all-AreTraced,
}
use pnw.Rail.Plan.Covers.{IsCovered, AreGood, assign-IsCovered, carve_all-AreGood}

pub check_payees-Positive :
    (seen : List Text) (payees : List Payee) → check_payees seen payees ≡ ok tt → Positive payees
check_payees-Positive seen [] e = tt
check_payees-Positive seen (p ∷ payees) e = elim (Bool-cases (leb_ℤ p.amount (pos 0))) [
  | inl bad ↦ absurd (ground (arith, e, bad))
  | inr good ↦ elim (Bool-cases (any (text_eq p.worker_id) seen)) [
    | inl twice ↦ absurd (ground (arith, e, good, twice))
    | inr once ↦ (
      ground arith,
      check_payees-Positive (p.worker_id ∷ seen) payees (ground (arith, e, good, once)),
    )
  ]
]

-- Who waits after a pass was in it.
assign-All :
    (P : Payee → Type 0) (fits : Payee → Usable → Bool) (queue : List Payee) (free : List Usable)
    → All P queue
    → All P (assign fits queue free).0
assign-All P fits [] free h = tt
assign-All P fits (p ∷ queue) free h = elim (Option-cases (take_first (fits p) free)) [
  | inl waits ↦ rw (waits, assign) (h.0, assign-All P fits queue free h.1)
  | inr ((r, rest), taken) ↦ rw (taken, assign) (assign-All P fits queue rest h.1)
]

total_three :
    {A : Type 0} (w : A → ℤ) (a b c : List A)
    → total w (a ++ b ++ c) ≡ total w a +ℤ (total w b +ℤ total w c)
total_three w a b c =
    omega (int_laws, parts_eq _ _ (total-append w (a ++ b) c), parts_eq _ _ (total-append w a b))

module _ (locale_after : Text → Text → Bool) (payees : List Payee) (usable : List Usable) where
  -- The passes one after the other, as `assign_all` runs them.
  abbrev fits_exactly : Payee → Usable → Bool
  fits_exactly p r = eqb_ℤ r.amount p.amount

  abbrev first_pass : List Payee × List Usable × List Transfer
  first_pass = assign fits_exactly (queue_of locale_after payees) (sort by_amount_asc usable)

  abbrev fits_best : Payee → Usable → Bool
  fits_best p r = leb (length first_pass.0) (length first_pass.1) && leb_ℤ p.amount r.amount

  abbrev second_pass : List Payee × List Usable × List Transfer
  second_pass = assign fits_best first_pass.0 first_pass.1

  abbrev third_pass : List Payee × List SplitStep × List Transfer
  third_pass = carve_all 0 (sort by_amount_desc second_pass.1) second_pass.0

  pub assign_all-pays :
      (w : Payee → ℤ)
      → total w (assign_all locale_after payees usable).0
          +ℤ total (λ t. w (payment t)) (assign_all locale_after payees usable).2
        ≡ total w payees
  assign_all-pays w =
      ap (λ s. total w third_pass.0 +ℤ s)
        (total_three (λ t. w (payment t)) first_pass.2 second_pass.2 third_pass.2)
      ∙ omega (
        int_laws,
        parts_eq _ _ (total-sort _ w payees),
        parts_eq _ _
            (assign-pays w fits_exactly (queue_of locale_after payees) (sort by_amount_asc usable)),
        parts_eq _ _ (assign-pays w fits_best first_pass.0 first_pass.1),
        parts_eq _ _ (carve_all-pays w 0 (sort by_amount_desc second_pass.1) second_pass.0),
      )

  pub assign_all-Balances :
      Positive payees
      → (left : List RecordRef) × Balances
          (map existing_ref usable)
          left
          (assign_all locale_after payees usable).1
          (assign_all locale_after payees usable).2
  assign_all-Balances h =
      let queued = All-sort _ (λ p. ltb_ℤ (pos 0) p.amount ≡ true) payees h in
      let first =
        assign-All _ fits_exactly (queue_of locale_after payees) (sort by_amount_asc usable)
          queued in
      let second = assign-All _ fits_best first_pass.0 first_pass.1 first in
      let (left, carved) =
        carve_all-Balances 0 (sort by_amount_desc second_pass.1) second_pass.0 second in
      (
        left,
        λ w. omega (
          int_laws,
          parts_eq _ _ (carved w),
          parts_eq _ _ (total_three (λ t. w t.paid_from) first_pass.2 second_pass.2 third_pass.2),
          parts_eq _ _ (
              assign-uses w fits_exactly (queue_of locale_after payees)
                (sort by_amount_asc usable)),
          parts_eq _ _ (assign-uses w fits_best first_pass.0 first_pass.1),
          parts_eq _ _ (total-sort by_amount_asc (λ r. w (existing_ref r)) usable),
          parts_eq _ _ (total-sort by_amount_desc (λ r. w (existing_ref r)) second_pass.1),
          parts_eq _ _ (total-map w existing_ref usable),
          parts_eq _ _ (total-map w existing_ref (sort by_amount_desc second_pass.1)),
        ),
      )

  usable-AreUsable : AreUsable (map existing_ref usable) usable
  usable-AreUsable = in_map usable
    where
      in_map : (rs : List Usable) → AreUsable (map existing_ref rs) rs
      in_map [] = tt
      in_map (r ∷ rs) =
          (mem-cons_self, AreUsable-more (existing_ref r) (map existing_ref rs) rs (in_map rs))

  pub assign_all-AreTraced :
      Positive payees
      → AreTraced
          (map existing_ref usable)
          (assign_all locale_after payees usable).1
          (assign_all locale_after payees usable).2
  assign_all-AreTraced h =
      let at_hand = map existing_ref usable in
      let queued = All-sort _ (λ p. ltb_ℤ (pos 0) p.amount ≡ true) payees h in
      let first =
        assign-All _ fits_exactly (queue_of locale_after payees) (sort by_amount_asc usable)
          queued in
      let second = assign-All _ fits_best first_pass.0 first_pass.1 first in
      let (free, exact) =
        assign-AreFrom at_hand fits_exactly (queue_of locale_after payees)
          (sort by_amount_asc usable)
          (All-sort _ (λ r. Mem (existing_ref r) at_hand) usable usable-AreUsable) in
      let (left, best) = assign-AreFrom at_hand fits_best first_pass.0 first_pass.1 free in
      let carved =
        carve_all-AreTraced at_hand 0 (sort by_amount_desc second_pass.1) second_pass.0
          (All-sort _ (λ r. Mem (existing_ref r) at_hand) second_pass.1 left) second in
      let after = records_after at_hand third_pass.1 in
      record {
        sourced = carved.sourced;
        from =
            All-append (IsFrom after) (first_pass.2 ++ second_pass.2) third_pass.2
              (All-append (IsFrom after) first_pass.2 second_pass.2
                (AreFrom-after at_hand third_pass.1 first_pass.2 exact)
                (AreFrom-after at_hand third_pass.1 second_pass.2 best))
              carved.from;
      }

  pub assign_all-AreGood :
      AreGood 0 (assign_all locale_after payees usable).1 (assign_all locale_after payees usable).2
  assign_all-AreGood =
      let carved = carve_all-AreGood 0 (sort by_amount_desc second_pass.1) second_pass.0 in
      let exact =
        assign-IsCovered fits_exactly (queue_of locale_after payees) (sort by_amount_asc usable)
          (λ p r e. ground arith) in
      let best = assign-IsCovered fits_best first_pass.0 first_pass.1 (λ p r e. ground arith) in
      record {
        covered =
            All-append IsCovered (first_pass.2 ++ second_pass.2) third_pass.2
              (All-append IsCovered first_pass.2 second_pass.2 exact best) carved.covered;
        divided = carved.divided;
        indexed = carved.indexed;
      }

-- ===== src/Rail/Plan/Guarantees.antt =====
-- What a plan that `planTransfers` of packages/rail/src/plan.ts returns guarantees.
use pnw.Base.{
  ◌≡◌, refl, sym, ap, ◌∙◌, subst, Bool, true, false, List, [], ◌∷◌, map, arith, Bool-cases, All,
  inl, inr,
}
use pnw.Data.Int.{ℤ, pos, ◌+ℤ◌, ◌-ℤ◌, ltb_ℤ, leb_ℤ, int_laws, parts_eq}
use pnw.Data.Result.{ok, Result-cases}
use pnw.Data.Text.{Text}
use pnw.Data.Sort.{total, total-append, total-map, total-sort, All-sort, sum_of, sum_of-total}
use pnw.Rail.Plan.{
  Payee, TokenRecord, RecordRef, SplitStep, Transfer, TransferPlan, check_payees, usable_records,
  existing_ref, in_order, assign_all, finish, plan_transfers,
}
use pnw.Rail.Plan.Sums.{payment, outputs, used}
use pnw.Rail.Plan.Covers.{IsCovered, IsDivided, AreIndexed, minus-nonneg}
use pnw.Rail.Plan.Sources.{AreSourced, IsFrom, records_after}
use pnw.Rail.Plan.Payments.{
  check_payees-Positive, assign_all-pays, assign_all-Balances, assign_all-AreTraced,
  assign_all-AreGood,
}

-- What is known of the parts when a plan is returned.
record IsMade (locale_after : Text → Text → Bool) (payees : List Payee) (records : List TokenRecord)
    (plan : TransferPlan) : Type 0 where
  checked : check_payees [] payees ≡ ok tt
  enough :
      ltb_ℤ (sum_of (λ r. r.amount) (usable_records records)) (sum_of (λ p. p.amount) payees)
      ≡ false
  nobody_left : (assign_all locale_after payees (usable_records records)).0 ≡ []
  splits : plan.splits ≡ (assign_all locale_after payees (usable_records records)).1
  transfers :
      plan.transfers ≡ in_order payees (assign_all locale_after payees (usable_records records)).2
  change :
      plan.change
      ≡ sum_of (λ r. r.amount) (usable_records records)
        -ℤ sum_of (λ t. t.amount) (assign_all locale_after payees (usable_records records)).2

module _ (locale_after : Text → Text → Bool) (payees : List Payee) (records : List TokenRecord)
    (plan : TransferPlan) where
  finish-inv :
      (balance : ℤ) (remaining : List Payee) (splits : List SplitStep) (made : List Transfer)
      → finish locale_after payees balance (remaining, splits, made) ≡ ok plan
      → (remaining ≡ [])
        × (plan.splits ≡ splits)
        × (plan.transfers ≡ in_order payees made)
        × (plan.change ≡ balance -ℤ sum_of (λ t. t.amount) made)
  finish-inv balance [] splits made e = (refl, cc, cc, cc)
  finish-inv balance (p ∷ remaining) splits made e = cc

  plan_transfers-inv :
      plan_transfers locale_after payees records ≡ ok plan → IsMade locale_after payees records plan
  unfolding plan_transfers
  plan_transfers-inv e = elim (Result-cases (check_payees [] payees)) [
    | inr (code, bad) ↦ absurd (ground (arith, e, bad))
    | inl (u, checked) ↦
        elim (Bool-cases (
          ltb_ℤ (sum_of (λ r. r.amount) (usable_records records))
            (sum_of (λ p. p.amount) payees))) [
              | inl short ↦ absurd (ground (arith, e, checked, short))
              | inr enough ↦
                  let (a, b, c, d) = finish-inv _ _ _ _ (ground (arith, e, checked, enough)) in
                  record {
                    checked = checked;
                    enough = enough;
                    nobody_left = a;
                    splits = b;
                    transfers = c;
                    change = d;
                  }
            ]
  ]

  made-pays :
      (w : Payee → ℤ)
      → IsMade locale_after payees records plan
      → total (λ t. w (payment t)) (assign_all locale_after payees (usable_records records)).2
        ≡ total w payees
  made-pays w m = omega (
    int_laws,
    parts_eq _ _ (assign_all-pays locale_after payees (usable_records records) w),
    parts_eq _ _ (ap (total w) m.nobody_left),
  )

  -- Where a plan is returned, its transfers make each payment asked for exactly once: whatever number
  -- each payment is given, the sum over the transfers is the sum over the payees.
  pub plan_transfers-pays :
      (w : Payee → ℤ)
      → plan_transfers locale_after payees records ≡ ok plan
      → total w (map payment plan.transfers) ≡ total w payees
  plan_transfers-pays w e =
      let m = plan_transfers-inv e in
      total-map w payment plan.transfers
      ∙ ap (total (λ t. w (payment t))) m.transfers
      ∙ total-sort _ (λ t. w (payment t)) _
      ∙ made-pays w m

  -- Where a plan is returned, no record is used twice and none is made up: there are records that
  -- stay unused such that, whatever number each record is given, the sum over the records that splits
  -- and transfers use up and over the unused ones is the sum over the records at hand with a positive
  -- amount and over the two outputs of each split.
  pub plan_transfers-spends :
      plan_transfers locale_after payees records ≡ ok plan
      → (left : List RecordRef) × ((w : RecordRef → ℤ)
          → total w (used plan.splits plan.transfers) +ℤ total w left
            ≡ total w (map existing_ref (usable_records records)) +ℤ total w (outputs plan.splits))
  plan_transfers-spends e =
      let m = plan_transfers-inv e in
      let (left, same) =
        assign_all-Balances locale_after payees (usable_records records)
          (check_payees-Positive [] payees m.checked) in
      (
        left,
        λ w. omega (
          int_laws,
          parts_eq _ _ (same w),
          parts_eq _ _ (
              total-append w (map (λ s. s.source) plan.splits)
                (map (λ t. t.paid_from) plan.transfers)),
          parts_eq _ _ (total-map w (λ s. s.source) plan.splits),
          parts_eq _ _ (total-map w (λ t. t.paid_from) plan.transfers),
          parts_eq _ _ (ap (total (λ s. w s.source)) m.splits),
          parts_eq _ _ (ap (λ s. total w (outputs s)) m.splits),
          parts_eq _ _ (ap (total (λ t. w t.paid_from)) m.transfers),
          parts_eq _ _ (
              total-sort _ (λ t. w t.paid_from)
                (assign_all locale_after payees (usable_records records)).2),
        ),
      )

  -- The records that a plan starts from.
  abbrev pub at_hand : List RecordRef
  at_hand = map existing_ref (usable_records records)

  -- Where a plan is returned, each split divides a record at hand with a positive amount or an output of
  -- a split before it; its two outputs add up to what that record holds, and the second is positive;
  -- the splits are numbered from 0 in their order; and each transfer is paid from a record at hand with
  -- a positive amount or an output of a split, which holds at least the transfer's amount.
  pub plan_transfers-covers :
      plan_transfers locale_after payees records ≡ ok plan
      → AreSourced at_hand plan.splits
        × All IsDivided plan.splits
        × AreIndexed 0 plan.splits
        × All (IsFrom (records_after at_hand plan.splits)) plan.transfers
        × All IsCovered plan.transfers
  plan_transfers-covers e =
      let m = plan_transfers-inv e in
      let usable = usable_records records in
      let good = assign_all-AreGood locale_after payees usable in
      let traced =
        assign_all-AreTraced locale_after payees usable
          (check_payees-Positive [] payees m.checked) in
      (
        subst (AreSourced at_hand) (sym m.splits) traced.sourced,
        subst (All IsDivided) (sym m.splits) good.divided,
        subst (AreIndexed 0) (sym m.splits) good.indexed,
        subst (λ splits. All (IsFrom (records_after at_hand splits)) plan.transfers) (sym m.splits)
            (subst (All (IsFrom _)) (sym m.transfers) (All-sort _ (IsFrom _) _ traced.from)),
        subst (All IsCovered) (sym m.transfers) (All-sort _ IsCovered _ good.covered),
      )

  -- Where a plan is returned, its change is what the records at hand with a positive amount hold less
  -- what is paid, and is not negative.
  pub plan_transfers-change :
      plan_transfers locale_after payees records ≡ ok plan
      → (plan.change
          ≡ sum_of (λ r. r.amount) (usable_records records) -ℤ sum_of (λ p. p.amount) payees)
        × (leb_ℤ (pos 0) plan.change ≡ true)
  plan_transfers-change e =
      let m = plan_transfers-inv e in
      let paid : sum_of (λ t. t.amount) (assign_all locale_after payees (usable_records records)).2
          ≡ sum_of (λ p. p.amount) payees =
        sum_of-total _ _ ∙ made-pays (λ p. p.amount) m ∙ sym (sum_of-total _ payees) in
      let change : plan.change
          ≡ sum_of (λ r. r.amount) (usable_records records) -ℤ sum_of (λ p. p.amount) payees =
        m.change ∙ ap (λ s. sum_of (λ r. r.amount) (usable_records records) -ℤ s) paid in
      (change, subst (λ c. leb_ℤ (pos 0) c ≡ true) (sym change) (minus-nonneg _ _ m.enough))

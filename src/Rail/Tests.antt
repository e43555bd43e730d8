-- ===== src/Rail/Tests.antt =====
-- The plan of packages/rail/src/plan.ts at a small run, with the theorems about it.
use pnw.Base.{◌≡◌, refl, All, List, [], ◌∷◌, map, Bool, true}
use pnw.Data.Int.{ℤ, pos, ◌+ℤ◌, ◌-ℤ◌, leb_ℤ}
use pnw.Data.Result.{Result, ok, err}
use pnw.Data.Text.{Text, codes, text_eq}
use pnw.Data.Text.Order.{text_lt}
use pnw.Data.Dict.{lookup, insert}
use pnw.Data.Sort.{sort, sum_of, total}
use pnw.Rail.Plan.{
  RailError, listed_twice, not_enough_balance, no_single_record, Payee, TokenRecord, TransferPlan,
  RecordRef, split, amount_output, remainder_output, usable_records, existing_ref, plan_transfers,
}
use pnw.Rail.Plan.Sums.{payment, outputs, used}
use pnw.Rail.Plan.Sources.{AreSourced, IsFrom, records_after}
use pnw.Rail.Plan.Covers.{IsCovered, IsDivided, AreIndexed}
use pnw.Rail.Plan.Guarantees.{
  plan_transfers-pays, plan_transfers-spends, plan_transfers-covers, plan_transfers-change,
}

-- Unfolds what a plan computes with.
unfoldable program : Unit {0}
unfolding sort sum_of lookup insert text_eq text_lt plan_transfers ◌+ℤ◌ ◌-ℤ◌
program = tt

abbrev later : Text → Text → Bool
later a b = text_lt b a

abbrev payee : Text → ℤ → Payee
payee id amount = record { worker_id = id; amount = amount }

abbrev token : Text → ℤ → TokenRecord
token plaintext amount = record { plaintext = plaintext; amount = amount }

abbrev three : List Payee
three = payee (codes "a") (pos 30) ∷ payee (codes "b") (pos 50) ∷ payee (codes "c") (pos 20) ∷ []

abbrev wallet : List TokenRecord
wallet = token (codes "r") (pos 100) ∷ token (codes "s") (pos 5) ∷ []

abbrev or_plan : Result RailError TransferPlan → TransferPlan
or_plan (ok plan) = plan
or_plan (err e) = record { splits = []; transfers = []; change = pos 0 }

unfoldable plan₁ : TransferPlan
unfolding program
plan₁ = or_plan (plan_transfers later three wallet)

planned : plan_transfers later three wallet ≡ ok plan₁
unfolding program plan₁
planned = refl

-- One record is split twice, its last remainder pays the third payee, and the other record is left.
paid_from₁ :
    map (λ t. t.paid_from) plan₁.transfers
    ≡ split 1 amount_output (pos 30)
      ∷ split 0 amount_output (pos 50)
      ∷ split 1 remainder_output (pos 20)
      ∷ []
unfolding program plan₁
paid_from₁ = refl

change₁ : plan₁.change ≡ pos 5
unfolding program plan₁
change₁ = refl

-- No single record covers the second payment.
scattered :
    plan_transfers later
      (payee (codes "a") (pos 3) ∷ payee (codes "b") (pos 9) ∷ [])
      (token (codes "r") (pos 8) ∷ token (codes "s") (pos 8) ∷ [])
    ≡ err no_single_record
unfolding program
scattered = refl

twice :
    plan_transfers later (payee (codes "a") (pos 3) ∷ payee (codes "a") (pos 9) ∷ []) wallet
    ≡ err listed_twice
unfolding program
twice = refl

short : plan_transfers later (payee (codes "a") (pos 200) ∷ []) wallet ≡ err not_enough_balance
unfolding program
short = refl

plan_transfers-pays_example :
    total (λ p. p.amount) (map payment plan₁.transfers) ≡ total (λ p. p.amount) three
plan_transfers-pays_example = plan_transfers-pays later three wallet plan₁ (λ p. p.amount) planned

plan_transfers-spends_example :
    (left : List RecordRef) × ((w : RecordRef → ℤ)
      → total w (used plan₁.splits plan₁.transfers) +ℤ total w left
        ≡ total w (map existing_ref (usable_records wallet)) +ℤ total w (outputs plan₁.splits))
plan_transfers-spends_example = plan_transfers-spends later three wallet plan₁ planned

plan_transfers-covers_example :
    AreSourced (map existing_ref (usable_records wallet)) plan₁.splits
    × All IsDivided plan₁.splits
    × AreIndexed 0 plan₁.splits
    × All
        (IsFrom (records_after (map existing_ref (usable_records wallet)) plan₁.splits))
        plan₁.transfers
    × All IsCovered plan₁.transfers
plan_transfers-covers_example = plan_transfers-covers later three wallet plan₁ planned

plan_transfers-change_example :
    (plan₁.change ≡ sum_of (λ r. r.amount) (usable_records wallet) -ℤ sum_of (λ p. p.amount) three)
    × (leb_ℤ (pos 0) plan₁.change ≡ true)
plan_transfers-change_example = plan_transfers-change later three wallet plan₁ planned

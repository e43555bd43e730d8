-- ===== src/Rail/Plan/Sources.antt =====
-- Where the records that splits and transfers of packages/rail/src/plan.ts use come from.
use mathlib.Core.List.{Mem, mem-cons_self, mem-cons_of_mem}
use pnw.Base.{
  ℕ, ◌+◌, ◌≡◌, refl, sym, subst, Bool, some, List, [], ◌∷◌, ◌++◌, length, Bool-cases, Option-cases,
  inl, inr, All, All-append,
}
use pnw.Data.Int.{◌-ℤ◌, ltb_ℤ, eqb_ℤ}
use pnw.Rail.Plan.{
  Payee, Usable, RecordRef, split, remainder_output, SplitStep, Transfer, amount_in, emptied,
  existing_ref, take_first, assign, carve, carve_all,
}
use pnw.Rail.Plan.Sums.{outputs, take_first_head}
use pnw.Rail.Plan.Spending.{Positive, carve_empty, amount_in-emptied, carve-Positive}

-- The records that there are after splits, where those `at_hand` were there before: the two outputs of
-- each split are added.
abbrev pub records_after : List RecordRef → List SplitStep → List RecordRef
records_after at_hand [] = at_hand
records_after at_hand (s ∷ splits) = records_after (outputs (s ∷ []) ++ at_hand) splits

-- Each split divides a record at hand or an output of a split before it, with the amount it holds.
abbrev pub AreSourced : List RecordRef → List SplitStep → Type 0
AreSourced at_hand [] = Unit
AreSourced at_hand (s ∷ splits) =
    Mem s.source at_hand × AreSourced (outputs (s ∷ []) ++ at_hand) splits

abbrev pub IsFrom : List RecordRef → Transfer → Type 0
IsFrom records t = Mem t.paid_from records

-- No record goes.
pub mem-records_after :
    {r : RecordRef} (at_hand : List RecordRef) (splits : List SplitStep)
    → Mem r at_hand
    → Mem r (records_after at_hand splits)
mem-records_after at_hand [] m = m
mem-records_after at_hand (s ∷ splits) m =
    mem-records_after (outputs (s ∷ []) ++ at_hand) splits (mem-cons_of_mem _ (mem-cons_of_mem _ m))

pub AreFrom-after :
    (at_hand : List RecordRef) (splits : List SplitStep) (made : List Transfer)
    → All (IsFrom at_hand) made
    → All (IsFrom (records_after at_hand splits)) made
AreFrom-after at_hand splits [] h = tt
AreFrom-after at_hand splits (t ∷ made) h =
    (mem-records_after at_hand splits h.0, AreFrom-after at_hand splits made h.1)

abbrev pub AreUsable : List RecordRef → List Usable → Type 0
AreUsable at_hand = All (λ r. Mem (existing_ref r) at_hand)

pub AreUsable-more :
    (new : RecordRef) (at_hand : List RecordRef) (free : List Usable)
    → AreUsable at_hand free
    → AreUsable (new ∷ at_hand) free
AreUsable-more new at_hand [] h = tt
AreUsable-more new at_hand (r ∷ free) h =
    (mem-cons_of_mem new h.0, AreUsable-more new at_hand free h.1)

AreUsable-after :
    (at_hand : List RecordRef) (splits : List SplitStep) (free : List Usable)
    → AreUsable at_hand free
    → AreUsable (records_after at_hand splits) free
AreUsable-after at_hand splits [] h = tt
AreUsable-after at_hand splits (r ∷ free) h =
    (mem-records_after at_hand splits h.0, AreUsable-after at_hand splits free h.1)

take_first-All :
    (P : Usable → Type 0) (test : Usable → Bool) (free : List Usable) (r : Usable)
    (rest : List Usable)
    → All P free
    → take_first test free ≡ some (r, rest)
    → P r × All P rest
take_first-All P test [] r rest h e = cc
take_first-All P test (x ∷ free) r rest h e = elim (take_first_head test x free r rest e) [
  | inl (same, rest_same, _) ↦ (subst P same h.0, subst (All P) rest_same h.1)
  | inr (rest', there, grown) ↦
      let (hr, hrest) = take_first-All P test free r rest' h.1 there in
      (hr, subst (All P) grown (h.0, hrest))
]

-- A pass pays from free records, and what stays free was free.
pub assign-AreFrom :
    (at_hand : List RecordRef) (fits : Payee → Usable → Bool) (queue : List Payee)
    (free : List Usable)
    → AreUsable at_hand free
    → AreUsable at_hand (assign fits queue free).1 × All (IsFrom at_hand) (assign fits queue free).2
assign-AreFrom at_hand fits [] free h = (h, tt)
assign-AreFrom at_hand fits (p ∷ queue) free h = elim (Option-cases (take_first (fits p) free)) [
  | inl waits ↦ rw (waits, assign) (assign-AreFrom at_hand fits queue free h)
  | inr ((r, rest), taken) ↦
      let (here, others) = take_first-All _ (fits p) free r rest h taken in
      let (left, made) = assign-AreFrom at_hand fits queue rest others in
      rw (taken, assign) (left, (here, made))
]

-- The splits have their sources, and the transfers are paid from what there is after the splits.
pub record AreTraced (at_hand : List RecordRef) (splits : List SplitStep) (made : List Transfer)
    : Type 0 where
  pub sourced : AreSourced at_hand splits
  pub from : All (IsFrom (records_after at_hand splits)) made

carve-AreTraced :
    (at_hand : List RecordRef) (n : ℕ) (current : RecordRef) (remaining : List Payee)
    → Mem current at_hand
    → Positive remaining
    → AreTraced at_hand (carve n current remaining).1 (carve n current remaining).2
carve-AreTraced at_hand n current [] m h = record { sourced = tt; from = tt }
carve-AreTraced at_hand n current (p ∷ remaining) m h =
    elim (Bool-cases (ltb_ℤ (amount_in current) p.amount)) [
      | inl large ↦ rw (large, carve) (carve-AreTraced at_hand n current remaining m h.1)
      | inr fits ↦ elim (Bool-cases (eqb_ℤ p.amount (amount_in current))) [
        | inl exact ↦
            rw (fits, exact, carve)
              (rw (carve_empty n (emptied current) remaining (amount_in-emptied current) h.1)
                (record { sourced = tt; from = (m, tt) }))
        | inr part ↦
            let left = amount_in current -ℤ p.amount in
            let step : SplitStep = record {
              index = n;
              source = current;
              amount = p.amount;
              remainder = left;
            } in
            let after = outputs (step ∷ []) ++ at_hand in
            let last = split n remainder_output left in
            let rest =
              carve-AreTraced after (n + 1) last remaining (mem-cons_of_mem _ mem-cons_self) h.1 in
            rw (fits, part, carve)
              (record {
                sourced = (m, rest.sourced);
                from = (
                  mem-records_after after (carve (n + 1) last remaining).1 mem-cons_self,
                  rest.from,
                );
              })
      ]
    ]

records_after-append :
    (at_hand : List RecordRef) (a b : List SplitStep)
    → records_after at_hand (a ++ b) ≡ records_after (records_after at_hand a) b
records_after-append at_hand [] b = refl
records_after-append at_hand (s ∷ a) b = records_after-append (outputs (s ∷ []) ++ at_hand) a b

AreSourced-append :
    (at_hand : List RecordRef) (a b : List SplitStep)
    → AreSourced at_hand a
    → AreSourced (records_after at_hand a) b
    → AreSourced at_hand (a ++ b)
AreSourced-append at_hand [] b ha hb = hb
AreSourced-append at_hand (s ∷ a) b ha hb =
    (ha.0, AreSourced-append (outputs (s ∷ []) ++ at_hand) a b ha.1 hb)

pub carve_all-AreTraced :
    (at_hand : List RecordRef) (n : ℕ) (sources : List Usable) (remaining : List Payee)
    → AreUsable at_hand sources
    → Positive remaining
    → AreTraced at_hand (carve_all n sources remaining).1 (carve_all n sources remaining).2
carve_all-AreTraced at_hand n sources [] u h = record { sourced = tt; from = tt }
carve_all-AreTraced at_hand n [] (p ∷ remaining) u h = record { sourced = tt; from = tt }
carve_all-AreTraced at_hand n (r ∷ sources) (p ∷ remaining) u h =
    let c = carve n (existing_ref r) (p ∷ remaining) in
    let one = carve-AreTraced at_hand n (existing_ref r) (p ∷ remaining) u.0 h in
    let after = records_after at_hand c.1 in
    let others =
      carve_all-AreTraced after (n + length c.1) sources c.0
        (AreUsable-after at_hand c.1 sources u.1)
        (carve-Positive n (existing_ref r) (p ∷ remaining) h) in
    let later = (carve_all (n + length c.1) sources c.0).1 in
    let made = (carve_all (n + length c.1) sources c.0).2 in
    record {
      sourced = AreSourced-append at_hand c.1 later one.sourced others.sourced;
      from =
          subst (λ rs. All (IsFrom rs) (c.2 ++ made)) (sym (records_after-append at_hand c.1 later))
            (All-append (IsFrom (records_after after later)) c.2 made
              (AreFrom-after after later c.2 one.from) others.from);
    }

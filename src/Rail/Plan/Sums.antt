-- ===== src/Rail/Plan/Sums.antt =====
-- What the passes of packages/rail/src/plan.ts keep: whatever is added up over the payees or over the
-- records, the sum before a pass is the sum after it.
use pnw.Base.{
  ℕ, ◌+◌, ◌≡◌, Bool, true, some, List, [], ◌∷◌, ◌++◌, map, arith, length, Bool-cases, Option-cases,
  inl, inr, ◌⊎◌, subst,
}
use pnw.Data.Int.{ℤ, ◌+ℤ◌, ◌-ℤ◌, ltb_ℤ, eqb_ℤ, int_laws, parts_eq}
use pnw.Data.Sort.{total, total-append}
use pnw.Rail.Plan.{
  Payee, Usable, RecordRef, split, amount_output, remainder_output, SplitStep, Transfer, amount_in,
  emptied, take_first, existing_ref, assign, carve, carve_all,
}

-- The payment that a transfer makes.
abbrev pub payment : Transfer → Payee
payment t = record { worker_id = t.worker_id; amount = t.amount }

-- The records that a list of splits makes.
abbrev pub outputs : List SplitStep → List RecordRef
outputs [] = []
outputs (s ∷ splits) =
    split s.index amount_output s.amount
    ∷ split s.index remainder_output s.remainder
    ∷ outputs splits

-- The records that splits and transfers use up.
abbrev pub used : List SplitStep → List Transfer → List RecordRef
used splits transfers = map (λ s. s.source) splits ++ map (λ t. t.paid_from) transfers

-- What `take_first` does at the head.
pub take_first_head :
    (test : Usable → Bool) (x : Usable) (free : List Usable) (r : Usable) (rest : List Usable)
    → take_first test (x ∷ free) ≡ some (r, rest)
    → ((x ≡ r) × (free ≡ rest) × (test r ≡ true))
      ⊎ ((rest' : List Usable) × (take_first test free ≡ some (r, rest')) × (x ∷ rest' ≡ rest))
take_first_head test x free r rest e = elim (Bool-cases (test x)) [
  | inl fits ↦ inl (ground (arith, e, fits))
  | inr other ↦ elim (Option-cases (take_first test free)) [
    | inl missing ↦ absurd (ground (arith, e, other, missing))
    | inr ((x', rest'), there) ↦
        inr (rest', ground (arith, e, other, there), ground (arith, e, other, there))
  ]
]

take_first-total :
    (w : Usable → ℤ) (test : Usable → Bool) (free : List Usable) (r : Usable) (rest : List Usable)
    → take_first test free ≡ some (r, rest)
    → total w free ≡ w r +ℤ total w rest
take_first-total w test [] r rest e = cc
take_first-total w test (x ∷ free) r rest e = elim (take_first_head test x free r rest e) [
  | inl (same, rest_same, _) ↦ λ i. w (same i) +ℤ total w (rest_same i)
  | inr (rest', there, grown) ↦
      subst (λ rest. total w (x ∷ free) ≡ w r +ℤ total w rest) grown
        (omega (int_laws, parts_eq _ _ (take_first-total w test free r rest' there)))
]

pub take_first-passes :
    (test : Usable → Bool) (free : List Usable) (r : Usable) (rest : List Usable)
    → take_first test free ≡ some (r, rest)
    → test r ≡ true
take_first-passes test [] r rest e = cc
take_first-passes test (x ∷ free) r rest e = elim (take_first_head test x free r rest e) [
  | inl (_, _, passes) ↦ passes
  | inr (rest', there, _) ↦ take_first-passes test free r rest' there
]

-- Every payee of a pass is paid or waits.
pub assign-pays :
    (w : Payee → ℤ) (fits : Payee → Usable → Bool) (queue : List Payee) (free : List Usable)
    → total w (assign fits queue free).0 +ℤ total (λ t. w (payment t)) (assign fits queue free).2
      ≡ total w queue
assign-pays w fits [] free = omega int_laws
assign-pays w fits (p ∷ queue) free = elim (Option-cases (take_first (fits p) free)) [
  | inl waits ↦ rw (waits, assign) (omega (int_laws, parts_eq _ _ (assign-pays w fits queue free)))
  | inr ((r, rest), taken) ↦
      rw (taken, assign) (omega (int_laws, parts_eq _ _ (assign-pays w fits queue rest)))
]

-- Every record of a pass stays free or is used once.
pub assign-uses :
    (w : RecordRef → ℤ) (fits : Payee → Usable → Bool) (queue : List Payee) (free : List Usable)
    → total (λ r. w (existing_ref r)) (assign fits queue free).1
        +ℤ total (λ t. w t.paid_from) (assign fits queue free).2
      ≡ total (λ r. w (existing_ref r)) free
assign-uses w fits [] free = omega int_laws
assign-uses w fits (p ∷ queue) free = elim (Option-cases (take_first (fits p) free)) [
  | inl waits ↦ rw (waits, assign) (assign-uses w fits queue free)
  | inr ((r, rest), taken) ↦
      let one = take_first-total (λ r. w (existing_ref r)) (fits p) free r rest taken in
      rw (taken, assign)
        (omega (int_laws, parts_eq _ _ (assign-uses w fits queue rest), parts_eq _ _ one))
]

pub carve-pays :
    (w : Payee → ℤ) (n : ℕ) (current : RecordRef) (remaining : List Payee)
    → total w (carve n current remaining).0
        +ℤ total (λ t. w (payment t)) (carve n current remaining).2
      ≡ total w remaining
carve-pays w n current [] = omega int_laws
carve-pays w n current (p ∷ remaining) = elim (Bool-cases (ltb_ℤ (amount_in current) p.amount)) [
  | inl large ↦
      rw (large, carve) (omega (int_laws, parts_eq _ _ (carve-pays w n current remaining)))
  | inr fits ↦ elim (Bool-cases (eqb_ℤ p.amount (amount_in current))) [
    | inl exact ↦
        rw (fits, exact, carve)
          (omega (int_laws, parts_eq _ _ (carve-pays w n (emptied current) remaining)))
    | inr part ↦
        rw (fits, part, carve)
          (omega (
            int_laws,
            parts_eq _ _ (
                carve-pays w (n + 1) (split n remainder_output (amount_in current -ℤ p.amount))
                  remaining),
          ))
  ]
]

pub carve_all-pays :
    (w : Payee → ℤ) (n : ℕ) (sources : List Usable) (remaining : List Payee)
    → total w (carve_all n sources remaining).0
        +ℤ total (λ t. w (payment t)) (carve_all n sources remaining).2
      ≡ total w remaining
carve_all-pays w n sources [] = omega int_laws
carve_all-pays w n [] (p ∷ remaining) = omega int_laws
carve_all-pays w n (r ∷ sources) (p ∷ remaining) =
    let (next, splits, made) = carve n (existing_ref r) (p ∷ remaining) in
    rw
      (total-append (λ t. w (payment t)) (carve n (existing_ref r) (p ∷ remaining)).2
        (carve_all (n + length (carve n (existing_ref r) (p ∷ remaining)).1) sources
          (carve n (existing_ref r) (p ∷ remaining)).0).2)
      (omega (
        int_laws,
        parts_eq _ _ (carve-pays w n (existing_ref r) (p ∷ remaining)),
        parts_eq _ _ (
            carve_all-pays w (n + length (carve n (existing_ref r) (p ∷ remaining)).1) sources
              (carve n (existing_ref r) (p ∷ remaining)).0),
      ))

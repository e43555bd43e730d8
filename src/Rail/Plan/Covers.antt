-- ===== src/Rail/Plan/Covers.antt =====
-- That the records of packages/rail/src/plan.ts hold what is paid from them, and that splits divide
-- their source.
use pnw.Base.{
  ℕ, ◌+◌, ◌≡◌, refl, subst, Bool, true, false, List, [], ◌∷◌, ◌++◌, arith, length, Bool-cases,
  Option-cases, inl, inr, All, All-append,
}
use pnw.Data.Int.{ℤ, pos, ◌+ℤ◌, ◌-ℤ◌, ltb_ℤ, leb_ℤ, eqb_ℤ, int_laws, -ℤ_parts}
use pnw.Rail.Plan.{
  Payee, Usable, RecordRef, split, remainder_output, SplitStep, Transfer, amount_in, emptied,
  existing_ref, take_first, assign, carve, carve_all,
}
use pnw.Rail.Plan.Sums.{take_first-passes}

abbrev pub IsCovered : Transfer → Type 0
IsCovered t = leb_ℤ t.amount (amount_in t.paid_from) ≡ true

-- The two outputs of a split hold what its source holds, and the second is not empty.
pub record IsDivided (s : SplitStep) : Type 0 where
  pub sums : s.amount +ℤ s.remainder ≡ amount_in s.source
  pub rest_left : ltb_ℤ (pos 0) s.remainder ≡ true

-- Split number i, counted from `n`, has the index i.
abbrev pub AreIndexed : ℕ → List SplitStep → Type 0
AreIndexed n [] = Unit
AreIndexed n (s ∷ splits) = (s.index ≡ n) × AreIndexed (n + 1) splits

pub assign-IsCovered :
    (fits : Payee → Usable → Bool) (queue : List Payee) (free : List Usable)
    → ((p : Payee) (r : Usable) → fits p r ≡ true → leb_ℤ p.amount r.amount ≡ true)
    → All IsCovered (assign fits queue free).2
assign-IsCovered fits [] free h = tt
assign-IsCovered fits (p ∷ queue) free h = elim (Option-cases (take_first (fits p) free)) [
  | inl waits ↦ rw (waits, assign) (assign-IsCovered fits queue free h)
  | inr ((r, rest), taken) ↦
      rw (taken, assign)
        (h p r (take_first-passes (fits p) free r rest taken), assign-IsCovered fits queue rest h)
]

minus-positive : (a p : ℤ) → ltb_ℤ a p ≡ false → eqb_ℤ p a ≡ false → ltb_ℤ (pos 0) (a -ℤ p) ≡ true
minus-positive a p h k = ground (arith, -ℤ_parts a p)

pub minus-nonneg : (a p : ℤ) → ltb_ℤ a p ≡ false → leb_ℤ (pos 0) (a -ℤ p) ≡ true
minus-nonneg a p h = ground (arith, -ℤ_parts a p)

pub record AreGood (n : ℕ) (splits : List SplitStep) (made : List Transfer) : Type 0 where
  pub covered : All IsCovered made
  pub divided : All IsDivided splits
  pub indexed : AreIndexed n splits

pub carve-AreGood :
    (n : ℕ) (current : RecordRef) (remaining : List Payee)
    → AreGood n (carve n current remaining).1 (carve n current remaining).2
carve-AreGood n current [] = record { covered = tt; divided = tt; indexed = tt }
carve-AreGood n current (p ∷ remaining) = elim (Bool-cases (ltb_ℤ (amount_in current) p.amount)) [
  | inl large ↦ rw (large, carve) (carve-AreGood n current remaining)
  | inr fits ↦ elim (Bool-cases (eqb_ℤ p.amount (amount_in current))) [
    | inl exact ↦
        let rest = carve-AreGood n (emptied current) remaining in
        rw (fits, exact, carve)
          record {
            covered = (ground arith, rest.covered);
            divided = rest.divided;
            indexed = rest.indexed;
          }
    | inr part ↦
        let left = amount_in current -ℤ p.amount in
        let rest = carve-AreGood (n + 1) (split n remainder_output left) remaining in
        rw (fits, part, carve)
          record {
            covered = (ground arith, rest.covered);
            divided = (
              record { sums = omega int_laws; rest_left = minus-positive _ _ fits part },
              rest.divided,
            );
            indexed = (refl, rest.indexed);
          }
  ]
]

AreIndexed-append :
    (n : ℕ) (s t : List SplitStep)
    → AreIndexed n s
    → AreIndexed (n + length s) t
    → AreIndexed n (s ++ t)
AreIndexed-append n [] t h k =
    let same : n + 0 ≡ n = omega arith in subst (λ m. AreIndexed m t) same k
AreIndexed-append n (x ∷ s) t h k =
    let same : n + length (x ∷ s) ≡ n + 1 + length s = omega arith in
    (h.0, AreIndexed-append (n + 1) s t h.1 (subst (λ m. AreIndexed m t) same k))

pub carve_all-AreGood :
    (n : ℕ) (sources : List Usable) (remaining : List Payee)
    → AreGood n (carve_all n sources remaining).1 (carve_all n sources remaining).2
carve_all-AreGood n sources [] = record { covered = tt; divided = tt; indexed = tt }
carve_all-AreGood n [] (p ∷ remaining) = record { covered = tt; divided = tt; indexed = tt }
carve_all-AreGood n (r ∷ sources) (p ∷ remaining) =
    let c = carve n (existing_ref r) (p ∷ remaining) in
    let one = carve-AreGood n (existing_ref r) (p ∷ remaining) in
    let others = carve_all-AreGood (n + length c.1) sources c.0 in
    record {
      covered = All-append IsCovered c.2 _ one.covered others.covered;
      divided = All-append IsDivided c.1 _ one.divided others.divided;
      indexed = AreIndexed-append n c.1 _ one.indexed others.indexed;
    }

-- ===== src/Rail/Plan/Spending.antt =====
-- What the splits of packages/rail/src/plan.ts spend and make: a source is used whole, by splits and
-- transfers, down to one remainder at most.
use pnw.Base.{
  ℕ, ◌+◌, ◌≡◌, refl, ap, ◌∙◌, true, List, [], ◌∷◌, ◌++◌, map, length, Bool-cases, inl, inr, All,
}
use pnw.Data.Int.{ℤ, pos, ◌+ℤ◌, ◌-ℤ◌, ltb_ℤ, eqb_ℤ, int_laws, parts_eq}
use pnw.Data.Sort.{total, total-append}
use pnw.Rail.Plan.{
  Payee, Usable, RecordRef, existing, split, remainder_output, SplitStep, Transfer, amount_in,
  emptied, existing_ref, carve, carve_all,
}
use pnw.Rail.Plan.Sums.{outputs}

abbrev pub Positive : List Payee → Type 0
Positive = All (λ p. ltb_ℤ (pos 0) p.amount ≡ true)

-- From an emptied record nothing more is carved.
pub carve_empty :
    (n : ℕ) (current : RecordRef) (remaining : List Payee)
    → amount_in current ≡ pos 0
    → Positive remaining
    → carve n current remaining ≡ (remaining, [], [])
carve_empty n current [] e h = refl
carve_empty n current (p ∷ remaining) e h =
    let large : ltb_ℤ (amount_in current) p.amount ≡ true = rw e h.0 in
    rw (large, carve) (ap (λ r. (p ∷ r.0, r.1, r.2)) (carve_empty n current remaining e h.1))

pub amount_in-emptied : (r : RecordRef) → amount_in (emptied r) ≡ pos 0
amount_in-emptied (existing plaintext amount) = refl
amount_in-emptied (split index output amount) = refl

-- Who waits after a source has been carved is still owed something.
pub carve-Positive :
    (n : ℕ) (current : RecordRef) (remaining : List Payee)
    → Positive remaining
    → Positive (carve n current remaining).0
carve-Positive n current [] h = tt
carve-Positive n current (p ∷ remaining) h =
    elim (Bool-cases (ltb_ℤ (amount_in current) p.amount)) [
      | inl large ↦ rw (large, carve) (h.0, carve-Positive n current remaining h.1)
      | inr fits ↦ elim (Bool-cases (eqb_ℤ p.amount (amount_in current))) [
        | inl exact ↦ rw (fits, exact, carve) (carve-Positive n (emptied current) remaining h.1)
        | inr part ↦
            rw (fits, part, carve)
              (carve-Positive (n + 1) (split n remainder_output (amount_in current -ℤ p.amount))
                remaining h.1)
      ]
    ]

-- The records that a pass of splits uses up, by weight.
abbrev pub spent : (RecordRef → ℤ) → List SplitStep → List Transfer → ℤ
spent w splits made = total (λ s. w s.source) splits +ℤ total (λ t. w t.paid_from) made

-- Whatever a record weighs: what splits and transfers use up, with what is left over, weighs as much
-- as what there was and what the splits make.
abbrev pub Balances : List RecordRef → List RecordRef → List SplitStep → List Transfer → Type 0
Balances before left splits made =
    (w : RecordRef → ℤ)
    → spent w splits made +ℤ total w left ≡ total w before +ℤ total w (outputs splits)

carve-Balances :
    (n : ℕ) (current : RecordRef) (remaining : List Payee)
    → Positive remaining
    → (left : List RecordRef) × Balances
        (current ∷ [])
        left
        (carve n current remaining).1
        (carve n current remaining).2
carve-Balances n current [] h = (current ∷ [], λ w. omega int_laws)
carve-Balances n current (p ∷ remaining) h =
    elim (Bool-cases (ltb_ℤ (amount_in current) p.amount)) [
      | inl large ↦ rw (large, carve) (carve-Balances n current remaining h.1)
      | inr fits ↦ elim (Bool-cases (eqb_ℤ p.amount (amount_in current))) [
        | inl exact ↦
            rw
              (
                fits,
                exact,
                carve,
                carve_empty n (emptied current) remaining (amount_in-emptied current) h.1,
              )
              ([], λ w. omega int_laws)
        | inr part ↦
            let (left, same) =
              carve-Balances (n + 1) (split n remainder_output (amount_in current -ℤ p.amount))
                remaining h.1 in
            rw (fits, part, carve) (left, λ w. omega (int_laws, parts_eq _ _ (same w)))
      ]
    ]

outputs-append : (s t : List SplitStep) → outputs (s ++ t) ≡ outputs s ++ outputs t
outputs-append [] t = refl
outputs-append (x ∷ s) t = rw (outputs-append s t) refl

Balances-append :
    (a b left left' : List RecordRef) (s s' : List SplitStep) (m m' : List Transfer)
    → Balances a left s m
    → Balances b left' s' m'
    → Balances (a ++ b) (left ++ left') (s ++ s') (m ++ m')
Balances-append a b left left' s s' m m' h k w = omega (
  int_laws,
  parts_eq _ _ (h w),
  parts_eq _ _ (k w),
  parts_eq _ _ (total-append w a b),
  parts_eq _ _ (total-append w left left'),
  parts_eq _ _ (total-append (λ s. w s.source) s s'),
  parts_eq _ _ (total-append (λ t. w t.paid_from) m m'),
  parts_eq _ _ (ap (total w) (outputs-append s s') ∙ total-append w (outputs s) (outputs s')),
)

pub carve_all-Balances :
    (n : ℕ) (sources : List Usable) (remaining : List Payee)
    → Positive remaining
    → (left : List RecordRef) × Balances
        (map existing_ref sources)
        left
        (carve_all n sources remaining).1
        (carve_all n sources remaining).2
carve_all-Balances n sources [] h = (map existing_ref sources, λ w. omega int_laws)
carve_all-Balances n [] (p ∷ remaining) h = ([], λ w. omega int_laws)
carve_all-Balances n (r ∷ sources) (p ∷ remaining) h =
    let c = carve n (existing_ref r) (p ∷ remaining) in
    let (left, one) = carve-Balances n (existing_ref r) (p ∷ remaining) h in
    let (left', others) =
      carve_all-Balances (n + length c.1) sources c.0
        (carve-Positive n (existing_ref r) (p ∷ remaining) h) in
    (
      left ++ left',
      Balances-append (existing_ref r ∷ []) (map existing_ref sources) left left' c.1 _ c.2 _ one
          others,
    )

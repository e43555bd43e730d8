-- ===== src/Ledger/Books/Chart/Fuel.antt =====
-- The fuel of the walks in packages/ledger/src/accounts.ts: two more steps than there are accounts.
use pnw.Base.{
  ℕ, zero, suc, ◌+◌, ◌<◌, ◌≤◌, ◌≡◌, refl, sym, ◌∙◌, subst, ap, inl, inr, true, not, Option, none,
  some, List, [], ◌∷◌, arith, Option-cases, Bool-cases, length, map, any, select, ◌==◌, leb,
}
use pnw.Data.Result.{ok, err, ◌>>=◌, >>=-eq-ok, ok-injective}
use pnw.Data.Text.{Text, text_eq, text_eq_iff, truthy}
use pnw.Data.Dict.{Dict, lookup}
use pnw.Ledger.Errors.{endless_walk}
use pnw.Ledger.Accounts.{Account, parent_of, depth_of, check_not_under}
use pnw.Ledger.Books.Chart.Ends.{Ends, truthy-again}

-- Taking out a number that is there makes a list shorter.
length-select : (j : ℕ) (ys : List ℕ) → length (select (λ y. not (y == j)) ys) ≤ length ys
length-select j [] = omega arith
length-select j (y ∷ ys) = ground (arith, length-select j ys)

length-select-there :
    (j : ℕ) (ys : List ℕ)
    → any (λ y. y == j) ys ≡ true
    → suc (length (select (λ y. not (y == j)) ys)) ≤ length ys
length-select-there j [] h = absurd (cc)
length-select-there j (y ∷ ys) h = elim (Bool-cases (y == j)) [
  | inl hit ↦ rw hit (omega (arith, length-select j ys))
  | inr miss ↦ rw miss (omega (arith, length-select-there j ys (ground (arith, miss, h))))
]

any-select :
    (i j : ℕ) (ys : List ℕ)
    → i < j
    → any (λ y. y == i) ys ≡ true
    → any (λ y. y == i) (select (λ y. not (y == j)) ys) ≡ true
any-select i j [] lt h = absurd (cc)
any-select i j (y ∷ ys) lt h = ground (arith, any-select i j ys lt)

-- A list that has each of the numbers below `n`, counted from 2, has that many members.
pub covers-length :
    (n : ℕ) (ys : List ℕ) → ((j : ℕ) → j < n → any (λ y. y == j + 2) ys ≡ true) → n ≤ length ys
covers-length zero ys h = omega arith
covers-length (suc n) ys h = omega (
  arith,
  covers-length n (select (λ y. not (y == n + 2)) ys)
      (λ j lt. any-select (j + 2) (n + 2) ys (omega arith) (h j (omega arith))),
  length-select-there (n + 2) ys (h n (omega arith)),
)

-- A walk needs one step more than it has accounts.
pub depth_of-exact :
    (fuel : ℕ) (d : Dict Account) (cur : Option Text) (depth : ℕ)
    → depth_of fuel d cur ≡ ok depth
    → (more : ℕ) → depth < more
    → depth_of more d cur ≡ ok depth
unfolding depth_of
depth_of-exact zero d cur depth h more lt = absurd (cc)
depth_of-exact (suc fuel) d cur depth h zero lt = absurd (omega arith)
depth_of-exact (suc fuel) d cur depth h (suc more) lt = elim (Option-cases (truthy cur)) [
  | inl top ↦ rw (top, depth_of) (ground arith)
  | inr (c, e) ↦
      let step : (depth_of fuel d (parent_of d c) >>= λ depth. ok (depth + 1)) ≡ ok depth =
        ground arith in
      let (above, found, done) = >>=-eq-ok (depth_of fuel d (parent_of d c)) _ step in
      let counted : above + 1 ≡ depth = ok-injective _ _ done in
      rw (e, depth_of)
        (rw (depth_of-exact fuel d (parent_of d c) above found more (omega arith)) done)
]

depth_of_unique :
    (m n : ℕ) (d : Dict Account) (cur : Option Text) (j k : ℕ)
    → depth_of m d cur ≡ ok j
    → depth_of n d cur ≡ ok k
    → j ≡ k
depth_of_unique m n d cur j k h i = ok-injective j k (
    sym (depth_of-exact m d cur j h (j + k + 1) (omega arith))
    ∙ depth_of-exact n d cur k i (j + k + 1) (omega arith))

any-key :
    (δ : Text → ℕ) (c : Text) (d : Dict Account) (a : Account)
    → lookup c d ≡ some a
    → any (λ y. y == δ c) (map (λ (j, _). δ j) d) ≡ true
unfolding lookup
any-key δ c [] a h = absurd (cc)
any-key δ c ((j, b) ∷ d) a h = elim (Bool-cases (text_eq j c)) [
  | inl hit ↦ let same : δ j ≡ δ c = ap δ ((text_eq_iff j c).0 hit) in ground (arith, same)
  | inr miss ↦ ground (arith, any-key δ c d a (ground arith))
]

depth_of-truthy :
    (fuel : ℕ) (d : Dict Account) (cur cur' : Option Text)
    → truthy cur' ≡ truthy cur
    → depth_of fuel d cur' ≡ depth_of fuel d cur
unfolding depth_of
depth_of-truthy zero d cur cur' e = refl
depth_of-truthy (suc fuel) d cur cur' e = rw (e, depth_of) refl

at_top : (d : Dict Account) (cur : Option Text) → truthy cur ≡ none → depth_of 1 d cur ≡ ok 0
unfolding depth_of
at_top d cur top = rw (top, depth_of) refl

length-map : (δ : Text → ℕ) (d : Dict Account) → length (map (λ (j, _). δ j) d) ≡ length d
length-map δ [] = refl
length-map δ ((j, a) ∷ d) = ap suc (length-map δ d)

module _ (d : Dict Account) (ends : (cur : Option Text) → Ends d cur) where
  abbrev depth_at : Text → ℕ
  depth_at c = (ends (some c)).1

  depths : List ℕ
  depths = map (λ (j, _). depth_at j) d

  -- An account that is not on the walk's last place stands in the map.
  inner-depth :
      (fuel : ℕ) (c : Text) (above : ℕ)
      → truthy (some c) ≡ some c
      → depth_of fuel d (parent_of d c) ≡ ok above
      → 1 ≤ above
      → any (λ y. y == above + 1) depths ≡ true
  unfolding depth_of depths
  inner-depth fuel c above solid found lo = elim (Option-cases (lookup c d)) [
    | inl absent ↦
        let top : truthy (parent_of d c) ≡ none = rw (absent, parent_of) refl in
        let zero_above = depth_of_unique fuel 1 d (parent_of d c) above 0 found (at_top d _ top) in
        absurd (omega (arith, zero_above))
    | inr (a, present) ↦
        let whole : depth_of (suc fuel) d (some c) ≡ ok (above + 1) =
          rw (solid, depth_of) (rw found refl) in
        let (n, k, own) = ends (some c) in
        let same = depth_of_unique n (suc fuel) d (some c) k (above + 1) own whole in
        subst (λ k. any (λ y. y == k) depths ≡ true) same (any-key depth_at c d a present)
  ]

  walk-depths :
      (fuel : ℕ) (cur : Option Text) (depth : ℕ)
      → depth_of fuel d cur ≡ ok depth
      → (j : ℕ) → j + 2 ≤ depth
      → any (λ y. y == j + 2) depths ≡ true
  unfolding depth_of
  walk-depths zero cur depth h j le = absurd (cc)
  walk-depths (suc fuel) cur depth h j le = elim (Option-cases (truthy cur)) [
    | inl top ↦
        absurd (omega (arith, depth_of_unique (suc fuel) 1 d cur depth 0 h (at_top d cur top)))
    | inr (c, e) ↦
        let step : (depth_of fuel d (parent_of d c) >>= λ depth. ok (depth + 1)) ≡ ok depth =
          ground arith in
        let (above, found, done) = >>=-eq-ok (depth_of fuel d (parent_of d c)) _ step in
        let counted : above + 1 ≡ depth = ok-injective _ _ done in
        elim (Bool-cases (leb (j + 2) above)) [
          | inl lower ↦ walk-depths fuel (parent_of d c) above found j (ground arith)
          | inr last ↦
              let here : above + 1 ≡ j + 2 = ground arith in
              subst (λ k. any (λ y. y == k) depths ≡ true) here
                (inner-depth fuel c above (truthy-again cur c e) found (omega arith))
        ]
  ]

  depth-bound :
      (fuel : ℕ) (cur : Option Text) (depth : ℕ)
      → depth_of fuel d cur ≡ ok depth
      → depth ≤ length d + 1
  unfolding depths
  depth-bound fuel cur zero h = omega arith
  depth-bound fuel cur (suc m) h = omega (
    arith,
    length-map depth_at d,
    covers-length m depths (λ j lt. walk-depths fuel cur (suc m) h j (omega arith)),
  )

  -- Two more steps than there are accounts are enough for the walk.
  pub enough_fuel : (cur : Option Text) → (depth : ℕ) × (depth_of (length d + 2) d cur ≡ ok depth)
  enough_fuel cur =
      let (fuel, depth, found) = ends cur in
      (
        depth,
        depth_of-exact fuel d cur depth found (length d + 2)
            (omega (arith, depth-bound fuel cur depth found)),
      )

-- The cycle check goes no further than the walk.
pub check_not_under-endless :
    (fuel : ℕ) (d : Dict Account) (id : Text) (cur : Option Text)
    → check_not_under fuel d id cur ≡ err endless_walk
    → depth_of fuel d cur ≡ err endless_walk
unfolding check_not_under depth_of
check_not_under-endless zero d id cur h = refl
check_not_under-endless (suc fuel) d id cur h = elim (Option-cases (truthy cur)) [
  | inl top ↦ absurd (ground arith)
  | inr (c, e) ↦ elim (Bool-cases (text_eq c id)) [
    | inl hit ↦ absurd (ground arith)
    | inr miss ↦
        rw (e, depth_of)
          (rw (check_not_under-endless fuel d id (parent_of d c) (ground arith)) refl)
  ]
]

-- ===== src/Ledger/Books/Chart/Ends.antt =====
-- The walks up the parents of an account, of `depthOf` and of the cycle check of `validateAccount`
-- (packages/ledger/src/accounts.ts), where one account gets another parent.
use pnw.Base.{
  ℕ, zero, suc, ◌+◌, ◌≡◌, refl, sym, ◌∙◌, subst, ◌⊎◌, inl, inr, false, Option, none, some, [], ◌∷◌,
  arith, Option-cases, Bool-cases, length,
}
use pnw.Data.Result.{ok, ◌>>=◌, >>=-eq-ok}
use pnw.Data.Text.{Text, text_eq, text_eq_iff, truthy}
use pnw.Data.Dict.{Dict, lookup}
use pnw.Ledger.Accounts.{Account, parent_of, depth_of, check_not_under, validate_account}

-- With enough fuel the walk comes to the top, and counts the accounts on its way.
abbrev pub Ends : Dict Account → Option Text → Type 0
Ends d cur = (fuel : ℕ) × (depth : ℕ) × (depth_of fuel d cur ≡ ok depth)

pub top-Ends : (d : Dict Account) (cur : Option Text) → truthy cur ≡ none → Ends d cur
unfolding depth_of
top-Ends d cur e = (1, 0, rw (e, depth_of) refl)

pub above-Ends :
    (d : Dict Account) (cur : Option Text) (c : Text)
    → truthy cur ≡ some c
    → Ends d (parent_of d c)
    → Ends d cur
unfolding depth_of
above-Ends d cur c e (fuel, depth, h) = (suc fuel, depth + 1, rw (e, depth_of) (rw h refl))

-- `d'` has the parents of `d`, but for the account `id`.
abbrev pub AreKept : Dict Account → Dict Account → Text → Type 0
AreKept d d' id = (c : Text) → text_eq c id ≡ false → parent_of d' c ≡ parent_of d c

-- A walk that the cycle check has passed goes the same way.
checked-Ends :
    (fuel : ℕ) (d d' : Dict Account) (id : Text) (cur : Option Text)
    → AreKept d d' id
    → check_not_under fuel d id cur ≡ ok tt
    → Ends d' cur
unfolding check_not_under
checked-Ends zero d d' id cur kept h = absurd (cc)
checked-Ends (suc fuel) d d' id cur kept h = elim (Option-cases (truthy cur)) [
  | inl top ↦ top-Ends d' cur top
  | inr (c, e) ↦ elim (Bool-cases (text_eq c id)) [
    | inl hit ↦ absurd (ground arith)
    | inr miss ↦ above-Ends d' cur c e (
        subst (Ends d') (sym (kept c miss))
          (checked-Ends fuel d d' id (parent_of d c) kept (ground arith)))
  ]
]

-- Where the account's own walk ends, so does every walk that ended before.
kept-Ends :
    (fuel : ℕ) (d d' : Dict Account) (id : Text) (cur : Option Text) (depth : ℕ)
    → AreKept d d' id
    → Ends d' (parent_of d' id)
    → depth_of fuel d cur ≡ ok depth
    → Ends d' cur
unfolding depth_of
kept-Ends zero d d' id cur depth kept own h = absurd (cc)
kept-Ends (suc fuel) d d' id cur depth kept own h = elim (Option-cases (truthy cur)) [
  | inl top ↦ top-Ends d' cur top
  | inr (c, e) ↦
      let step : (depth_of fuel d (parent_of d c) >>= λ depth. ok (depth + 1)) ≡ ok depth =
        ground arith in
      let (above, found, _) = >>=-eq-ok (depth_of fuel d (parent_of d c)) _ step in
      elim (Bool-cases (text_eq c id)) [
        | inl hit ↦
            above-Ends d' cur c e
              (subst (λ c. Ends d' (parent_of d' c)) (sym ((text_eq_iff c id).0 hit)) own)
        | inr miss ↦ above-Ends d' cur c e (
            subst (Ends d') (sym (kept c miss))
              (kept-Ends fuel d d' id (parent_of d c) above kept own found))
      ]
]

pub truthy-again : (cur : Option Text) (p : Text) → truthy cur ≡ some p → truthy (some p) ≡ some p
truthy-again none p e = absurd (cc)
truthy-again (some []) p e = absurd (cc)
truthy-again (some (c ∷ s)) p e = cc

-- The walk depends on the first account alone.
same-Ends :
    (d : Dict Account) (cur cur' : Option Text)
    → truthy cur' ≡ truthy cur
    → Ends d cur
    → Ends d cur'
unfolding depth_of
same-Ends d cur cur' e (zero, depth, h) = absurd (cc)
same-Ends d cur cur' e (suc fuel, depth, h) = (suc fuel, depth, rw (e, depth_of) h)

-- What `validateAccount` makes sure of, as to the parent.
abbrev pub IsPlaced : Dict Account → Account → Type 0
IsPlaced d a =
    (truthy a.parent_id ≡ none)
    ⊎ ((p : Text) × (parent : Account) × (fuel : ℕ) × (truthy a.parent_id ≡ some p)
        × (lookup p d ≡ some parent)
        × (check_not_under fuel d a.id (some parent.id) ≡ ok tt))

pub validate_account-IsPlaced :
    (lower_case : Text → Text) (d : Dict Account) (a : Account)
    → validate_account lower_case d a ≡ ok tt
    → IsPlaced d a
unfolding validate_account
validate_account-IsPlaced lower_case d a e = elim (Option-cases (truthy a.parent_id)) [
  | inl top ↦ inl top
  | inr (p, child) ↦ elim (Option-cases (lookup p d)) [
    | inl absent ↦ absurd (ground arith)
    | inr (parent, found) ↦ inr (p, parent, length d + 2, child, found, ground arith)
  ]
]

-- Where an account is placed under a parent that the check accepts, all walks still end.
pub IsPlaced-Ends :
    (d d' : Dict Account) (a : Account)
    → AreKept d d' a.id
    → parent_of d' a.id ≡ a.parent_id
    → ((p : Text) (parent : Account) → lookup p d ≡ some parent → parent.id ≡ p)
    → IsPlaced d a
    → ((cur : Option Text) → Ends d cur)
    → (cur : Option Text) → Ends d' cur
IsPlaced-Ends d d' a kept own ids placed h cur =
    let (fuel, depth, found) = h cur in
    kept-Ends fuel d d' a.id cur depth kept (subst (Ends d') (sym own) above) found
  where
    above : Ends d' a.parent_id
    above = elim placed [
      | inl top ↦ top-Ends d' a.parent_id top
      | inr (p, parent, fuel, child, found, checked) ↦
          same-Ends d' (some p) a.parent_id (child ∙ sym (truthy-again a.parent_id p child)) (
            subst (λ p. Ends d' (some p)) (ids p parent found)
              (checked-Ends fuel d d' a.id (some parent.id) kept checked))
    ]

pub depth_of-same :
    (fuel : ℕ) (d d' : Dict Account) (cur : Option Text)
    → ((c : Text) → parent_of d' c ≡ parent_of d c)
    → depth_of fuel d' cur ≡ depth_of fuel d cur
unfolding depth_of
depth_of-same zero d d' cur same = refl
depth_of-same (suc fuel) d d' cur same = elim (Option-cases (truthy cur)) [
  | inl top ↦ rw (top, depth_of) refl
  | inr (c, e) ↦
      rw (e, depth_of) (rw (same c) (rw (depth_of-same fuel d d' (parent_of d c) same) refl))
]

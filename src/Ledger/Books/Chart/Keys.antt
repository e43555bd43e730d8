-- ===== src/Ledger/Books/Chart/Keys.antt =====
-- The ids that the chart's map knows (`accountMap` of packages/ledger/src/books.ts).
use pnw.Base.{
  ◌≡◌, refl, ◌⊎◌, inl, inr, true, none, some, List, [], ◌∷◌, ◌++◌, foldl, any, arith, Option-cases,
  Bool-cases, ℕ, suc, ◌+◌, ◌∙◌, ap, subst, length,
}
use pnw.Data.Text.{Text, text_eq_iff}
use pnw.Data.Dict.{Dict, lookup, lookup-insert}
use pnw.Ledger.Accounts.{Account}
use pnw.Ledger.Books.State.{map_of, add_to_map}
use pnw.Ledger.Books.Chart.{has_id, replace, account_id}

lookup-nil : (k : Text) → lookup {V = Account} k [] ≡ none
unfolding lookup
lookup-nil k = refl

foldl-known :
    (k : Text) (as' : List Account) (d : Dict Account) (a : Account)
    → lookup k (foldl add_to_map d as') ≡ some a
    → (any (has_id k) as' ≡ true) ⊎ (lookup k d ≡ some a)
foldl-known k [] d a h = inr h
foldl-known k (x ∷ as') d a h =
    ground (arith, foldl-known k as' (add_to_map d x) a h, lookup-insert x.id k x d)

-- What the map finds under an id is an account of that id in the chart.
pub known-of_lookup :
    (accounts : List Account) (k : Text) (a : Account)
    → lookup k (map_of accounts) ≡ some a
    → any (has_id k) accounts ≡ true
unfolding map_of
known-of_lookup accounts k a h = ground (arith, foldl-known k accounts [] a h, lookup-nil k)

pub lookup_cases :
    (accounts : List Account) (k : Text)
    → (lookup k (map_of accounts) ≡ none) ⊎ (any (has_id k) accounts ≡ true)
lookup_cases accounts k = elim (Option-cases (lookup k (map_of accounts))) [
  | inl absent ↦ inl absent
  | inr (a, found) ↦ inr (known-of_lookup accounts k a found)
]

pub known-snoc :
    (k : Text) (as' : List Account) (a : Account)
    → any (has_id k) as' ≡ true
    → any (has_id k) (as' ++ a ∷ []) ≡ true
known-snoc k [] a h = cc
known-snoc k (x ∷ as') a h = ground (arith, known-snoc k as' a)

pub known-replace :
    (k id : Text) (f : Account → Account) (as' : List Account)
    → ((a : Account) → has_id id a ≡ true → (f a).id ≡ a.id)
    → any (has_id k) (replace id f as') ≡ any (has_id k) as'
known-replace k id f [] keep = refl
known-replace k id f (x ∷ as') keep = ground (arith, known-replace k id f as' keep, keep x)

foldl-ids :
    (k : Text) (as' : List Account) (d : Dict Account) (a : Account)
    → ((b : Account) → lookup k d ≡ some b → b.id ≡ k)
    → lookup k (foldl add_to_map d as') ≡ some a
    → a.id ≡ k
foldl-ids k [] d a keep h = keep a h
foldl-ids k (x ∷ as') d a keep h = foldl-ids k as' (add_to_map d x) a keep' h
  where
    keep' : (b : Account) → lookup k (add_to_map d x) ≡ some b → b.id ≡ k
    keep' b e = ground (arith, lookup-insert x.id k x d, text_eq_iff x.id k, keep b)

-- The map finds an account under its own id.
pub id-of_lookup :
    (accounts : List Account) (k : Text) (a : Account)
    → lookup k (map_of accounts) ≡ some a
    → a.id ≡ k
unfolding map_of
id-of_lookup accounts k a h = foldl-ids k accounts [] a (λ b e. ground (arith, lookup-nil k)) h

-- Account number i of the chart has the id `acct-i`.
abbrev pub HasIds : ℕ → List Account → Type 0
HasIds i [] = Unit
HasIds i (a ∷ as') = (a.id ≡ account_id (i + 1)) × HasIds (i + 1) as'

pub HasIds-snoc :
    (i : ℕ) (as' : List Account) (a : Account)
    → HasIds i as'
    → a.id ≡ account_id (i + length as' + 1)
    → HasIds i (as' ++ a ∷ [])
HasIds-snoc i [] a h e = (subst (λ n. a.id ≡ account_id n) (omega arith) e, tt)
HasIds-snoc i (x ∷ as') a h e =
    (h.0, HasIds-snoc (i + 1) as' a h.1 (subst (λ n. a.id ≡ account_id n) (omega arith) e))

pub HasIds-replace :
    (i : ℕ) (id : Text) (f : Account → Account) (as' : List Account)
    → ((a : Account) → has_id id a ≡ true → (f a).id ≡ a.id)
    → HasIds i as'
    → HasIds i (replace id f as')
HasIds-replace i id f [] keep h = tt
HasIds-replace i id f (x ∷ as') keep h =
    let rest = HasIds-replace (i + 1) id f as' keep h.1 in
    elim (Bool-cases (has_id id x)) [
      | inl hit ↦ rw hit (keep x hit ∙ h.0, rest)
      | inr miss ↦ rw miss (h.0, rest)
    ]

pub length-replace :
    (id : Text) (f : Account → Account) (as' : List Account)
    → length (replace id f as') ≡ length as'
length-replace id f [] = refl
length-replace id f (x ∷ as') = ap suc (length-replace id f as')

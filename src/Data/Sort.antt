-- ===== src/Data/Sort.antt =====
-- `Array.prototype.sort`, which is stable, with a comparator; and sums over lists.
use pnw.Base.{
  ap, suc, length, ◌≡◌, refl, ◌∙◌, Bool, List, [], ◌∷◌, ◌++◌, map, foldl, All, if◌then◌else◌,
  Bool-cases, inl, inr, or_else,
}
use pnw.Data.Int.{ℤ, pos, ◌+ℤ◌, int_laws, parts_eq}
use pnw.Data.Text.{Text, text_eq}
use pnw.Data.Dict.{Dict, insert, lookup}

-- `after a b` where the comparator's result on `a` and `b` is positive.
module _ {A : Type 0} (after : A → A → Bool) where
  abbrev pub place : A → List A → List A
  place x [] = x ∷ []
  place x (y ∷ ys) = let rest = place x ys in if after x y then y ∷ rest else x ∷ y ∷ ys

  unfoldable pub sort : List A → List A
  sort [] = []
  sort (x ∷ xs) = place x (sort xs)

-- The sum of a weight over a list.
abbrev pub total : {A : Type 0} → (A → ℤ) → List A → ℤ
total w [] = pos 0
total w (x ∷ xs) = w x +ℤ total w xs

-- `xs.reduce((s, x) => s + f(x), 0n)`
unfoldable pub sum_of : {A : Type 0} → (A → ℤ) → List A → ℤ
sum_of f xs = foldl (λ s x. s +ℤ f x) (pos 0) xs

pub total-append :
    {A : Type 0} (w : A → ℤ) (xs ys : List A) → total w (xs ++ ys) ≡ total w xs +ℤ total w ys
total-append w [] ys = omega int_laws
total-append w (x ∷ xs) ys = rw (total-append w xs ys) (omega int_laws)

pub total-map :
    {A B : Type 0} (w : B → ℤ) (f : A → B) (xs : List A)
    → total w (map f xs) ≡ total (λ x. w (f x)) xs
total-map w f [] = refl
total-map w f (x ∷ xs) = rw (total-map w f xs) refl

-- What a new value under a key does to a sum over the values, where a missing one weighs nothing.
pub total-insert :
    {V : Type 0} (w : V → ℤ) (missing : V) (k : Text) (v : V) (d : Dict V)
    → w missing ≡ pos 0
    → total (λ (_, v). w v) (insert k v d) +ℤ w (or_else (lookup k d) missing)
      ≡ total (λ (_, v). w v) d +ℤ w v
unfolding insert lookup
total-insert w missing k v [] h = rw h (omega int_laws)
total-insert w missing k v ((j, u) ∷ d) h = elim (Bool-cases (text_eq j k)) [
  | inl same ↦ rw same (omega int_laws)
  | inr other ↦ rw other (omega (int_laws, parts_eq _ _ (total-insert w missing k v d h)))
]

fold_total :
    {A : Type 0} (f : A → ℤ) (xs : List A) (acc : ℤ)
    → foldl (λ s x. s +ℤ f x) acc xs ≡ acc +ℤ total f xs
fold_total f [] acc = omega int_laws
fold_total f (x ∷ xs) acc = rw (fold_total f xs (acc +ℤ f x)) (omega int_laws)

pub sum_of-total : {A : Type 0} (f : A → ℤ) (xs : List A) → sum_of f xs ≡ total f xs
unfolding sum_of
sum_of-total f xs = fold_total f xs (pos 0) ∙ omega int_laws

module _ {A : Type 0} (after : A → A → Bool) where
  -- Sorting keeps every sum, so it drops nothing and repeats nothing.
  total-place : (w : A → ℤ) (x : A) (ys : List A) → total w (place after x ys) ≡ w x +ℤ total w ys
  total-place w x [] = refl
  total-place w x (y ∷ ys) = elim (Bool-cases (after x y)) [
    | inl later ↦ rw later (rw (total-place w x ys) (omega int_laws))
    | inr here ↦ rw here refl
  ]

  pub total-sort : (w : A → ℤ) (xs : List A) → total w (sort after xs) ≡ total w xs
  unfolding sort
  total-sort w [] = refl
  total-sort w (x ∷ xs) = total-place w x (sort after xs) ∙ rw (total-sort w xs) refl

  All-place : (P : A → Type 0) (x : A) (ys : List A) → P x → All P ys → All P (place after x ys)
  All-place P x [] p h = (p, tt)
  All-place P x (y ∷ ys) p h = elim (Bool-cases (after x y)) [
    | inl later ↦ rw later (h.0, All-place P x ys p h.1)
    | inr here ↦ rw here (p, h)
  ]

  pub All-sort : (P : A → Type 0) (xs : List A) → All P xs → All P (sort after xs)
  unfolding sort
  All-sort P [] h = tt
  All-sort P (x ∷ xs) h = All-place P x (sort after xs) h.0 (All-sort P xs h.1)

  length-place : (x : A) (ys : List A) → length (place after x ys) ≡ suc (length ys)
  length-place x [] = refl
  length-place x (y ∷ ys) = elim (Bool-cases (after x y)) [
    | inl later ↦ rw later (ap suc (length-place x ys))
    | inr here ↦ rw here refl
  ]

  pub length-sort : (xs : List A) → length (sort after xs) ≡ length xs
  unfolding sort
  length-sort [] = refl
  length-sort (x ∷ xs) = length-place x (sort after xs) ∙ ap suc (length-sort xs)

-- ===== src/Data/Text/Order.antt =====
-- `a < b` of two strings: by code units from the left, a proper prefix first.
use pnw.Base.{
  ℕ, ◌≡◌, refl, ◌⊎◌, Bool, true, false, not, List, [], ◌∷◌, arith, ltb, ◌==◌, if◌then◌else◌,
}

unfoldable pub text_lt : List ℕ → List ℕ → Bool
text_lt [] [] = false
text_lt [] (b ∷ bs) = true
text_lt (a ∷ as') [] = false
text_lt (a ∷ as') (b ∷ bs) = if ltb a b then true else if a == b then text_lt as' bs else false

-- `a <= b`
abbrev pub text_le : List ℕ → List ℕ → Bool
text_le a b = not (text_lt b a)

pub text_lt_irrefl : (a : List ℕ) → text_lt a a ≡ false
unfolding text_lt
text_lt_irrefl [] = refl
text_lt_irrefl (x ∷ a) = ground (arith, text_lt_irrefl a)

pub text_lt_trans : (a b c : List ℕ) → text_lt a b ≡ true → text_lt b c ≡ true → text_lt a c ≡ true
unfolding text_lt
text_lt_trans [] [] c p q = cc
text_lt_trans [] (y ∷ b) [] p q = cc
text_lt_trans [] (y ∷ b) (z ∷ c) p q = refl
text_lt_trans (x ∷ a) [] c p q = cc
text_lt_trans (x ∷ a) (y ∷ b) [] p q = cc
text_lt_trans (x ∷ a) (y ∷ b) (z ∷ c) p q = ground (arith, text_lt_trans a b c)

pub text_lt_total : (a b : List ℕ) → (text_lt a b ≡ true) ⊎ ((a ≡ b) ⊎ (text_lt b a ≡ true))
unfolding text_lt
text_lt_total [] [] = ground arith
text_lt_total [] (y ∷ b) = ground arith
text_lt_total (x ∷ a) [] = ground arith
text_lt_total (x ∷ a) (y ∷ b) = ground (arith, text_lt_total a b)

pub text_lt→le : (a b : List ℕ) → text_lt a b ≡ true → text_le a b ≡ true
text_lt→le a b p = ground (arith, text_lt_trans a b a, text_lt_irrefl a)

pub text_le_refl : (a : List ℕ) → text_le a a ≡ true
text_le_refl a = ground (arith, text_lt_irrefl a)

pub text_le_trans : (a b c : List ℕ) → text_le a b ≡ true → text_le b c ≡ true → text_le a c ≡ true
text_le_trans a b c p q =
    ground (arith, text_lt_total a b, text_lt_total b c, text_lt_trans c a b, text_lt_trans b c a)

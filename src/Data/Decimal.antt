-- ===== src/Data/Decimal.antt =====
-- Decimal numerals: `String(n)` of a natural number, `Number(s)` of a run of digits, `padStart`.
use pnw.Base.{
  ℕ, zero, suc, ◌+◌, ◌-◌, ◌*◌, ◌/◌, ◌%◌, ◌<◌, ◌≤◌, ◌≡◌, refl, ◌≢◌, ap, ◌∙◌, sym, true, [], ◌∷◌,
  ◌++◌, arith, ltb, if◌then◌else◌, Bool-cases, inl, inr, All, All-snoc,
}
use mathlib.Core.List.{cons≢nil}
use pnw.Data.Text.{Text, is_digit}

abbrev pub digit : ℕ → ℕ
digit n = b'0' + n

-- One digit for each round; a number has fewer digits than its value plus one.
show_fuel : ℕ → ℕ → Text
show_fuel zero n = []
show_fuel (suc f) n =
    let high = show_fuel f (n / 10) in
    if ltb n 10 then digit n ∷ [] else high ++ digit (n % 10) ∷ []

-- `String(n)`
unfoldable pub show : ℕ → Text
unfolding show_fuel
show n = show_fuel (suc n) n

-- `Number(s)` of a text of digits.
read_from : ℕ → Text → ℕ
read_from acc [] = acc
read_from acc (c ∷ s) = read_from (acc * 10 + (c - b'0')) s

unfoldable pub read : Text → ℕ
unfolding read_from
read s = read_from 0 s

-- `s.padStart(2, "0")`
unfoldable pub pad_start2 : Text → Text
pad_start2 [] = b'0' ∷ b'0' ∷ []
pad_start2 (c ∷ []) = b'0' ∷ c ∷ []
pad_start2 (c ∷ d ∷ s) = c ∷ d ∷ s

read_from-append : (acc : ℕ) (s t : Text) → read_from acc (s ++ t) ≡ read_from (read_from acc s) t
unfolding read_from
read_from-append acc [] t = refl
read_from-append acc (c ∷ s) t = read_from-append (acc * 10 + (c - b'0')) s t

-- Enough fuel: more rounds than the value gives the same digits, and they read back.
read-show_fuel : (f n : ℕ) → n < f → read (show_fuel f n) ≡ n
unfolding show_fuel read
read-show_fuel zero n h = elim h [ ]
read-show_fuel (suc f) n h = elim (Bool-cases (ltb n 10)) [
  | inl small ↦ rw small (omega arith)
  | inr big ↦ rw big (
      rw (read_from-append 0 (show_fuel f (n / 10)) (digit (n % 10) ∷ []))
        (rw (read-show_fuel f (n / 10) (ground arith)) (omega arith)))
]

pub read-show : (n : ℕ) → read (show n) ≡ n
unfolding show
read-show n = read-show_fuel (suc n) n (omega arith)

-- Two numbers with the same numeral are the same.
pub show-injective : (m n : ℕ) → show m ≡ show n → m ≡ n
show-injective m n e = sym (read-show m) ∙ ap read e ∙ read-show n

show_example : show 20260 ≡ b'2' ∷ b'0' ∷ b'2' ∷ b'6' ∷ b'0' ∷ []
unfolding show
show_example = refl

-- The fuel does not matter where there is enough.
show_fuel-same : (f g n : ℕ) → n < f → n < g → show_fuel f n ≡ show_fuel g n
unfolding show_fuel
show_fuel-same zero g n p q = elim p [ ]
show_fuel-same (suc f) zero n p q = elim q [ ]
show_fuel-same (suc f) (suc g) n p q = elim (Bool-cases (ltb n 10)) [
  | inl small ↦ rw small refl
  | inr big ↦ rw big (rw (show_fuel-same f g (n / 10) (ground arith) (ground arith)) refl)
]

-- `String(n)` by its last digit.
pub show-step :
    (n : ℕ) → show n ≡ (if ltb n 10 then digit n ∷ [] else show (n / 10) ++ digit (n % 10) ∷ [])
unfolding show show_fuel
show-step n = elim (Bool-cases (ltb n 10)) [
  | inl small ↦ rw small refl
  | inr big ↦
      rw big (rw (show_fuel-same n (suc (n / 10)) (n / 10) (ground arith) (omega arith)) refl)
]

pub show_small : (n : ℕ) → n < 10 → show n ≡ digit n ∷ []
show_small n h = rw (show-step n) (ground arith)

pub show_more : (n : ℕ) → 10 ≤ n → show n ≡ show (n / 10) ++ digit (n % 10) ∷ []
show_more n h = rw (show-step n) (ground arith)

pub pad-show : (n : ℕ) → n < 100 → pad_start2 (show n) ≡ digit (n / 10) ∷ digit (n % 10) ∷ []
unfolding pad_start2
pad-show n h = elim (Bool-cases (ltb n 10)) [
  | inl small ↦ rw (show_small n (ground arith)) (ground arith)
  | inr big ↦ rw (show_more n (ground arith)) (rw (show_small (n / 10) (omega arith)) refl)
]

pub show_four :
    (n : ℕ)
    → 1000 ≤ n
    → n < 10000
    → show n ≡ digit (n / 1000) ∷ digit (n / 100 % 10) ∷ digit (n / 10 % 10) ∷ digit (n % 10) ∷ []
show_four n lo hi = rw (show_more n (omega arith)) (
    rw (show_more (n / 10) (omega arith)) (
      rw (show_more (n / 10 / 10) (omega arith))
        (rw (show_small (n / 10 / 10 / 10) (omega arith)) (ground arith))))

pub read_two : (a b : ℕ) → read (a ∷ b ∷ []) ≡ (a - 48) * 10 + (b - 48)
unfolding read read_from
read_two a b = omega arith

pub read_four :
    (a b c d : ℕ)
    → read (a ∷ b ∷ c ∷ d ∷ []) ≡ (a - 48) * 1000 + (b - 48) * 100 + (c - 48) * 10 + (d - 48)
unfolding read read_from
read_four a b c d = omega arith

last_digit : (n : ℕ) → is_digit (digit (n % 10)) ≡ true
last_digit n = ground arith

show_fuel-digits : (f n : ℕ) → All (λ c. is_digit c ≡ true) (show_fuel f n)
unfolding show_fuel
show_fuel-digits zero n = tt
show_fuel-digits (suc f) n = elim (Bool-cases (ltb n 10)) [
  | inl small ↦ rw small (ground arith, tt)
  | inr big ↦ rw big (
      All-snoc (λ c. is_digit c ≡ true) (show_fuel f (n / 10)) (digit (n % 10))
        (show_fuel-digits f (n / 10)) (last_digit n))
]

snoc-ne-nil : (s : Text) (c : ℕ) → s ++ c ∷ [] ≢ []
snoc-ne-nil [] c e = cons≢nil e
snoc-ne-nil (d ∷ s) c e = cons≢nil e

pub show_digits : (n : ℕ) → All (λ c. is_digit c ≡ true) (show n)
unfolding show
show_digits n = show_fuel-digits (suc n) n

pub show_nonempty : (n : ℕ) → show n ≢ []
show_nonempty n e = elim (Bool-cases (ltb n 10)) [
  | inl small ↦ cons≢nil (sym (show_small n (ground arith)) ∙ e)
  | inr big ↦ snoc-ne-nil (show (n / 10)) (digit (n % 10)) (sym (show_more n (ground arith)) ∙ e)
]

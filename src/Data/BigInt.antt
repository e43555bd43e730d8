-- ===== src/Data/BigInt.antt =====
-- JavaScript's `BigInt(text)` and `toString` of a bigint.
use pnw.Base.{
  ℕ, suc, ◌+◌, ◌-◌, ◌*◌, ◌&&◌, ◌||◌, Option, none, some, [], ◌∷◌, all, leb, ltb, ◌==◌, foldl,
  if◌then◌else◌,
}
use pnw.Data.Int.{ℤ, pos, negsuc, neg}
use pnw.Data.Text.{Text, trim}
use pnw.Data.Decimal.{show}

-- The value of a letter or digit in a base above ten; 99 for other units.
abbrev pub digit_value : ℕ → ℕ
digit_value c =
    if leb b'0' c && leb c b'9'
    then c - b'0'
    else if leb b'a' c && leb c b'f'
    then c - b'a' + 10
    else if leb b'A' c && leb c b'F'
    then c - b'A' + 10
    else 99

abbrev pub in_base : ℕ → Text → Option ℤ
in_base base [] = none
in_base base (c ∷ s) =
    if all (λ c. ltb (digit_value c) base) (c ∷ s)
    then some (pos (foldl (λ n c. n * base + digit_value c) 0 (c ∷ s)))
    else none

abbrev pub with_sign : (ℤ → ℤ) → Text → Option ℤ
with_sign f s = elim (in_base 10 s) [ none ↦ none | some n ↦ some (f n) ]

-- A text after its white space: empty, a prefix and digits of its base, or decimal digits with a sign.
abbrev pub big_int_of : Text → Option ℤ
big_int_of [] = some (pos 0)
big_int_of (c ∷ []) = in_base 10 (c ∷ [])
big_int_of (c ∷ d ∷ s) =
    if (c == b'0') && ((d == b'x') || (d == b'X'))
    then in_base 16 s
    else if (c == b'0') && ((d == b'o') || (d == b'O'))
    then in_base 8 s
    else if (c == b'0') && ((d == b'b') || (d == b'B'))
    then in_base 2 s
    else if c == b'-'
    then with_sign neg (d ∷ s)
    else if c == b'+'
    then with_sign (λ n. n) (d ∷ s)
    else in_base 10 (c ∷ d ∷ s)

-- `BigInt(text)`; where it throws, there is no value.
unfoldable pub big_int : Text → Option ℤ
big_int text = big_int_of (trim text)

abbrev pub show_ℤ : ℤ → Text
show_ℤ (pos n) = show n
show_ℤ (negsuc n) = b'-' ∷ show (suc n)

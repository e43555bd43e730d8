-- ===== src/Data/Text.antt =====
-- JavaScript strings as lists of UTF-16 code units, with the operations that the code uses.
pub mod Order
pub mod Trim
use Prim.Native.Char.{code}
use Prim.Native.String.{String}
use pnw.Base.{
  ℕ, ◌≡◌, refl, ◌↔◌, Bool, true, false, not, ◌&&◌, ◌||◌, Option, none, some, List, [], ◌∷◌, ◌++◌,
  arith, leb, ltb, ◌==◌, ==_iff, if◌then◌else◌, all, reverse, Bool-cases, ◌⊎◌, inl, inr,
}

abbrev pub Text : Type 0
Text = List ℕ

-- A literal of ASCII characters.
abbrev pub codes : String → Text
codes String.[] = []
codes (String.◌∷◌ c s) = code c ∷ codes s

-- `a === b`
unfoldable pub text_eq : Text → Text → Bool
text_eq [] [] = true
text_eq [] (b ∷ bs) = false
text_eq (a ∷ as') [] = false
text_eq (a ∷ as') (b ∷ bs) = a == b && text_eq as' bs

pub text_eq_iff : (a b : Text) → (text_eq a b ≡ true) ↔ (a ≡ b)
unfolding text_eq
text_eq_iff [] [] = ground arith
text_eq_iff [] (b ∷ bs) = ground arith
text_eq_iff (a ∷ as') [] = ground arith
text_eq_iff (a ∷ as') (b ∷ bs) = ground (arith, text_eq_iff as' bs)

pub text_eq_refl : (a : Text) → text_eq a a ≡ true
text_eq_refl a = (text_eq_iff a a).1 refl

-- `a === b` of two optional strings.
unfoldable pub opt_eq : Option Text → Option Text → Bool
opt_eq none none = true
opt_eq (some a) (some b) = text_eq a b
opt_eq _ _ = false

-- The value where a test for truth holds: `undefined` and the empty string are falsy.
abbrev pub truthy : Option Text → Option Text
truthy none = none
truthy (some []) = none
truthy (some (c ∷ s)) = some (c ∷ s)

abbrev pub is_truthy : Option Text → Bool
is_truthy o = elim (truthy o) [ none ↦ false | some _ ↦ true ]

abbrev pub is_digit : ℕ → Bool
is_digit c = leb b'0' c && leb c b'9'

-- The white space and line ends that `trim` takes off.
abbrev pub is_space : ℕ → Bool
is_space c =
    leb 9 c && leb c 13
    || c == 32
    || c == 160
    || c == 0x1680
    || leb 0x2000 c && leb c 0x200a
    || c == 0x2028
    || c == 0x2029
    || c == 0x202f
    || c == 0x205f
    || c == 0x3000
    || c == 0xfeff

pub trim_start : Text → Text
trim_start [] = []
trim_start (c ∷ s) = if is_space c then trim_start s else c ∷ s

unfoldable pub trim : Text → Text
unfolding trim_start
trim s = reverse (trim_start (reverse (trim_start s)))

pub opt_eq-none : (t : Text) → opt_eq none (some t) ≡ false
unfolding opt_eq
opt_eq-none t = refl

pub opt_eq-some : (s t : Text) → opt_eq (some s) (some t) ≡ text_eq s t
unfolding opt_eq
opt_eq-some s t = refl

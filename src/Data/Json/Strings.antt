-- ===== src/Data/Json/Strings.antt =====
-- A quoted JSON string determines its text, and where it ends.
use pnw.Base.{
  ℕ, ◌+◌, ◌-◌, ◌*◌, ◌/◌, ◌%◌, ◌<◌, ◌≤◌, ◌≡◌, refl, sym, ap, ◌∙◌, ◌≢◌, Bool, true, false, not, ◌&&◌,
  ◌||◌, Option, none, some, [], ◌∷◌, ◌++◌, arith, ltb, ◌==◌, if◌then◌else◌, Bool-cases, inl, inr,
}
use mathlib.Core.Bool.{false≢true}
use mathlib.Core.Path.{ap₂}
use mathlib.Core.List.{append_assoc}
use pnw.Data.Text.{Text}
use pnw.Data.Json.{quote, quote_from, escape, hex_digit, is_lead, next_is_trail}

hex_value : ℕ → ℕ
hex_value c = if ltb c 58 then c - 48 else c - 87

hex_value-digit : (n : ℕ) → n < 16 → hex_value (hex_digit n) ≡ n
unfolding hex_value
hex_value-digit n h = ground arith

unescape_hex : Text → Option (ℕ × Text)
unescape_hex (a ∷ b ∷ c ∷ d ∷ r) =
    some (hex_value a * 4096 + hex_value b * 256 + hex_value c * 16 + hex_value d, r)
unescape_hex _ = none

short_value : ℕ → ℕ
short_value x =
    if x == b'b'
    then 8
    else if x == b't'
    then 9
    else if x == b'n'
    then 10
    else if x == b'f'
    then 12
    else if x == b'r'
    then 13
    else x

unescape : Text → Option (ℕ × Text)
unescape [] = none
unescape (x ∷ r) = if x == b'u' then unescape_hex r else some (short_value x, r)

-- The first code unit of a quoted text, and what follows it.
next_unit : Text → Option (ℕ × Text)
next_unit [] = none
next_unit (c ∷ r) = if c == b'\\' then unescape r else some (c, r)

four_digits :
    (c : ℕ) → c < 65536 → c / 4096 * 4096 + c / 256 % 16 * 256 + c / 16 % 16 * 16 + c % 16 ≡ c
four_digits c h = omega arith

next_unit-escape : (c : ℕ) (r : Text) → next_unit (escape c ++ r) ≡ some (c, r)
unfolding next_unit escape unescape unescape_hex short_value
next_unit-escape c r = ground (
  arith,
  four_digits c,
  hex_value-digit (c / 4096),
  hex_value-digit (c / 256 % 16),
  hex_value-digit (c / 16 % 16),
  hex_value-digit (c % 16),
)

starts_quote : Text → Bool
starts_quote [] = false
starts_quote (c ∷ r) = c == b'"'

starts_quote-escape : (c : ℕ) (r : Text) → starts_quote (escape c ++ r) ≡ false
unfolding starts_quote escape
starts_quote-escape c r = ground arith

-- A code unit that comes second in a pair is a trailing surrogate.
abbrev IsPaired : Bool → Text → Type 0
IsPaired paired s = paired ≡ true → next_is_trail s ≡ true

abbrev opens : Bool → ℕ → Text → Bool
opens paired c s = not paired && is_lead c && next_is_trail s

abbrev quoted_unit : Bool → ℕ → Text → Text
quoted_unit paired c s = if paired || opens paired c s then c ∷ [] else escape c

raw_unit :
    (c : ℕ) (r : Text)
    → 0xd800 ≤ c
    → (next_unit (c ∷ r) ≡ some (c, r)) × (starts_quote (c ∷ r) ≡ false)
unfolding next_unit starts_quote
raw_unit c r h = ground arith

unit-reads :
    (paired : Bool) (c : ℕ) (s r : Text)
    → IsPaired paired (c ∷ s)
    → (next_unit (quoted_unit paired c s ++ r) ≡ some (c, r))
      × (starts_quote (quoted_unit paired c s ++ r) ≡ false)
unit-reads paired c s r h = elim (Bool-cases (paired || opens paired c s)) [
  | inl raw ↦ rw raw (raw_unit c r (ground (arith, h)))
  | inr escaped ↦ rw escaped (next_unit-escape c r, starts_quote-escape c r)
]

opens-IsPaired : (paired : Bool) (c : ℕ) (s : Text) → IsPaired (opens paired c s) s
opens-IsPaired paired c s h = ground arith

abbrev finish : Bool → Text → Text → Text
finish paired s rest = quote_from paired s ++ b'"' ∷ rest

finish-cons :
    (paired : Bool) (c : ℕ) (s rest : Text)
    → finish paired (c ∷ s) rest ≡ quoted_unit paired c s ++ finish (opens paired c s) s rest
unfolding quote_from
finish-cons paired c s rest =
    append_assoc (quoted_unit paired c s) (quote_from (opens paired c s) s) (b'"' ∷ rest)

finish-nil : (paired : Bool) (rest : Text) → finish paired [] rest ≡ b'"' ∷ rest
unfolding quote_from
finish-nil paired rest = refl

not-starts :
    (paired paired' : Bool) (c : ℕ) (s rest rest' : Text)
    → IsPaired paired (c ∷ s)
    → finish paired (c ∷ s) rest ≢ finish paired' [] rest'
unfolding starts_quote
not-starts paired paired' c s rest rest' h e =
    let a = ap starts_quote (sym (finish-cons paired c s rest) ∙ e ∙ finish-nil paired' rest') in
    let b = (unit-reads paired c s (finish (opens paired c s) s rest) h).1 in cc

pub tail_eq : (c : ℕ) (s t : Text) → ◌≡◌ {A = Text} (c ∷ s) (c ∷ t) → s ≡ t
tail_eq c s t h = cc

same_unit :
    (c d : ℕ) (r t : Text)
    → ◌≡◌ {A = Option (ℕ × Text)} (some (c, r)) (some (d, t))
    → (c ≡ d) × (r ≡ t)
same_unit c d r t h = ground arith

quote_from-inj :
    (p q : Bool) (a b s t : Text)
    → IsPaired p a
    → IsPaired q b
    → finish p a s ≡ finish q b t
    → (a ≡ b) × (s ≡ t)
quote_from-inj p q [] [] s t hp hq e =
    (refl, tail_eq b'"' s t (sym (finish-nil p s) ∙ e ∙ finish-nil q t))
quote_from-inj p q [] (d ∷ b) s t hp hq e = absurd (not-starts q p d b t s hq (sym e))
quote_from-inj p q (c ∷ a) [] s t hp hq e = absurd (not-starts p q c a s t hp e)
quote_from-inj p q (c ∷ a) (d ∷ b) s t hp hq e =
    let left = (unit-reads p c a (finish (opens p c a) a s) hp).0 in
    let right = (unit-reads q d b (finish (opens q d b) b t) hq).0 in
    let read =
      sym left ∙ ap next_unit (sym (finish-cons p c a s) ∙ e ∙ finish-cons q d b t) ∙ right in
    let (same, rest) = same_unit c d _ _ read in
    let (tails, after) =
      quote_from-inj (opens p c a) (opens q d b) a b s t (opens-IsPaired p c a)
        (opens-IsPaired q d b) rest in
    (ap₂ (λ c s. c ∷ s) same tails, after)

-- What stands behind a quoted text is told apart from it.
pub quote-inj : (a b s t : Text) → quote a ++ s ≡ quote b ++ t → (a ≡ b) × (s ≡ t)
unfolding quote
quote-inj a b s t e =
    let l = append_assoc (quote_from false a) (b'"' ∷ []) s in
    let r = append_assoc (quote_from false b) (b'"' ∷ []) t in
    quote_from-inj false false a b s t (λ h. absurd (false≢true h)) (λ h. absurd (false≢true h))
      (sym l ∙ tail_eq b'"' _ _ e ∙ r)

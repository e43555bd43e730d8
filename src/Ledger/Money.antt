-- ===== src/Ledger/Money.antt =====
-- packages/ledger/src/money.ts: amounts in whole cents, and their text.
pub mod RoundTrip
use pnw.Base.{
  ℕ, ◌+◌, ◌*◌, ◌/◌, ◌%◌, Bool, true, false, ◌&&◌, Option, none, some, List, [], ◌∷◌, ◌++◌, leb, ltb,
  ◌==◌, if◌then◌else◌, not, foldl, length, all, select,
}
use pnw.Data.Int.{ℤ, pos, ◌+ℤ◌, neg, ltb_ℤ, pos_part}
use pnw.Data.Result.{ok, err}
use pnw.Data.Text.{Text, is_digit, trim}
use pnw.Data.Decimal.{show, read, pad_start2}
use pnw.Ledger.Errors.{Ledger, bad_amount}

abbrev pub Cents : Type 0
Cents = ℤ

-- `replace(/,/g, "")`
abbrev pub remove_commas : Text → Text
remove_commas = select (λ c. not (c == b','))

-- `replace(/^\$/, "")`
abbrev pub strip_dollar : Text → Text
strip_dollar [] = []
strip_dollar (c ∷ s) = if c == b'$' then s else c ∷ s

-- The longest run of digits at the front, and the rest.
abbrev pub span_digits : Text → Text × Text
span_digits [] = ([], [])
span_digits (c ∷ s) =
    let (run, rest) = span_digits s in if is_digit c then (c ∷ run, rest) else ([], c ∷ s)

-- The groups of AMOUNT = /^(-)?(\d{1,15})(?:\.(\d{1,2}))?$/: the sign, the whole part and the
-- fraction, empty where it is missing.
abbrev pub match_fraction : Text → Option Text
match_fraction [] = some []
match_fraction (c ∷ frac) =
    if c == b'.' && all is_digit frac && leb 1 (length frac) && leb (length frac) 2
    then some frac
    else none

abbrev pub match_parts : Bool → Text × Text → Option (Bool × Text × Text)
match_parts sign (whole, rest) =
    if leb 1 (length whole) && leb (length whole) 15
    then elim (match_fraction rest) [ none ↦ none | some frac ↦ some (sign, whole, frac) ]
    else none

abbrev pub match_unsigned : Bool → Text → Option (Bool × Text × Text)
match_unsigned sign s = match_parts sign (span_digits s)

abbrev pub match_amount : Text → Option (Bool × Text × Text)
match_amount [] = none
match_amount (c ∷ s) = if c == b'-' then match_unsigned true s else match_unsigned false (c ∷ s)

-- `frac.padEnd(2, "0")`
abbrev pub pad_end2 : Text → Text
pad_end2 [] = b'0' ∷ b'0' ∷ []
pad_end2 (c ∷ []) = c ∷ b'0' ∷ []
pad_end2 (c ∷ d ∷ s) = c ∷ d ∷ s

abbrev pub cents_of : Bool × Text × Text → Cents
cents_of (sign, whole, frac) =
    let cents = pos (read whole * 100 + read (pad_end2 frac)) in if sign then neg cents else cents

unfoldable pub parse_cents : Text → Ledger Cents
parse_cents text = elim (match_amount (strip_dollar (remove_commas (trim text)))) [
  | none ↦ err bad_amount
  | some m ↦ ok (cents_of m)
]

-- `replace(/\B(?=(\d{3})+(?!\d))/g, ",")` on digits: a comma before each place inside the text that
-- a positive multiple of three digits follows.
abbrev pub group_thousands : Text → Text
group_thousands [] = []
group_thousands (c ∷ s) =
    let rest = group_thousands s in
    if ltb 0 (length s) && (length s % 3 == 0) then c ∷ b',' ∷ rest else c ∷ rest

abbrev pub format_abs : ℕ → Text
format_abs n = group_thousands (show (n / 100)) ++ b'.' ∷ pad_start2 (show (n % 100))

unfoldable pub format_cents : Cents → Text
format_cents cents =
    let is_neg = ltb_ℤ cents (pos 0) in
    let abs = pos_part (if is_neg then neg cents else cents) in
    if is_neg then b'-' ∷ format_abs abs else format_abs abs

unfoldable pub sum_cents : List Cents → Cents
sum_cents = foldl (λ total v. total +ℤ v) (pos 0)

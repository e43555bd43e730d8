-- ===== src/Sales/Amounts.antt =====
-- packages/sales/src/sales.ts: quantities, the amount of a line, and tax rates.
use pnw.Base.{
  ℕ, suc, ◌+◌, ◌*◌, ◌/◌, ◌%◌, ◌&&◌, Option, none, some, [], ◌∷◌, ◌++◌, leb, ltb, ◌==◌, length,
  reverse, if◌then◌else◌,
}
use pnw.Data.Int.{ℤ, pos, negsuc, neg, ◌+ℤ◌, ◌*ℤ◌, Number, integer, not_integer}
use pnw.Data.Result.{ok, err, ◌>>◌, fail_if}
use pnw.Data.Text.{Text, trim}
use pnw.Data.Decimal.{show, read, pad_start2}
use pnw.Ledger.Money.{Cents, span_digits, match_fraction, pad_end2}
use pnw.Sales.Errors.{Fallible, refused, bad_quantity, bad_rate, rate_above_100, bad_tax_rate}

-- `a / n` of a bigint and a positive one: towards zero.
abbrev pub quot : ℤ → ℕ → ℤ
quot (pos a) n = pos (a / n)
quot (negsuc a) n = neg (pos (suc a / n))

-- /^(\d{1,most})(?:\.(\d{1,2}))?$/, as whole hundredths.
abbrev pub hundredths_of : ℕ → Text × Text → Option ℕ
hundredths_of most (whole, rest) =
    if leb 1 (length whole) && leb (length whole) most
    then elim (match_fraction rest) [
      | none ↦ none
      | some frac ↦ some (read whole * 100 + read (pad_end2 frac))
    ]
    else none

abbrev pub match_hundredths : ℕ → Text → Option ℕ
match_hundredths most s = hundredths_of most (span_digits s)

-- "2.5" gives 250 hundredths.
unfoldable pub parse_quantity : Text → Fallible ℕ
parse_quantity text = elim (match_hundredths 9 (trim text)) [
  | none ↦ err (refused bad_quantity)
  | some q ↦ ok q
]

-- `(quantity * unitPrice + 50n) / 100n`
abbrev pub price : ℕ → Cents → Cents
price quantity unit_price = quot (pos quantity *ℤ unit_price +ℤ pos 50) 100

-- `replace(/%$/, "")`
abbrev pub strip_percent : Text → Text
strip_percent s = elim (reverse s) [ [] ↦ [] | c ∷ r ↦ if c == b'%' then reverse r else s ]

abbrev pub or_zero : Text → Text
or_zero [] = b'0' ∷ []
or_zero (c ∷ s) = c ∷ s

-- "8.25" gives 825 basis points.
unfoldable pub parse_rate_bp : Text → Fallible ℕ
parse_rate_bp text = elim (match_hundredths 3 (or_zero (strip_percent (trim text)))) [
  | none ↦ err (refused bad_rate)
  | some bp ↦ if ltb 10_000 bp then err (refused rate_above_100) else ok bp
]

-- `replace(/0$/, "")`
abbrev pub strip_zero : Text → Text
strip_zero s = elim (reverse s) [ [] ↦ [] | c ∷ r ↦ if c == b'0' then reverse r else s ]

unfoldable pub format_rate_bp : ℕ → Text
format_rate_bp bp =
    if bp % 100 == 0
    then show (bp / 100)
    else show (bp / 100) ++ b'.' ∷ strip_zero (pad_start2 (show (bp % 100)))

-- `taxRateBp ?? 0`, in range.
unfoldable pub clean_tax_rate : Option Number → Fallible ℕ
clean_tax_rate none = ok 0
clean_tax_rate (some not_integer) = err (refused bad_tax_rate)
clean_tax_rate (some (integer (negsuc n))) = err (refused bad_tax_rate)
clean_tax_rate (some (integer (pos n))) = do fail_if (ltb 10_000 n) (refused bad_tax_rate); ok n

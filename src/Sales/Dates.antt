-- ===== src/Sales/Dates.antt =====
-- packages/sales/src/sales.ts: days added to a date, and the days between two dates.
use pnw.Base.{ℕ, zero, suc, ◌+◌, ◌-◌, ◌*◌, ◌/◌, none, some, [], ◌∷◌, ◌++◌, ltb, ◌==◌, if◌then◌else◌}
use pnw.Data.Int.{ℤ, pos, ◌-ℤ◌}
use pnw.Data.Result.{ok, err, ◌>>=◌}
use pnw.Data.Text.{Text}
use pnw.Data.Decimal.{show, pad_start2}
use pnw.Ledger.Errors.{Ledger, script_error}
use pnw.Ledger.Periods.{IsoDate, assert_date, match_date, days_in_month}
use pnw.Ledger.Reports.{pad_year}

abbrev pub Civil : Type 0
Civil = ℕ × ℕ × ℕ

-- The numbers of a date that has been checked.
abbrev pub civil_of : IsoDate → Ledger Civil
civil_of date =
    assert_date date >>= λ d. elim (match_date d) [ none ↦ err script_error | some c ↦ ok c ]

abbrev pub next_day : Civil → Civil
next_day (y, m, d) =
    if ltb d (days_in_month y m)
    then (y, m, d + 1)
    else if ltb m 12
    then (y, m + 1, 1)
    else (y + 1, 1, 1)

-- Days counted on from a date, over the ends of months and years.
abbrev pub days_later : ℕ → Civil → Civil
days_later zero c = c
days_later (suc n) c = days_later n (next_day c)

abbrev pub first_units : ℕ → Text → Text
first_units zero s = []
first_units (suc n) [] = []
first_units (suc n) (c ∷ s) = c ∷ first_units n s

-- `toISOString().slice(0, 10)`: a year of five digits has a sign and six digits.
abbrev pub iso_of : Civil → IsoDate
iso_of (y, m, d) =
    let year = if ltb y 10_000 then pad_year y else b'+' ∷ b'0' ∷ show y in
    first_units 10 (year ++ (b'-' ∷ (pad_start2 (show m) ++ (b'-' ∷ pad_start2 (show d)))))

-- `Date.UTC(y, m - 1, d)`, where `d` may be more than the month has. Dates that are checked have a year
-- of at least 100, which `Date.UTC` takes as it is.
abbrev pub utc : Civil → Civil
utc (y, m, d) = days_later (d - 1) (y, m, 1)

unfoldable pub add_days : IsoDate → ℕ → Ledger IsoDate
add_days date days = civil_of date >>= λ (y, m, d). ok (iso_of (utc (y, m, d + days)))

-- The days of the years before a year from 1 on, and of the months before a month.
abbrev pub days_before_year : ℕ → ℕ
days_before_year y = (y - 1) * 365 + (y - 1) / 4 + (y - 1) / 400 - (y - 1) / 100

abbrev pub days_before_month : ℕ → ℕ → ℕ
days_before_month y zero = 0
days_before_month y (suc m) = if m == 0 then 0 else days_before_month y m + days_in_month y m

-- `Date.UTC(y, m - 1, d)` in days, from a day that is the same for all dates.
abbrev pub day_number : Civil → ℕ
day_number (y, m, d) = days_before_year y + days_before_month y m + d

-- Whole days from `from` to `to`.
unfoldable pub days_between : IsoDate → IsoDate → Ledger ℤ
days_between from to =
    civil_of to >>= λ b. civil_of from >>= λ a. ok (pos (day_number b) -ℤ pos (day_number a))

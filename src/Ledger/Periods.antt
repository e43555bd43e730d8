-- ===== src/Ledger/Periods.antt =====
-- packages/ledger/src/periods.ts: dates, accounting periods, and the two marks of the books.
pub mod Order
pub mod Previous
use pnw.Base.{
  ℕ, zero, suc, ◌+◌, ◌-◌, ◌*◌, ◌%◌, Bool, true, false, ◌&&◌, ◌||◌, not, Option, none, some, List,
  [], ◌∷◌, ◌++◌, leb, ltb, ◌==◌, if◌then◌else◌,
}
use pnw.Data.Result.{ok, err, ◌>>=◌, ◌>>◌, fail_if}
use pnw.Data.Text.{Text, codes, is_digit, truthy}
use pnw.Data.Text.Order.{text_lt, text_le}
use pnw.Data.Decimal.{show, read, pad_start2}
use pnw.Ledger.Errors.{Ledger, bad_date, bad_period, period_closed, period_locked}

-- "YYYY-MM-DD"
abbrev pub IsoDate : Type 0
IsoDate = Text

-- "YYYY-MM"
abbrev pub PeriodId : Type 0
PeriodId = Text

abbrev is_leap : ℕ → Bool
is_leap y = (y % 4 == 0) && not (y % 100 == 0) || (y % 400 == 0)

abbrev pub days_in_month : ℕ → ℕ → ℕ
days_in_month year month =
    if (month == 4) || (month == 6) || (month == 9) || (month == 11)
    then 30
    else if not (month == 2)
    then 31
    else if is_leap year
    then 29
    else 28

-- `Date.UTC` reads the years 0 to 99 as 1900 to 1999.
abbrev pub utc_year : ℕ → ℕ
utc_year y = if ltb y 100 then 1900 + y else y

-- Whether a date made by `Date.UTC(y, mo - 1, d)` reads back as `y`, `mo` and `d`: a month or a day
-- out of range is carried over into another date, and a year below 100 into another century.
abbrev pub utc_reads_back : ℕ → ℕ → ℕ → Bool
utc_reads_back y mo d = leb 100 y && leb 1 mo && leb mo 12 && leb 1 d && leb d (days_in_month y mo)

-- The groups of DATE = /^(\d{4})-(\d{2})-(\d{2})$/ as numbers.
unfoldable pub match_date : Text → Option (ℕ × ℕ × ℕ)
match_date (y₁ ∷ y₂ ∷ y₃ ∷ y₄ ∷ h₁ ∷ m₁ ∷ m₂ ∷ h₂ ∷ d₁ ∷ d₂ ∷ []) =
    if is_digit y₁
      && is_digit y₂
      && is_digit y₃
      && is_digit y₄
      && (h₁ == b'-')
      && is_digit m₁
      && is_digit m₂
      && (h₂ == b'-')
      && is_digit d₁
      && is_digit d₂
    then some (read (y₁ ∷ y₂ ∷ y₃ ∷ y₄ ∷ []), read (m₁ ∷ m₂ ∷ []), read (d₁ ∷ d₂ ∷ []))
    else none
match_date _ = none

unfoldable pub assert_date : Text → Ledger IsoDate
assert_date date = elim (match_date date) [
  | none ↦ err bad_date
  | some (y, mo, d) ↦ if utc_reads_back y mo d then ok date else err bad_date
]

-- The groups of PERIOD = /^(\d{4})-(\d{2})$/ as numbers.
unfoldable pub match_period : Text → Option (ℕ × ℕ)
match_period (y₁ ∷ y₂ ∷ y₃ ∷ y₄ ∷ h ∷ m₁ ∷ m₂ ∷ []) =
    if is_digit y₁
      && is_digit y₂
      && is_digit y₃
      && is_digit y₄
      && (h == b'-')
      && is_digit m₁
      && is_digit m₂
    then some (read (y₁ ∷ y₂ ∷ y₃ ∷ y₄ ∷ []), read (m₁ ∷ m₂ ∷ []))
    else none
match_period _ = none

-- The period with its two numbers.
unfoldable pub split_period : Text → Ledger (ℕ × ℕ)
split_period period = elim (match_period period) [
  | none ↦ err bad_period
  | some (y, m) ↦ if ltb m 1 || ltb 12 m then err bad_period else ok (y, m)
]

unfoldable pub assert_period : Text → Ledger PeriodId
unfolding split_period
assert_period period = split_period period >>= λ _. ok period

-- `slice(0, 7)`
abbrev pub slice7 : Text → Text
slice7 (a ∷ b ∷ c ∷ d ∷ e ∷ f ∷ g ∷ _) = a ∷ b ∷ c ∷ d ∷ e ∷ f ∷ g ∷ []
slice7 s = s

unfoldable pub period_of : IsoDate → Ledger PeriodId
period_of date = assert_date date >>= λ d. ok (slice7 d)

-- Last day of a period.
unfoldable pub period_end : PeriodId → Ledger IsoDate
unfolding split_period
period_end period = split_period period >>= λ (y, m).
    ok (period ++ b'-' ∷ pad_start2 (show (days_in_month (utc_year y) m)))

-- `${y - 1}`, which for the year 0 is "-1".
abbrev pub show_year_before : ℕ → Text
show_year_before zero = codes "-1"
show_year_before (suc y) = show y

unfoldable pub previous_period : PeriodId → Ledger PeriodId
unfolding split_period
previous_period period = split_period period >>= λ (y, m).
    if m == 1
    then ok (show_year_before y ++ codes "-12")
    else ok (show y ++ b'-' ∷ pad_start2 (show (m - 1)))

-- First day of the fiscal year that contains `date`.
unfoldable pub fiscal_year_start : IsoDate → ℕ → Ledger IsoDate
unfolding assert_date
fiscal_year_start date start_month = assert_date date >>= λ _. elim (match_date date) [
  | none ↦ err bad_date
  | some (y, m, d) ↦
      let year = if leb start_month m then show y else show_year_before y in
      ok (year ++ b'-' ∷ pad_start2 (show start_month) ++ codes "-01")
]

pub record PeriodMarks : Type 0 where
  pub closed_through : Option PeriodId
  pub locked_through : Option PeriodId

pub data PeriodStatus : Type 0 where
  is_open is_closed is_locked : PeriodStatus

-- `mark && period <= mark`
abbrev pub within : Option PeriodId → PeriodId → Bool
within mark period = elim (truthy mark) [ none ↦ false | some m ↦ text_le period m ]

unfoldable pub status_of : PeriodMarks → PeriodId → PeriodStatus
status_of marks period =
    if within marks.locked_through period
    then is_locked
    else if within marks.closed_through period
    then is_closed
    else is_open

-- Fails unless entries may be dated on `date`.
unfoldable pub assert_open : PeriodMarks → IsoDate → Ledger (Unit {0})
unfolding period_of status_of
assert_open marks date = period_of date >>= λ period. elim (status_of marks period) [
  | is_locked ↦ err period_locked
  | is_closed ↦ err period_closed
  | is_open ↦ ok tt
]

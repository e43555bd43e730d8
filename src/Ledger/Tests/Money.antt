-- ===== src/Ledger/Tests/Money.antt =====
-- Money and the order of periods (packages/ledger/src/money.ts, periods.ts) at small inputs.
use pnw.Base.{◌≡◌, refl, ltb, ◌+◌, ◌*◌, arith}
use pnw.Data.Int.{negsuc}
use pnw.Data.Result.{ok, err}
use pnw.Data.Text.{codes}
use pnw.Data.Text.Order.{text_lt}
use pnw.Ledger.Errors.{bad_amount}
use pnw.Ledger.Money.{parse_cents, format_cents}
use pnw.Ledger.Money.RoundTrip.{parse_cents-format_cents}
use pnw.Ledger.Periods.Order.{text_lt-split_period}
use pnw.Ledger.Periods.Previous.{IsMonthBefore, previous_period_lem}
use pnw.Ledger.Tests.Samples.{program}

formatted : format_cents (negsuc 123456749) ≡ codes "-1,234,567.50"
unfolding format_cents program
formatted = refl

too_fine : parse_cents (codes "1.005") ≡ err bad_amount
unfolding parse_cents program
too_fine = refl

parse_cents-format_cents_example :
    parse_cents (format_cents (negsuc 123456749)) ≡ ok (negsuc 123456749)
parse_cents-format_cents_example = parse_cents-format_cents (negsuc 123456749) (omega arith)

text_lt-split_period_example :
    text_lt (codes "2025-12") (codes "2026-01") ≡ ltb (2025 * 12 + 12) (2026 * 12 + 1)
unfolding program
text_lt-split_period_example =
    text_lt-split_period (codes "2025-12") (codes "2026-01") 2025 12 2026 1 refl refl

previous_period_lem_example : IsMonthBefore (codes "2025-12") 2026 1
unfolding program
previous_period_lem_example =
    previous_period_lem (codes "2026-01") 2026 1 (codes "2025-12") refl (omega arith) refl

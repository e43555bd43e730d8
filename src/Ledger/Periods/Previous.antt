-- ===== src/Ledger/Periods/Previous.antt =====
-- `previousPeriod` of packages/ledger/src/periods.ts names the month before, for years of four
-- digits.
use pnw.Base.{
  ℕ, zero, suc, ◌+◌, ◌-◌, ◌*◌, ◌/◌, ◌%◌, ◌≤◌, ◌<◌, ◌≡◌, refl, subst, ◌∷◌, ◌++◌, arith, ◌==◌,
  Bool-cases, inl, inr,
}
use pnw.Data.Result.{ok}
use pnw.Data.Text.{Text}
use pnw.Data.Decimal.{show, pad_start2, digit, show_four, pad-show}
use pnw.Ledger.Periods.{split_period, previous_period}
use pnw.Ledger.Periods.Order.{IsPeriod, split_period-inv}

-- `${y}-${m}` with the month padded is a period.
show-IsPeriod :
    (y m : ℕ)
    → 1000 ≤ y
    → y < 10000
    → 1 ≤ m
    → m ≤ 12
    → IsPeriod (show y ++ b'-' ∷ pad_start2 (show m)) y m
show-IsPeriod y m lo hi mlo mhi = record {
  a = digit (y / 1000);
  b = digit (y / 100 % 10);
  c = digit (y / 10 % 10);
  d = digit (y % 10);
  e = digit (m / 10);
  f = digit (m % 10);
  text = rw (show_four y lo hi) (rw (pad-show m (omega arith)) refl);
  digit_a = omega arith;
  digit_b = omega arith;
  digit_c = omega arith;
  digit_d = omega arith;
  digit_e = omega arith;
  digit_f = omega arith;
  year = omega arith;
  month = omega arith;
  month_pos = mlo;
  month_max = mhi;
}

year-lt : {p : Text} {y m : ℕ} → IsPeriod p y m → y < 10000
year-lt i = omega (arith, i.year, i.digit_a, i.digit_b, i.digit_c, i.digit_d)

pub record IsMonthBefore (q : Text) (y m : ℕ) : Type 0 where
  pub year : ℕ
  pub month : ℕ
  pub form : IsPeriod q year month
  pub before : year * 12 + month + 1 ≡ y * 12 + m

-- Of a period of the year 1001 or later, `previousPeriod` gives the period of the month before.
pub previous_period_lem :
    (p : Text) (y m : ℕ) (q : Text)
    → split_period p ≡ ok (y, m)
    → 1001 ≤ y
    → previous_period p ≡ ok q
    → IsMonthBefore q y m
unfolding previous_period
previous_period_lem p zero m q s lo e = absurd (omega arith)
previous_period_lem p (suc y) m q s lo e =
    let i = split_period-inv p (suc y) m s in
    elim (Bool-cases (m == 1)) [
      | inl first ↦ record {
        year = y;
        month = 12;
        form =
            subst (λ t. IsPeriod t y 12) (rw (pad-show 12 (omega arith)) (ground arith))
              (show-IsPeriod y 12 (omega arith) (omega (arith, year-lt i)) (omega arith)
                (omega arith));
        before = ground arith;
      }
      | inr later ↦ record {
        year = suc y;
        month = m - 1;
        form =
            subst (λ t. IsPeriod t (suc y) (m - 1)) (ground arith)
              (show-IsPeriod (suc y) (m - 1) (omega arith) (year-lt i) (ground (arith, i.month_pos))
                (omega (arith, i.month_max)));
        before = ground (arith, i.month_pos);
      }
    ]

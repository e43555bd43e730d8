-- ===== src/Ledger/Periods/Order.antt =====
-- Periods as texts are ordered as months are (packages/ledger/src/periods.ts: "ISO strings of the
-- same shape compare correctly as plain strings").
use pnw.Base.{
  ℕ, ◌+◌, ◌-◌, ◌*◌, ◌≤◌, ◌<◌, ◌≡◌, refl, ◌∙◌, subst, true, false, [], ◌∷◌, arith, ltb, ◌==◌,
  if◌then◌else◌,
}
use pnw.Data.Text.{Text}
use pnw.Data.Text.Order.{text_lt, text_lt_irrefl}
use pnw.Data.Result.{ok}
use pnw.Data.Decimal.{read_two, read_four}
use pnw.Ledger.Periods.{split_period, match_period}

abbrev pub IsDigit : ℕ → Type 0
IsDigit c = (48 ≤ c) × (c ≤ 57)

abbrev pub two : ℕ → ℕ → ℕ
two a b = (a - 48) * 10 + (b - 48)

text_lt_two :
    (a b a' b' : ℕ)
    → IsDigit a
    → IsDigit b
    → IsDigit a'
    → IsDigit b'
    → (s t : Text)
    → text_lt (a ∷ b ∷ s) (a' ∷ b' ∷ t) ≡ (
        if ltb (two a b) (two a' b')
        then true
        else if two a b == two a' b'
        then text_lt s t
        else false)
unfolding text_lt
text_lt_two a b a' b' p q p' q' s t = ground arith

text_lt_dash : (s t : Text) → text_lt (b'-' ∷ s) (b'-' ∷ t) ≡ text_lt s t
unfolding text_lt
text_lt_dash s t = refl

-- A text of the form YYYY-MM with a month that there is.
pub record IsPeriod (p : Text) (y m : ℕ) : Type 0 where
  pub a : ℕ
  pub b : ℕ
  pub c : ℕ
  pub d : ℕ
  pub e : ℕ
  pub f : ℕ
  pub text : p ≡ a ∷ b ∷ c ∷ d ∷ b'-' ∷ e ∷ f ∷ []
  pub digit_a : IsDigit a
  pub digit_b : IsDigit b
  pub digit_c : IsDigit c
  pub digit_d : IsDigit d
  pub digit_e : IsDigit e
  pub digit_f : IsDigit f
  pub year : y ≡ two a b * 100 + two c d
  pub month : m ≡ two e f
  pub month_pos : 1 ≤ m
  pub month_max : m ≤ 12

split_period-seven :
    (a b c d g e f y m : ℕ)
    → split_period (a ∷ b ∷ c ∷ d ∷ g ∷ e ∷ f ∷ []) ≡ ok (y, m)
    → IsPeriod (a ∷ b ∷ c ∷ d ∷ g ∷ e ∷ f ∷ []) y m
unfolding split_period match_period
split_period-seven a b c d g e f y m h = record {
  a = a;
  b = b;
  c = c;
  d = d;
  e = e;
  f = f;
  text = ground arith;
  digit_a = ground arith;
  digit_b = ground arith;
  digit_c = ground arith;
  digit_d = ground arith;
  digit_e = ground arith;
  digit_f = ground arith;
  year = ground (arith, read_four a b c d);
  month = ground (arith, read_two e f);
  month_pos = ground arith;
  month_max = ground arith;
}

pub split_period-inv : (p : Text) (y m : ℕ) → split_period p ≡ ok (y, m) → IsPeriod p y m
unfolding split_period match_period
split_period-inv (a ∷ b ∷ c ∷ d ∷ g ∷ e ∷ f ∷ []) y m h = split_period-seven a b c d g e f y m h
split_period-inv p y m h = absurd (ground arith)

-- Comparing part by part is comparing the months counted from year 0.
lex_three :
    (a c e a' c' e' : ℕ)
    → c < 100
    → c' < 100
    → 1 ≤ e
    → e ≤ 12
    → 1 ≤ e'
    → e' ≤ 12
    → (if ltb a a'
        then true
        else if a == a'
        then (if ltb c c'
            then true
            else if c == c'
            then (if ltb e e' then true else if e == e' then false else false)
            else false)
        else false)
      ≡ ltb ((a * 100 + c) * 12 + e) ((a' * 100 + c') * 12 + e')
lex_three a c e a' c' e' p p' q r q' r' = ground arith

two-lt : (a b : ℕ) → IsDigit a → IsDigit b → two a b < 100
two-lt a b p q = omega arith

month_range : {p : Text} {y m : ℕ} (i : IsPeriod p y m) → (1 ≤ two i.e i.f) × (two i.e i.f ≤ 12)
month_range i = (subst (λ n. 1 ≤ n) i.month i.month_pos, subst (λ n. n ≤ 12) i.month i.month_max)

pub text_lt-period :
    (p q : Text) (y m y' m' : ℕ)
    → IsPeriod p y m
    → IsPeriod q y' m'
    → text_lt p q ≡ ltb (y * 12 + m) (y' * 12 + m')
text_lt-period p q y m y' m' i j = rw i.text (
    rw j.text (
      rw (text_lt_two i.a i.b j.a j.b i.digit_a i.digit_b j.digit_a j.digit_b _ _) (
        rw (text_lt_two i.c i.d j.c j.d i.digit_c i.digit_d j.digit_c j.digit_d _ _) (
          rw (text_lt_dash (i.e ∷ i.f ∷ []) (j.e ∷ j.f ∷ [])) (
            rw (text_lt_two i.e i.f j.e j.f i.digit_e i.digit_f j.digit_e j.digit_f [] []) (
              rw (text_lt_irrefl []) (
                lex_three (two i.a i.b) (two i.c i.d) (two i.e i.f) (two j.a j.b) (two j.c j.d)
                  (two j.e j.f) (two-lt i.c i.d i.digit_c i.digit_d)
                  (two-lt j.c j.d j.digit_c j.digit_d) (month_range i).0 (month_range i).1
                  (month_range j).0 (month_range j).1
                ∙ rw (i.year, i.month, j.year, j.month))))))))

-- Of two periods, the one that is less as a text is the earlier one.
pub text_lt-split_period :
    (p q : Text) (y m y' m' : ℕ)
    → split_period p ≡ ok (y, m)
    → split_period q ≡ ok (y', m')
    → text_lt p q ≡ ltb (y * 12 + m) (y' * 12 + m')
text_lt-split_period p q y m y' m' e e' =
    text_lt-period p q y m y' m' (split_period-inv p y m e) (split_period-inv q y' m' e')

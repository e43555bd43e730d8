-- ===== src/Ledger/Money/RoundTrip.antt =====
-- packages/ledger/src/money.ts: what `formatCents` writes, `parseCents` reads back.
use native.Mathlib.Nat.{pow-suc}
use pnw.Base.{
  ℕ, zero, suc, ◌+◌, ◌*◌, ◌/◌, ◌%◌, ◌^◌, ◌≤◌, ◌<◌, ◌≡◌, refl, ap, ◌∙◌, ◌≢◌, Bool, true, false, ◌&&◌,
  some, [], ◌∷◌, ◌++◌, arith, All, All-append, length, length-append, ltb, leb, ◌==◌, all,
  Bool-cases, inl, inr,
}
use pnw.Data.Int.{pos, negsuc, pos_part, neg_part, neg}
use pnw.Data.Result.{ok}
use pnw.Data.Text.{Text, is_digit, is_space, trim}
use pnw.Data.Text.Trim.{NoSpace, trim-NoSpace}
use pnw.Data.Decimal.{
  show, read, pad_start2, digit, show_digits, show_nonempty, read-show, pad-show, show_small,
  show_more, read_two,
}
use pnw.Ledger.Money.{
  Cents, parse_cents, format_cents, format_abs, group_thousands, remove_commas, strip_dollar,
  span_digits, match_amount, match_unsigned, match_parts, match_fraction, cents_of, pad_end2,
}

abbrev Digits : Text → Type 0
Digits = All (λ c. is_digit c ≡ true)

digit-space : (c : ℕ) → is_digit c ≡ true → is_space c ≡ false
digit-space c h = ground arith

tenth : (k q : ℕ) → q < 10 ^ suc (suc k) → q / 10 < 10 ^ suc k
tenth k q h = omega (arith, pow-suc 10 (suc k))

-- A number below 10^k has at most k digits.
length-show : (k q : ℕ) → q < 10 ^ suc k → length (show q) ≤ suc k
length-show zero q h = let small : q < 10 = h in rw (show_small q small) (omega arith)
length-show (suc k) q h = elim (Bool-cases (ltb q 10)) [
  | inl small ↦ rw (show_small q (ground arith)) (omega arith)
  | inr big ↦ rw (show_more q (ground arith)) (
      omega (
        arith,
        length-append (show (q / 10)) (digit (q % 10) ∷ []),
        length-show k (q / 10) (tenth k q h),
      ))
]

-- Grouping only puts commas in.
remove-group : (s : Text) → Digits s → remove_commas (group_thousands s) ≡ s
remove-group [] h = refl
remove-group (c ∷ s) h = ground (arith, remove-group s h.1, h.0)

group-NoSpace : (s : Text) → Digits s → NoSpace (group_thousands s)
group-NoSpace [] h = tt
group-NoSpace (c ∷ s) h = elim (Bool-cases (ltb 0 (length s) && (length s % 3 == 0))) [
  | inl comma ↦ rw (comma, group_thousands) (digit-space c h.0, (refl, group-NoSpace s h.1))
  | inr plain ↦ rw (plain, group_thousands) (digit-space c h.0, group-NoSpace s h.1)
]

remove_commas-append : (s t : Text) → remove_commas (s ++ t) ≡ remove_commas s ++ remove_commas t
remove_commas-append [] t = refl
remove_commas-append (c ∷ s) t = ground (arith, remove_commas-append s t)

span_digits-stop :
    (s : Text) (c : ℕ) (t : Text)
    → Digits s
    → is_digit c ≡ false
    → span_digits (s ++ c ∷ t) ≡ (s, c ∷ t)
span_digits-stop [] c t h k = rw (k, span_digits) refl
span_digits-stop (d ∷ s) c t h k = rw (h.0, span_digits, span_digits-stop s c t h.1 k) refl

Digits-NoSpace : (s : Text) → Digits s → NoSpace s
Digits-NoSpace [] h = tt
Digits-NoSpace (c ∷ s) h = (digit-space c h.0, Digits-NoSpace s h.1)

remove_commas-Digits : (s : Text) → Digits s → remove_commas s ≡ s
remove_commas-Digits [] h = refl
remove_commas-Digits (c ∷ s) h = ground (arith, remove_commas-Digits s h.1)

-- Two digits are what `format_abs` writes behind the point.
cents-Digits : (n : ℕ) → n < 100 → Digits (pad_start2 (show n)) × (length (pad_start2 (show n)) ≡ 2)
cents-Digits n h = rw (pad-show n h) ((ground arith, (ground arith, tt)), refl)

read-cents : (n : ℕ) → n < 100 → read (pad_end2 (pad_start2 (show n))) ≡ n
read-cents n h = rw (pad-show n h) (read_two (digit (n / 10)) (digit (n % 10)) ∙ omega arith)

Digits-all : (s : Text) → Digits s → all is_digit s ≡ true
Digits-all [] h = refl
Digits-all (c ∷ s) h = ground (arith, Digits-all s h.1)

match_unsigned-Digits :
    (sign : Bool) (whole frac : Text)
    → Digits whole
    → 1 ≤ length whole
    → length whole ≤ 15
    → Digits frac
    → length frac ≡ 2
    → match_unsigned sign (whole ++ b'.' ∷ frac) ≡ some (sign, whole, frac)
match_unsigned-Digits sign whole frac h lo hi k two =
    let fraction : match_fraction (b'.' ∷ frac) ≡ some frac =
      ground (arith, Digits-all frac k, two) in
    let sized : leb 1 (length whole) && leb (length whole) 15 ≡ true = ground (arith, lo, hi) in
    ap (match_parts sign) (span_digits-stop whole b'.' frac h refl)
    ∙ rw (sized, fraction, match_parts) refl

-- The text that `parse_cents` reads, once commas are out.
abbrev plain : Text → Text → Text
plain whole frac = whole ++ b'.' ∷ frac

solid :
    (whole frac : Text)
    → Digits whole
    → Digits frac
    → NoSpace (group_thousands whole ++ b'.' ∷ frac)
solid whole frac h k =
    All-append _ (group_thousands whole) (b'.' ∷ frac) (group-NoSpace whole h)
      (refl, Digits-NoSpace frac k)

ungrouped :
    (whole frac : Text)
    → Digits whole
    → Digits frac
    → remove_commas (group_thousands whole ++ b'.' ∷ frac) ≡ plain whole frac
ungrouped whole frac h k =
    remove_commas-append (group_thousands whole) (b'.' ∷ frac)
    ∙ ap (λ s. s ++ b'.' ∷ remove_commas frac) (remove-group whole h)
    ∙ ap (λ f. whole ++ b'.' ∷ f) (remove_commas-Digits frac k)

match_amount-Digits :
    (whole frac : Text)
    → Digits whole
    → 1 ≤ length whole
    → match_amount (strip_dollar (plain whole frac)) ≡ match_unsigned false (plain whole frac)
match_amount-Digits [] frac h lo = absurd (omega arith)
match_amount-Digits (c ∷ s) frac h lo = ground (arith, h.0)

length-positive : (s : Text) → s ≢ [] → 1 ≤ length s
length-positive [] h = absurd (h refl)
length-positive (c ∷ s) h = omega arith

format-pos : (n : ℕ) → format_cents (pos n) ≡ format_abs n
unfolding format_cents
format-pos n = ground arith

format-negsuc : (n : ℕ) → format_cents (negsuc n) ≡ b'-' ∷ format_abs (suc n)
unfolding format_cents neg
format-negsuc n = ground arith

parts_value :
    (n : ℕ) → read (show (n / 100)) * 100 + read (pad_end2 (pad_start2 (show (n % 100)))) ≡ n
parts_value n = rw (read-show (n / 100)) (rw (read-cents (n % 100) (omega arith)) (omega arith))

parse-matched :
    (text : Text) (m : Bool × Text × Text)
    → match_amount (strip_dollar (remove_commas (trim text))) ≡ some m
    → parse_cents text ≡ ok (cents_of m)
unfolding parse_cents
parse-matched text m e = rw (e, parse_cents) refl

-- The match on what `format_cents` writes, for each sign.
match-abs :
    (n : ℕ)
    → n / 100 < 10 ^ 15
    → match_amount (strip_dollar (remove_commas (trim (format_abs n))))
      ≡ some (false, show (n / 100), pad_start2 (show (n % 100)))
match-abs n h =
    let digits = show_digits (n / 100) in
    let (cents, two) = cents-Digits (n % 100) (omega arith) in
    let lo = length-positive (show (n / 100)) (show_nonempty (n / 100)) in
    ap (λ s. match_amount (strip_dollar (remove_commas s)))
      (trim-NoSpace _ (solid _ _ digits cents))
    ∙ ap (λ s. match_amount (strip_dollar s)) (ungrouped _ _ digits cents)
    ∙ match_amount-Digits _ _ digits lo
    ∙ match_unsigned-Digits false _ _ digits lo (length-show 14 (n / 100) h) cents two

match-minus :
    (n : ℕ)
    → n / 100 < 10 ^ 15
    → match_amount (strip_dollar (remove_commas (trim (b'-' ∷ format_abs n))))
      ≡ some (true, show (n / 100), pad_start2 (show (n % 100)))
match-minus n h =
    let digits = show_digits (n / 100) in
    let (cents, two) = cents-Digits (n % 100) (omega arith) in
    let lo = length-positive (show (n / 100)) (show_nonempty (n / 100)) in
    ap (λ s. match_amount (strip_dollar (remove_commas s)))
      (trim-NoSpace (b'-' ∷ format_abs n) (refl, solid _ _ digits cents))
    ∙ ap (λ s. match_amount (strip_dollar (b'-' ∷ s))) (ungrouped _ _ digits cents)
    ∙ match_unsigned-Digits true _ _ digits lo (length-show 14 (n / 100) h) cents two

neg-suc : (n : ℕ) → neg (pos (suc n)) ≡ negsuc n
unfolding neg
neg-suc n = ground arith

-- What `formatCents` writes for an amount of less than 10^15 dollars either way, `parseCents` reads
-- as that amount.
pub parse_cents-format_cents :
    (cents : Cents)
    → (pos_part cents + neg_part cents) / 100 < 10 ^ 15
    → parse_cents (format_cents cents) ≡ ok cents
parse_cents-format_cents (pos n) h =
    let below : n / 100 < 10 ^ 15 = omega arith in
    ap parse_cents (format-pos n)
    ∙ parse-matched (format_abs n) _ (match-abs n below)
    ∙ ap (λ n. ok (pos n)) (parts_value n)
parse_cents-format_cents (negsuc n) h =
    let below : suc n / 100 < 10 ^ 15 = omega arith in
    ap parse_cents (format-negsuc n)
    ∙ parse-matched (b'-' ∷ format_abs (suc n)) _ (match-minus (suc n) below)
    ∙ ap (λ n. ok (neg (pos n))) (parts_value (suc n))
    ∙ ap ok (neg-suc n)

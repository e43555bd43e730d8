-- ===== src/Data/Json/Values.antt =====
-- `JSON.stringify` of nulls, natural numbers, strings and arrays is injective, also in front of
-- more text.
use mathlib.Core.Bool.{false≢true}
use mathlib.Core.Path.{ap₂}
use mathlib.Core.List.{append-nil, append_assoc}
use pnw.Base.{
  ℕ, ◌≡◌, refl, sym, ap, ◌∙◌, ◌≢◌, Bool, true, false, [], ◌∷◌, ◌++◌, arith, if◌then◌else◌, All,
}
use pnw.Data.Text.{Text, is_digit}
use pnw.Data.Decimal.{show, show-injective, show_digits, show_nonempty}
use pnw.Data.Json.{Json, null, num, str, arr, Items, nil, cons, stringify, stringify_rest, quote}
use pnw.Data.Json.Strings.{quote-inj, tail_eq}

-- The text ends here, or goes on after an item of an array.
starts_digit : Text → Bool
starts_digit [] = false
starts_digit (c ∷ s) = is_digit c

cons_eq : (c d : ℕ) (s t : Text) → ◌≡◌ {A = Text} (c ∷ s) (d ∷ t) → (c ≡ d) × (s ≡ t)
cons_eq c d s t h = ground arith

digits-inj :
    (a b s t : Text)
    → All (λ c. is_digit c ≡ true) a
    → All (λ c. is_digit c ≡ true) b
    → starts_digit s ≡ false
    → starts_digit t ≡ false
    → a ++ s ≡ b ++ t
    → (a ≡ b) × (s ≡ t)
unfolding starts_digit
digits-inj [] [] s t ha hb hs ht e = (refl, e)
digits-inj [] (d ∷ b) s t ha hb hs ht e =
    let k = ap starts_digit e in absurd (false≢true (sym hs ∙ k ∙ hb.0))
digits-inj (c ∷ a) [] s t ha hb hs ht e =
    let k = ap starts_digit e in absurd (false≢true (sym ht ∙ sym k ∙ ha.0))
digits-inj (c ∷ a) (d ∷ b) s t ha hb hs ht e =
    let (same, rest) = cons_eq c d (a ++ s) (b ++ t) e in
    let (tails, after) = digits-inj a b s t ha.1 hb.1 hs ht rest in
    (ap₂ (λ c s. c ∷ s) same tails, after)

-- A tag for how a value's text begins.
first : Text → ℕ
first [] = 0
first (c ∷ s) = if is_digit c then 1 else c

show-first : (n : ℕ) (s : Text) → first (show n ++ s) ≡ 1
unfolding first
show-first n s = go (show n) (show_digits n) (show_nonempty n)
  where
    go : (d : Text) → All (λ c. is_digit c ≡ true) d → d ≢ [] → first (d ++ s) ≡ 1
    go [] h ne = absurd (ne refl)
    go (c ∷ d) h ne = ground (arith, h.0)

abbrev tag : Json → ℕ
tag null = 110
tag (num n) = 1
tag (str a) = 34
tag (arr js) = 91

value-first : (j : Json) (s : Text) → first (stringify j ++ s) ≡ tag j
unfolding stringify quote first
value-first null s = refl
value-first (num n) s = show-first n s
value-first (str a) s = refl
value-first (arr nil) s = refl
value-first (arr (cons j js)) s = refl

same_tag : (j k : Json) (s t : Text) → stringify j ++ s ≡ stringify k ++ t → tag j ≡ tag k
same_tag j k s t e = sym (value-first j s) ∙ ap first e ∙ value-first k t

rest-starts : (js : Items) (s : Text) → starts_digit (stringify_rest js ++ s) ≡ false
unfolding stringify starts_digit
rest-starts nil s = refl
rest-starts (cons j js) s = refl

-- An array is empty if its bracket closes at once.
not-closed :
    (j : Json) (js : Items) (s t : Text) → (stringify j ++ stringify_rest js) ++ s ≢ b']' ∷ t
unfolding first
not-closed j js s t e =
    let k =
      sym (value-first j (stringify_rest js ++ s))
      ∙ ap first (sym (append_assoc (stringify j) (stringify_rest js) s) ∙ e) in
    tag-ne j k
  where
    tag-ne : (j : Json) → tag j ≢ 93
    tag-ne null k = omega arith
    tag-ne (num n) k = omega arith
    tag-ne (str a) k = omega arith
    tag-ne (arr js) k = omega arith

regroup :
    (j k : Json) (js ks : Items) (s t : Text)
    → (stringify j ++ stringify_rest js) ++ s ≡ (stringify k ++ stringify_rest ks) ++ t
    → stringify j ++ (stringify_rest js ++ s) ≡ stringify k ++ (stringify_rest ks ++ t)
regroup j k js ks s t e =
    sym (append_assoc (stringify j) (stringify_rest js) s)
    ∙ e
    ∙ append_assoc (stringify k) (stringify_rest ks) t

mutual
  unfolding stringify

  value-inj :
      (j k : Json) (s t : Text)
      → starts_digit s ≡ false
      → starts_digit t ≡ false
      → stringify j ++ s ≡ stringify k ++ t
      → (j ≡ k) × (s ≡ t)
  value-inj null null s t hs ht e =
      (refl, tail_eq _ _ _ (tail_eq _ _ _ (tail_eq _ _ _ (tail_eq _ _ _ e))))
  value-inj (num n) (num m) s t hs ht e =
      let (same, after) =
        digits-inj (show n) (show m) s t (show_digits n) (show_digits m) hs ht e in
      (ap num (show-injective n m same), after)
  value-inj (str a) (str b) s t hs ht e =
      let (same, after) = quote-inj a b s t e in (ap str same, after)
  value-inj (arr nil) (arr nil) s t hs ht e = (refl, tail_eq _ _ _ (tail_eq _ _ _ e))
  value-inj (arr nil) (arr (cons k ks)) s t hs ht e =
      absurd (not-closed k ks t s (sym (tail_eq _ _ _ e)))
  value-inj (arr (cons j js)) (arr nil) s t hs ht e = absurd (not-closed j js s t (tail_eq _ _ _ e))
  value-inj (arr (cons j js)) (arr (cons k ks)) s t hs ht e =
      let (same, after) =
        value-inj j k (stringify_rest js ++ s) (stringify_rest ks ++ t) (rest-starts js s)
          (rest-starts ks t) (regroup j k js ks s t (tail_eq _ _ _ e)) in
      let (others, end) = rest-inj js ks s t after in
      (ap₂ (λ j js. arr (cons j js)) same others, end)
  value-inj j k s t hs ht e = absurd (omega (arith, same_tag j k s t e))

  rest-inj :
      (js ks : Items) (s t : Text)
      → stringify_rest js ++ s ≡ stringify_rest ks ++ t
      → (js ≡ ks) × (s ≡ t)
  rest-inj nil nil s t e = (refl, tail_eq _ _ _ e)
  rest-inj nil (cons k ks) s t e = absurd (omega (arith, (cons_eq _ _ _ _ e).0))
  rest-inj (cons j js) nil s t e = absurd (omega (arith, (cons_eq _ _ _ _ e).0))
  rest-inj (cons j js) (cons k ks) s t e =
      let (same, after) =
        value-inj j k (stringify_rest js ++ s) (stringify_rest ks ++ t) (rest-starts js s)
          (rest-starts ks t) (regroup j k js ks s t (tail_eq _ _ _ e)) in
      let (others, end) = rest-inj js ks s t after in (ap₂ cons same others, end)

-- Two values with the same JSON text are the same value.
pub stringify-inj : (j k : Json) → stringify j ≡ stringify k → j ≡ k
unfolding starts_digit
stringify-inj j k e =
    (value-inj j k [] [] refl refl
      (append-nil (stringify j) ∙ e ∙ sym (append-nil (stringify k)))).0

-- A natural number has no minus sign.
pub show-ne-minus : (n : ℕ) (s : Text) → show n ≢ b'-' ∷ s
unfolding first
show-ne-minus n s e = absurd (omega (arith, minus))
  where
    minus : ◌≡◌ {A = ℕ} 1 45
    minus = sym (show-first n []) ∙ ap first (append-nil (show n) ∙ e)

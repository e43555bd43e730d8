-- ===== src/Ledger/Books/Closing/Marks.antt =====
-- "lockedThrough ≤ closedThrough always" (packages/ledger/src/periods.ts), under the period
-- operations of packages/ledger/src/books.ts.
use pnw.Base.{
  ℕ, ◌+◌, ◌*◌, ◌≤◌, ◌≡◌, refl, sym, ap, ◌∙◌, subst, Bool, true, false, not, Option, some, [], ◌∷◌,
  arith, Option-cases, inl, inr, ltb,
}
use pnw.Data.Result.{ok, >>=-eq-ok, Result-cases}
use pnw.Data.Text.{Text, truthy}
use pnw.Data.Text.Order.{text_lt, text_le, text_le_trans, text_lt→le}
use pnw.Ledger.Periods.{
  PeriodMarks, PeriodId, within, assert_period, split_period, match_period, previous_period,
}
use pnw.Ledger.Periods.Order.{IsPeriod, split_period-inv, text_lt-period}
use pnw.Ledger.Periods.Previous.{previous_period_lem}
use pnw.Ledger.Books.State.{Books}
use pnw.Ledger.Books.Closing.{close_through, reopen_from, lock_through}

-- The lock, where there is one, is a period and lies within what is closed.
abbrev pub IsOrdered : PeriodMarks → Type 0
IsOrdered marks =
    (l : PeriodId)
    → truthy marks.locked_through ≡ some l
    → (assert_period l ≡ ok l) × (within marks.closed_through l ≡ true)

-- A period that passes the check is the one that was given, and is not empty.
split-solid :
    (p : Text) (year month : ℕ) → split_period p ≡ ok (year, month) → truthy (some p) ≡ some p
unfolding split_period match_period
split-solid [] year month e = absurd (ground arith)
split-solid (c ∷ p) year month e = refl

record IsChecked (p : PeriodId) (year month : ℕ) : Type 0 where
  split : split_period p ≡ ok (year, month)
  solid : truthy (some p) ≡ some p

assert_period-inv :
    (p q : Text)
    → assert_period p ≡ ok q
    → (assert_period p ≡ ok p) × (year : ℕ) × (month : ℕ) × IsChecked p year month
unfolding assert_period
assert_period-inv p q e =
    let ((year, month), split, e') = >>=-eq-ok (split_period p) (λ _. ok p) e in
    (rw split refl, year, month, record { split = split; solid = split-solid p year month split })

within-some :
    (mark : Option PeriodId) (m p : PeriodId) → truthy mark ≡ some m → within mark p ≡ text_le p m
within-some mark m p e = rw (e, within) refl

not-text_le : (a b : Text) → text_le a b ≡ false → text_le b a ≡ true
not-text_le a b h = ground (arith, text_lt→le b a)

not-false : (t : Bool) → not t ≡ false → t ≡ true
not-false t h = ground arith

IsPeriod-solid : {p : Text} {y m : ℕ} → IsPeriod p y m → truthy (some p) ≡ some p
IsPeriod-solid i = subst (λ p. truthy (some p) ≡ some p) (sym i.text) refl

-- What each operation checks, and the marks that it leaves.
module _ (b b' : Books) (period : PeriodId) (now : Text) where
  close_through-inv :
      close_through b period now ≡ ok b'
      → (within b.marks.closed_through period ≡ false)
        × (b'.marks
            ≡ record { closed_through = some period; locked_through = b.marks.locked_through })
        × (q : PeriodId) × (assert_period period ≡ ok q)
  unfolding close_through
  close_through-inv e =
      let (q, checked, _) = >>=-eq-ok (assert_period period) _ e in
      (ground arith, ground arith, q, checked)

  lock_through-inv :
      lock_through b period now ≡ ok b'
      → (within b.marks.closed_through period ≡ true)
        × (b'.marks
            ≡ record { closed_through = b.marks.closed_through; locked_through = some period })
        × (q : PeriodId) × (assert_period period ≡ ok q)
  unfolding lock_through
  lock_through-inv e =
      let (q, checked, _) = >>=-eq-ok (assert_period period) _ e in
      (ground arith, ground arith, q, checked)

  reopen_from-inv :
      reopen_from b period now ≡ ok b'
      → (within b.marks.locked_through period ≡ false)
        × (previous : PeriodId) × (previous_period period ≡ ok previous)
        × (b'.marks
            ≡ record { closed_through = some previous; locked_through = b.marks.locked_through })
  unfolding reopen_from
  reopen_from-inv e = elim (Result-cases (previous_period period)) [
    | inl (previous, found) ↦ (ground arith, previous, found, ground arith)
    | inr (code, failed) ↦ absurd (ground arith)
  ]

  -- Where the lock is a period and not past the close, it is so after a close that succeeds.
  pub close_through-IsOrdered :
      IsOrdered b.marks → close_through b period now ≡ ok b' → IsOrdered b'.marks
  close_through-IsOrdered o e =
      let (beyond, made, q, checked) = close_through-inv e in
      let (_, year, month, form) = assert_period-inv period q checked in
      subst IsOrdered (sym made) λ l locked.
        let (valid, inside) = o l locked in
        (
          valid,
          elim (Option-cases (truthy b.marks.closed_through)) [
            | inl open_books ↦ absurd (ground arith)
            | inr (c, closed) ↦
                within-some (some period) period l form.solid
                ∙ text_le_trans l c period
                    (sym (within-some b.marks.closed_through c l closed) ∙ inside)
                    (not-text_le period c
                      (sym (within-some b.marks.closed_through c period closed) ∙ beyond))
          ],
        )

  -- Where the lock is a period and not past the close, it is so after a lock that succeeds.
  pub lock_through-IsOrdered :
      IsOrdered b.marks → lock_through b period now ≡ ok b' → IsOrdered b'.marks
  lock_through-IsOrdered o e =
      let (inside, made, q, checked) = lock_through-inv e in
      let (valid, year, month, form) = assert_period-inv period q checked in
      subst IsOrdered (sym made) λ l locked.
        let same : period ≡ l = cc (form.solid) in
        subst (λ l. (assert_period l ≡ ok l) × (within b.marks.closed_through l ≡ true)) same
          (valid, inside)

  -- Where the lock is a period and not past the close, it is so after reopening from a period of
  -- the year 1001 or later succeeds.
  pub reopen_from-IsOrdered :
      (year month : ℕ)
      → split_period period ≡ ok (year, month)
      → 1001 ≤ year
      → IsOrdered b.marks
      → reopen_from b period now ≡ ok b'
      → IsOrdered b'.marks
  reopen_from-IsOrdered year month split recent o e =
      let (unlocked, previous, found, made) = reopen_from-inv e in
      let before = previous_period_lem period year month previous split recent found in
      let p = split_period-inv period year month split in
      subst IsOrdered (sym made) λ l locked.
        let (valid, _) = o l locked in
        let (_, y, m, form) = assert_period-inv l l valid in
        let i = split_period-inv l y m form.split in
        let below : ltb (y * 12 + m) (year * 12 + month) ≡ true =
          sym (text_lt-period l period y m year month i p)
          ∙ not-false (text_lt l period)
              (sym (within-some b.marks.locked_through l period locked) ∙ unlocked) in
        (
          valid,
          within-some (some previous) previous l (IsPeriod-solid before.form)
              ∙ ap not (text_lt-period previous l before.year before.month y m before.form i)
              ∙ ground (arith, before.before),
        )

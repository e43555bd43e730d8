-- ===== src/Ledger/Books/Journal/Rules.antt =====
-- The third rule of packages/ledger/src/books.ts, "nothing is dated in a closed period; nothing in
-- a locked period is reversed", and that an entry is reversed at most once.
use pnw.Base.{
  ◌≡◌, refl, sym, ap, ◌∙◌, ◌≢◌, subst, Bool, true, false, none, some, List, [], ◌∷◌, ◌++◌, arith,
  find, All, All-find,
}
use pnw.Data.Result.{ok, err, fail_if, >>=-eq-ok, or_fail-eq-ok, ok-injective}
use pnw.Data.Text.{Text, text_eq, opt_eq, opt_eq-some, is_truthy}
use pnw.Ledger.Errors.{already_reversed, bad_line}
use pnw.Ledger.Periods.{
  IsoDate, PeriodMarks, assert_date, assert_open, period_of, status_of, is_open, is_locked, slice7,
}
use pnw.Ledger.Books.State.{Books, Entry, EntryInput, Hashes}
use pnw.Ledger.Books.Journal.{
  append, post, post_entry, reverse_entry, find_entry, reversal_of, ReverseOptions,
  period_is_locked, is_reversal, is_some,
}
use pnw.Ledger.Books.Journal.Inversion.{post-inv, reverse_entry-inv, assert_date-same}

-- Where a date is open: a real date in a period that is neither closed nor locked.
abbrev pub IsOpenOn : PeriodMarks → IsoDate → Type 0
IsOpenOn marks date = (assert_date date ≡ ok date) × (status_of marks (slice7 date) ≡ is_open)

assert_open-IsOpenOn :
    (marks : PeriodMarks) (date : IsoDate)
    → assert_date date ≡ ok date
    → assert_open marks date ≡ ok tt
    → IsOpenOn marks date
unfolding assert_open
assert_open-IsOpenOn marks date dated opened = (dated, ground arith)

period_of-slice : (d q : Text) → period_of d ≡ ok q → q ≡ slice7 d
unfolding period_of
period_of-slice d q e =
    let (d', checked, e') = >>=-eq-ok (assert_date d) (λ d'. ok (slice7 d')) e in
    sym (ok-injective _ _ e') ∙ ap slice7 (sym (assert_date-same d d' checked))

locked-not-open :
    (b : Books) (period : Text)
    → period_is_locked b period ≡ false
    → status_of b.marks period ≡ is_locked
    → ⊥
locked-not-open b period h e = ground arith

All-unit : (es : List Entry) → All (λ _. Unit {0}) es
All-unit [] = tt
All-unit (e ∷ es) = (tt, All-unit es)

module _ (h : Hashes) where
  -- An entry that is posted is dated on a real date in a period that is neither closed nor locked.
  pub post_entry-IsOpenOn :
      (b : Books) (input : EntryInput) (now : Text) (r : Books × Entry)
      → post_entry h b input now ≡ ok r
      → IsOpenOn b.marks r.1.date
  unfolding post_entry append
  post_entry-IsOpenOn b input now r e =
      let (u, _, e') =
        >>=-eq-ok (fail_if (is_reversal input.source) bad_line) (λ _. post h b input none now) e in
      let (draft, p, _, _, made) = post-inv h b input none now r e' in
      subst (λ (r : Books × Entry). IsOpenOn b.marks r.1.date) (sym made)
        (assert_open-IsOpenOn b.marks draft.date p.dated p.open_period)

  -- A reversal that succeeds is dated on a real date in an open period, and the entry it reverses is
  -- in the journal and in no locked period.
  pub reverse_entry-IsOpenOn :
      (b : Books) (id : Text) (options : ReverseOptions) (now : Text) (r : Books × Entry)
      → reverse_entry h b id options now ≡ ok r
      → IsOpenOn b.marks r.1.date
        × (original : Entry) × (find_entry b id ≡ ok original)
        × (status_of b.marks (slice7 original.date) ≢ is_locked)
  unfolding append
  reverse_entry-IsOpenOn b id options now r e =
      let (draft, p, made) = reverse_entry-inv h b id options now r e in
      (
        subst (λ (r : Books × Entry). IsOpenOn b.marks r.1.date) (sym made)
            (assert_open-IsOpenOn b.marks draft.date p.dated p.open_period),
        p.original,
        p.found,
        λ locked.
            let inside = period_of-slice p.original.date p.period p.original_period in
            locked-not-open b p.period p.not_locked (rw inside locked),
      )

  find-snoc :
      (t : Entry → Bool) (es : List Entry) (e x : Entry)
      → find t es ≡ some x
      → find t (es ++ e ∷ []) ≡ some x
  find-snoc t [] e x h = cc
  find-snoc t (y ∷ es) e x h = ground (arith, find-snoc t es e x)

  find-last :
      (t : Entry → Bool) (es : List Entry) (e : Entry)
      → find t es ≡ none
      → t e ≡ true
      → find t (es ++ e ∷ []) ≡ some e
  find-last t [] e n h = rw h refl
  find-last t (y ∷ es) e n h = ground (arith, find-last t es e)

  refused :
      (b : Books) (id : Text) (options : ReverseOptions) (now : Text) (original : Entry)
      → find_entry b id ≡ ok original
      → is_truthy original.reverses ≡ false
      → is_some (reversal_of b id) ≡ true
      → reverse_entry h b id options now ≡ err already_reversed
  unfolding reverse_entry
  refused b id options now original found plain reversed = rw found (rw plain (rw reversed refl))

  -- In the books that a successful reversal of an entry gives, another reversal of it fails as already
  -- reversed, whatever its options.
  pub reverse_entry-once :
      (b : Books) (id : Text) (options options' : ReverseOptions) (now now' : Text)
      (r : Books × Entry)
      → reverse_entry h b id options now ≡ ok r
      → reverse_entry h r.0 id options' now' ≡ err already_reversed
  unfolding append find_entry reversal_of
  reverse_entry-once b id options options' now now' r e =
      let (draft, p, made) = reverse_entry-inv h b id options now r e in
      let entry = (append h b draft now).1 in
      let there = or_fail-eq-ok (find (λ e. text_eq e.id id) b.entries) _ p.original p.found in
      let named =
        All-find (λ _. Unit {0}) (λ e. text_eq e.id id) b.entries p.original (All-unit b.entries)
          there in
      let last : opt_eq draft.reverses (some id) ≡ true =
        rw p.reverses (opt_eq-some p.original.id id ∙ named.1) in
      subst (λ (r : Books × Entry). reverse_entry h r.0 id options' now' ≡ err already_reversed)
        (sym made)
        (refused (append h b draft now).0 id options' now' p.original
          (rw (find-snoc (λ e. text_eq e.id id) b.entries entry p.original there) refl)
          p.not_a_reversal
          (rw (find-last (λ e. opt_eq e.reverses (some id)) b.entries entry p.not_reversed last)
            refl))

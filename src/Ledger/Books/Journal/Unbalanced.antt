-- ===== src/Ledger/Books/Journal/Unbalanced.antt =====
-- Posting lines whose amounts add up is not refused as unbalanced (`postEntry` of
-- packages/ledger/src/books.ts).
use pnw.Base.{
  ◌≡◌, ◌≢◌, refl, sym, ◌∙◌, subst, true, Option, none, some, List, [], ◌∷◌, map, length, ltb, arith,
}
use pnw.Data.Int.{pos, eqb_ℤ, eqb_ℤ_iff}
use pnw.Data.Result.{
  ok, err, traverse, fail_if, >>=-eq-ok, >>=-ne-err, fail_if-ne-err, traverse-ne-err, ok-injective,
  ok-ne-err,
}
use pnw.Data.Sort.{total}
use pnw.Data.Text.{Text}
use pnw.Data.Dict.{Dict}
use pnw.Ledger.Errors.{unbalanced, bad_line}
use pnw.Ledger.Money.{Cents, sum_cents}
use pnw.Ledger.Periods.{assert_date, assert_open, period_of}
use pnw.Ledger.Accounts.{Account}
use pnw.Ledger.Books.State.{
  Books, EntryInput, Line, LineInput, Amount, bigint, not_bigint, account_map, Hashes,
}
use pnw.Ledger.Books.Journal.{
  normalize_line, normalize_lines, normalize_source, debits, credits, post, post_entry, is_reversal,
}
use pnw.Ledger.Books.Journal.Validity.{sum_cents-cons}

-- An amount as it is asked for: 0 where there is none.
abbrev pub asked : Option Amount → Cents
asked none = pos 0
asked (some (bigint c)) = c
asked (some not_bigint) = pos 0

abbrev pub asked_debits : List LineInput → Cents
asked_debits = total (λ i. asked i.debit)

abbrev pub asked_credits : List LineInput → Cents
asked_credits = total (λ i. asked i.credit)

module _ (accounts : Dict Account) where
  normalize_line-amounts :
      (i : LineInput) (l : Line)
      → normalize_line accounts i ≡ ok l
      → (l.debit ≡ asked i.debit) × (l.credit ≡ asked i.credit)
  unfolding normalize_line
  normalize_line-amounts i l h = ground arith

  normalize_line-ne-unbalanced : (i : LineInput) → normalize_line accounts i ≢ err unbalanced
  unfolding normalize_line
  normalize_line-ne-unbalanced i h = ground arith

  lines-amounts :
      (is : List LineInput) (ls : List Line)
      → traverse (normalize_line accounts) is ≡ ok ls
      → (debits ls ≡ asked_debits is) × (credits ls ≡ asked_credits is)
  unfolding sum_cents
  lines-amounts [] ls h = rw (sym (ok-injective [] ls h)) (refl, refl)
  lines-amounts (i ∷ is) ls h =
      let (l, hl, h1) = >>=-eq-ok (normalize_line accounts i) _ h in
      let (rest, hr, h2) =
        >>=-eq-ok (traverse (normalize_line accounts) is) (λ ys. ok (l ∷ ys)) h1 in
      let same = ok-injective (l ∷ rest) ls h2 in
      let one = normalize_line-amounts i l hl in
      let more = lines-amounts is rest hr in
      subst (λ ls. (debits ls ≡ asked_debits (i ∷ is)) × (credits ls ≡ asked_credits (i ∷ is))) same
        (
          sum_cents-cons l.debit (map (λ l. l.debit) rest) ∙ rw (one.0, more.0) refl,
          sum_cents-cons l.credit (map (λ l. l.credit) rest) ∙ rw (one.1, more.1) refl,
        )

pub normalize_lines-ne-unbalanced :
    (books : Books) (is : List LineInput)
    → asked_debits is ≡ asked_credits is
    → normalize_lines books is ≢ err unbalanced
unfolding normalize_lines
normalize_lines-ne-unbalanced books is even =
    >>=-ne-err (fail_if (ltb (length is) 2) _) _ unbalanced (fail_if-ne-err _ _ _ (λ e. cc)) (λ _ _.
      >>=-ne-err (traverse (normalize_line (account_map books)) is) _ unbalanced
        (traverse-ne-err _ is unbalanced (normalize_line-ne-unbalanced (account_map books)))
        (λ ls hls.
          let amounts = lines-amounts (account_map books) is ls hls in
          let same : eqb_ℤ (debits ls) (credits ls) ≡ true =
            (eqb_ℤ_iff (debits ls) (credits ls)).1 (amounts.0 ∙ even ∙ sym amounts.1) in
          rw same (λ e. cc)))

pub assert_date-ne-unbalanced : (t : Text) → assert_date t ≢ err unbalanced
unfolding assert_date
assert_date-ne-unbalanced t h = ground arith

module _ (h : Hashes) where
  -- Lines whose debits and credits add up to the same are not refused as unbalanced.
  pub post_entry-ne-unbalanced :
      (books : Books) (input : EntryInput) (now : Text)
      → asked_debits input.lines ≡ asked_credits input.lines
      → post_entry h books input now ≢ err unbalanced
  unfolding post_entry post assert_open period_of normalize_source
  post_entry-ne-unbalanced books input now even =
      >>=-ne-err (fail_if (is_reversal input.source) bad_line) (λ _. post h books input none now)
        unbalanced (fail_if-ne-err (is_reversal input.source) bad_line unbalanced (λ e. cc))
        (λ _ _.
          >>=-ne-err (assert_date input.date) _ unbalanced (assert_date-ne-unbalanced input.date)
            (λ date _.
              >>=-ne-err (assert_open books.marks date) _ unbalanced
                (λ e. ground (arith, assert_date-ne-unbalanced date))
                (λ _ _.
                  >>=-ne-err (normalize_source input.source) _ unbalanced (λ e. ground arith)
                    (λ _ _.
                      >>=-ne-err (normalize_lines books input.lines) _ unbalanced
                        (normalize_lines-ne-unbalanced books input.lines even)
                        (λ _ _. ok-ne-err _ unbalanced)))))

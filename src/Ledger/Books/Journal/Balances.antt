-- ===== src/Ledger/Books/Journal/Balances.antt =====
-- What reversing and editing an entry do to the balances (`reverseEntry`, `editEntry` and
-- `balanceOf` of packages/ledger/src/books.ts).
use pnw.Base.{
  ◌≡◌, sym, ap, ◌∙◌, Option, some, List, [], ◌∷◌, ◌++◌, map, foldl, Bool-cases, inl, inr,
}
use pnw.Data.Int.{pos, ◌+ℤ◌, int_laws, +ℤ_cancel_both, +ℤ_undo}
use pnw.Data.Result.{ok, ok-injective}
use pnw.Data.Text.{Text, text_eq}
use pnw.Ledger.Money.{Cents}
use pnw.Ledger.Periods.{IsoDate}
use pnw.Ledger.Books.State.{Books, Entry, EntryInput, Line, Hashes}
use pnw.Ledger.Books.Chart.{add_line, add_lines, balance_of}
use pnw.Ledger.Books.Journal.{reverse_entry, edit_entry, find_entry, mirror, append, ReverseOptions}
use pnw.Ledger.Books.Journal.Inversion.{reverse_entry-inv}
use pnw.Ledger.Books.Journal.Growth.{reverse_entry-extend, post-extend, extend}
use pnw.Ledger.Books.Journal.Preserve.{edit_entry-inv}

-- What a list of lines adds to the balance of an account.
pub effect : Text → List Line → Cents
effect id ls = add_lines id (pos 0) ls

add_lines-from :
    (id : Text) (ls : List Line) (bal : Cents)
    → add_lines id bal ls ≡ bal +ℤ add_lines id (pos 0) ls
unfolding add_line
add_lines-from id [] bal = omega int_laws
add_lines-from id (l ∷ ls) bal = rw (add_lines-from id ls (add_line id bal l)) (
    rw (add_lines-from id ls (add_line id (pos 0) l)) (elim (Bool-cases (text_eq l.account_id id)) [
      | inl hit ↦ rw hit (omega int_laws)
      | inr miss ↦ rw miss (omega int_laws)
    ]))

balance_from : Text → Cents → List Entry → Cents
balance_from id bal es = foldl (λ bal e. add_lines id bal e.lines) bal es

balance-snoc :
    (id : Text) (es : List Entry) (e : Entry) (bal : Cents)
    → balance_from id bal (es ++ e ∷ []) ≡ balance_from id bal es +ℤ effect id e.lines
unfolding balance_from effect
balance-snoc id [] e bal = add_lines-from id e.lines bal
balance-snoc id (x ∷ es) e bal = balance-snoc id es e (add_lines id bal x.lines)

effect-cons :
    (id : Text) (l : Line) (ls : List Line)
    → effect id (l ∷ ls) ≡ add_line id (pos 0) l +ℤ effect id ls
unfolding effect
effect-cons id l ls = add_lines-from id ls (add_line id (pos 0) l)

add_line-mirror :
    (id : Text) (l : Line) → add_line id (pos 0) (mirror l) +ℤ add_line id (pos 0) l ≡ pos 0
unfolding add_line
add_line-mirror id l = elim (Bool-cases (text_eq l.account_id id)) [
  | inl hit ↦ rw hit (omega int_laws)
  | inr miss ↦ rw miss (omega int_laws)
]

-- The mirror image takes back what the lines added.
effect-mirror : (id : Text) (ls : List Line) → effect id (map mirror ls) +ℤ effect id ls ≡ pos 0
unfolding effect
effect-mirror id [] = omega int_laws
effect-mirror id (l ∷ ls) =
    rw (effect-cons id (mirror l) (map mirror ls)) (
      rw (effect-cons id l ls)
        (+ℤ_cancel_both _ _ _ _ (add_line-mirror id l) (effect-mirror id ls)))

extend-balance :
    (b : Books) (id : Text) (e : Entry)
    → balance_of (extend b (e ∷ [])) id ≡ balance_of b id +ℤ effect id e.lines
unfolding balance_of balance_from
extend-balance b id e = balance-snoc id b.entries e (pos 0)

module _ (h : Hashes) where
  reversal_lines :
      (b : Books) (id : Text) (options : ReverseOptions) (now : Text) (r : Books × Entry)
      (original : Entry)
      → find_entry b id ≡ ok original
      → reverse_entry h b id options now ≡ ok r
      → r.1.lines ≡ map mirror original.lines
  unfolding append
  reversal_lines b id options now r original found e =
      let (draft, p, made) = reverse_entry-inv h b id options now r e in
      let same = ok-injective p.original original (sym p.found ∙ found) in
      ap (λ (r : Books × Entry). r.1.lines) made
      ∙ p.lines
      ∙ ap (λ (e : Entry). map mirror e.lines) same

  -- After a reversal that succeeds, the balance of any account, with what the reversed entry's lines
  -- add to it put back, is the balance from before.
  pub reverse_entry-balance :
      (b : Books) (id : Text) (options : ReverseOptions) (now : Text) (r : Books × Entry)
      (original : Entry) (account : Text)
      → find_entry b id ≡ ok original
      → reverse_entry h b id options now ≡ ok r
      → balance_of r.0 account +ℤ effect account original.lines ≡ balance_of b account
  reverse_entry-balance b id options now r original account found e =
      let lines = reversal_lines b id options now r original found e in
      let grown = ap (λ b. balance_of b account) (reverse_entry-extend h b id options now r e) in
      rw (grown ∙ extend-balance b account r.1)
        (rw lines (+ℤ_undo _ _ _ (effect-mirror account original.lines)))

  -- After an edit that succeeds every balance is the one from before, less what the original's lines
  -- add to it and with what the replacement's lines add.
  pub edit_entry-balance :
      (b : Books) (id : Text) (corrected : EntryInput) (date : Option IsoDate)
      (now_reversed now_posted : Text) (r : Books × Entry × Entry) (original : Entry)
      (account : Text)
      → find_entry b id ≡ ok original
      → edit_entry h b id corrected date now_reversed now_posted ≡ ok r
      → balance_of r.0 account +ℤ effect account original.lines
        ≡ balance_of b account +ℤ effect account r.2.lines
  edit_entry-balance b id corrected date now_reversed now_posted r original account found e =
      let (original', rev, found', reversed, posted, _) =
        edit_entry-inv h b id corrected date now_reversed now_posted r e in
      let undone = reverse_entry-balance b id _ now_reversed rev original account found reversed in
      let grown =
        ap (λ b. balance_of b account)
          (post-extend h rev.0 _ (some id) now_posted (r.0, r.2) posted)
        ∙ extend-balance rev.0 account r.2 in
      rw (grown, ← undone) (omega int_laws)

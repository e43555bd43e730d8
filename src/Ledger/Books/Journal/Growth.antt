-- ===== src/Ledger/Books/Journal/Growth.antt =====
-- Operations on the journal of packages/ledger/src/books.ts only add entries at the end: one for a
-- posting or a reversal, the reversal and then the replacement for an edit.
use pnw.Base.{◌≡◌, refl, sym, ◌∙◌, subst, Option, none, some, List, [], ◌∷◌, ◌++◌, ap}
use mathlib.Core.List.{append_assoc}
use pnw.Data.Result.{ok, >>=-eq-ok, fail_if}
use pnw.Data.Text.{Text}
use pnw.Ledger.Errors.{bad_line}
use pnw.Ledger.Periods.{IsoDate}
use pnw.Ledger.Books.State.{Books, Entry, EntryInput, Hashes}
use pnw.Ledger.Books.Journal.{
  Draft, append, post, post_entry, reverse_entry, edit_entry, ReverseOptions, is_reversal,
}
use pnw.Ledger.Books.Journal.Inversion.{post-inv, reverse_entry-inv}
use pnw.Ledger.Books.Journal.Preserve.{edit_entry-inv}

-- The books with more entries at the end, and nothing else changed.
abbrev pub extend : Books → List Entry → Books
extend b es = record b { entries = b.entries ++ es }

module _ (h : Hashes) where
  append-extend :
      (b : Books) (draft : Draft) (now : Text) (r : Books × Entry)
      → r ≡ append h b draft now
      → r.0 ≡ extend b (r.1 ∷ [])
  unfolding append
  append-extend b draft now r e =
      subst (λ (r : Books × Entry). r.0 ≡ extend b (r.1 ∷ [])) (sym e) refl

  pub post-extend :
      (b : Books) (input : EntryInput) (replaces : Option Text) (now : Text) (r : Books × Entry)
      → post h b input replaces now ≡ ok r
      → r.0 ≡ extend b (r.1 ∷ [])
  post-extend b input replaces now r e =
      let (draft, _, _, _, made) = post-inv h b input replaces now r e in
      append-extend b draft now r made

  pub post_entry-extend :
      (b : Books) (input : EntryInput) (now : Text) (r : Books × Entry)
      → post_entry h b input now ≡ ok r
      → r.0 ≡ extend b (r.1 ∷ [])
  unfolding post_entry
  post_entry-extend b input now r e =
      let (u, _, e') =
        >>=-eq-ok (fail_if (is_reversal input.source) bad_line) (λ _. post h b input none now) e in
      post-extend b input none now r e'

  pub reverse_entry-extend :
      (b : Books) (id : Text) (options : ReverseOptions) (now : Text) (r : Books × Entry)
      → reverse_entry h b id options now ≡ ok r
      → r.0 ≡ extend b (r.1 ∷ [])
  reverse_entry-extend b id options now r e =
      let (draft, _, made) = reverse_entry-inv h b id options now r e in
      append-extend b draft now r made

  pub edit_entry-extend :
      (b : Books) (id : Text) (corrected : EntryInput) (date : Option IsoDate)
      (now_reversed now_posted : Text) (r : Books × Entry × Entry)
      → edit_entry h b id corrected date now_reversed now_posted ≡ ok r
      → r.0 ≡ extend b (r.1 ∷ r.2 ∷ [])
  edit_entry-extend b id corrected date now_reversed now_posted r e =
      let (original, rev, _, reversed, posted, same) =
        edit_entry-inv h b id corrected date now_reversed now_posted r e in
      let one = reverse_entry-extend b id _ now_reversed rev reversed in
      let two = post-extend rev.0 _ (some id) now_posted (r.0, r.2) posted in
      two
      ∙ ap (λ b'. extend b' (r.2 ∷ [])) one
      ∙ ap (λ es. record b { entries = es }) (append_assoc b.entries (rev.1 ∷ []) (r.2 ∷ []))
      ∙ ap (λ e. extend b (e ∷ r.2 ∷ [])) (sym same)

-- ===== src/Ledger/Books/Journal/Preserve.antt =====
-- Each operation on the journal of packages/ledger/src/books.ts keeps its invariant and only adds
-- entries at the end.
use pnw.Base.{
  ◌≡◌, refl, sym, ◌∙◌, subst, true, false, Option, none, some, arith, All-snoc, All-find, length,
  select, or_else, find, inl, inr, Bool-cases,
}
use pnw.Data.Result.{ok, >>=-eq-ok, fail_if, or_fail-eq-ok, ok-injective}
use pnw.Data.Text.{Text, text_eq, text_eq_iff, opt_eq, opt_eq-none, opt_eq-some, truthy}
use pnw.Ledger.Periods.{IsoDate, assert_date, assert_open}
use pnw.Ledger.Books.State.{Books, Entry, EntryInput, Hashes}
use pnw.Ledger.Books.Chain.Growth.{verify_chain-append}
use pnw.Ledger.Books.Journal.{
  Draft, append, post, post_entry, reverse_entry, edit_entry, find_entry, reversal_of,
  ReverseOptions, bad_doc_hash, normalize_source, normalize_lines, is_reversal,
}
use pnw.Ledger.Books.Journal.Inversion.{AreLines, post-inv, reverse_entry-inv}
use pnw.Ledger.Books.Journal.Validity.{
  IsEntry, IsValid, cancels, mirror-AreLines, select-snoc, find-none-select, IsNumbered-snoc,
}

module _ (h : Hashes) where
  -- What an appended draft has to meet.
  pub append-IsValid :
      (books : Books) (draft : Draft) (now : Text)
      → IsValid h books
      → AreLines books.accounts draft.lines
      → assert_date draft.date ≡ ok draft.date
      → bad_doc_hash draft.source ≡ false
      → ((id : Text)
          → opt_eq draft.reverses (some id) ≡ true
          → length (select (cancels id) books.entries) ≡ 0)
      → IsValid h (append h books draft now).0
  unfolding append
  append-IsValid books draft now v lines dated source fresh = record {
    entries_ok =
        All-snoc (IsEntry books.accounts) books.entries _ v.entries_ok
          (record { lines = lines; dated = dated; source = source });
    numbered = IsNumbered-snoc 0 books.entries _ v.numbered (omega arith) refl;
    chain = unfold append in verify_chain-append h books draft now v.chain;
    reversed_once = λ id. elim (Bool-cases (opt_eq draft.reverses (some id))) [
      | inl hit ↦
          ground (
            arith,
            select-snoc (cancels id) books.entries (append h books draft now).1,
            fresh id hit,
          )
      | inr miss ↦ ground (
        arith,
        select-snoc (cancels id) books.entries (append h books draft now).1,
        v.reversed_once id,
      )
    ];
  }

  pub post-IsValid :
      (books : Books) (input : EntryInput) (replaces : Option Text) (now : Text) (r : Books × Entry)
      → IsValid h books
      → post h books input replaces now ≡ ok r
      → IsValid h r.0
  post-IsValid books input replaces now r v e =
      let (draft, p, none_reversed, _, made) = post-inv h books input replaces now r e in
      subst (λ (r : Books × Entry). IsValid h r.0) (sym made)
        (append-IsValid books draft now v p.lines p.dated p.source
          (λ id hit. ground (arith, opt_eq-none id)))

  pub reverse_entry-IsValid :
      (books : Books) (id : Text) (options : ReverseOptions) (now : Text) (r : Books × Entry)
      → IsValid h books
      → reverse_entry h books id options now ≡ ok r
      → IsValid h r.0
  unfolding find_entry reversal_of
  reverse_entry-IsValid books id options now r v e =
      let (draft, p, made) = reverse_entry-inv h books id options now r e in
      let (good, same) =
        All-find (IsEntry books.accounts) (λ e. text_eq e.id id) books.entries p.original
          v.entries_ok
          (or_fail-eq-ok (find (λ e. text_eq e.id id) books.entries) _ p.original p.found) in
      let named : p.original.id ≡ id = (text_eq_iff p.original.id id).0 same in
      subst (λ (r : Books × Entry). IsValid h r.0) (sym made)
        (append-IsValid books draft now v
          (subst (AreLines books.accounts) (sym p.lines)
            (mirror-AreLines books.accounts p.original.lines good.lines))
          p.dated p.source
          λ id' hit.
            let e : p.original.id ≡ id' =
              ground (arith, opt_eq-some p.original.id id', text_eq_iff p.original.id id') in
            subst (λ t. length (select (cancels t) books.entries) ≡ 0) (sym named ∙ e)
              (find-none-select (cancels id) books.entries p.not_reversed))

  -- A posting keeps the books valid.
  pub post_entry-IsValid :
      (books : Books) (input : EntryInput) (now : Text) (r : Books × Entry)
      → IsValid h books
      → post_entry h books input now ≡ ok r
      → IsValid h r.0
  unfolding post_entry
  post_entry-IsValid books input now r v e =
      let (u, _, e') = >>=-eq-ok (fail_if (is_reversal input.source) _) _ e in
      post-IsValid books input none now r v e'

  pub edit_entry-inv :
      (books : Books) (id : Text) (corrected : EntryInput) (date : Option IsoDate)
      (now_reversed now_posted : Text) (r : Books × Entry × Entry)
      → edit_entry h books id corrected date now_reversed now_posted ≡ ok r
      → (original : Entry) × (reversed : Books × Entry) × (find_entry books id ≡ ok original)
        × (reverse_entry h books id (record { date = truthy date; memo = none }) now_reversed
            ≡ ok reversed)
        × (post h reversed.0
              (record corrected { source = some (or_else corrected.source original.source) })
              (some id)
              now_posted
            ≡ ok (r.0, r.2))
        × (r.1 ≡ reversed.1)
  unfolding edit_entry
  edit_entry-inv books id corrected date now_reversed now_posted r e =
      let (original, found, e1) = >>=-eq-ok (find_entry books id) _ e in
      let (d, _, e2) = >>=-eq-ok (assert_date corrected.date) _ e1 in
      let (u, _, e3) = >>=-eq-ok (assert_open books.marks d) _ e2 in
      let (s, _, e4) = >>=-eq-ok (normalize_source corrected.source) _ e3 in
      let (ls, _, e5) = >>=-eq-ok (normalize_lines books corrected.lines) _ e4 in
      let (reversed, rev, e6) = >>=-eq-ok (reverse_entry h books id _ now_reversed) _ e5 in
      let (posted, post_ok, e7) = >>=-eq-ok (post h reversed.0 _ (some id) now_posted) _ e6 in
      let t : Books × Entry × Entry = (posted.0, reversed.1, posted.1) in
      let same = ok-injective t r e7 in
      (
        original,
        reversed,
        found,
        rev,
        subst
            (λ (r : Books × Entry × Entry).
              post h reversed.0
                (record corrected { source = some (or_else corrected.source original.source) })
                (some id) now_posted
              ≡ ok (r.0, r.2))
            same post_ok,
        subst (λ (r : Books × Entry × Entry). r.1 ≡ reversed.1) same refl,
      )

  pub edit_entry-IsValid :
      (books : Books) (id : Text) (corrected : EntryInput) (date : Option IsoDate)
      (now_reversed now_posted : Text) (r : Books × Entry × Entry)
      → IsValid h books
      → edit_entry h books id corrected date now_reversed now_posted ≡ ok r
      → IsValid h r.0
  edit_entry-IsValid books id corrected date now_reversed now_posted r v e =
      let (original, reversed, _, rev, posted, _) =
        edit_entry-inv books id corrected date now_reversed now_posted r e in
      post-IsValid reversed.0 _ (some id) now_posted (r.0, r.2)
        (reverse_entry-IsValid books id _ now_reversed reversed v rev) posted

-- ===== src/Ledger/Books/Journal/Inversion.antt =====
-- What a successful posting or reversal of packages/ledger/src/books.ts has checked, and the draft
-- that it appends.
use pnw.Base.{
  ◌≡◌, refl, true, false, not, Option, none, some, List, [], ◌∷◌, map, arith, subst, ap, suc,
  or_else, All, any, length, ltb, ◌≤◌,
}
use pnw.Data.Int.{pos, ◌≤ℤ◌, ltb_ℤ, eqb_ℤ, eqb_ℤ_iff}
use pnw.Data.Result.{ok, fail_if, traverse, >>=-eq-ok}
use pnw.Data.Text.{Text, truthy, is_truthy}
use pnw.Ledger.Periods.{IsoDate, assert_date, assert_open, period_of}
use pnw.Ledger.Accounts.{Account}
use pnw.Ledger.Books.State.{
  Books, Entry, EntryInput, Line, LineInput, Source, account_map, map_of, Hashes, reversal,
}
use pnw.Ledger.Books.Chart.{has_id}
use pnw.Ledger.Books.Chart.Keys.{lookup_cases}
use pnw.Ledger.Books.Journal.{
  Draft, normalize_line, normalize_lines, normalize_source, debits, credits, find_entry,
  reversal_of, mirror, append, post, reverse_entry, ReverseOptions, bad_doc_hash, is_some,
  reversal_memo, period_is_locked,
}

-- A line has one positive column and a zero one, and hits an account of the chart.
pub record IsLine (accounts : List Account) (l : Line) : Type 0 where
  pub one_sided : ltb_ℤ (pos 0) l.debit ≡ not (ltb_ℤ (pos 0) l.credit)
  pub debit_nonneg : pos 0 ≤ℤ l.debit
  pub credit_nonneg : pos 0 ≤ℤ l.credit
  pub known : any (has_id l.account_id) accounts ≡ true

-- The first rule of the books: debits equal credits.
abbrev pub IsBalanced : List Line → Type 0
IsBalanced lines = debits lines ≡ credits lines

pub record AreLines (accounts : List Account) (lines : List Line) : Type 0 where
  pub lines_ok : All (IsLine accounts) lines
  pub balanced : IsBalanced lines
  pub two : 2 ≤ length lines

pub normalize_line-IsLine :
    (accounts : List Account) (input : LineInput) (l : Line)
    → normalize_line (map_of accounts) input ≡ ok l
    → IsLine accounts l
unfolding normalize_line
normalize_line-IsLine accounts input l h = ground (arith, lookup_cases accounts input.account_id)

traverse-IsLine :
    (accounts : List Account) (inputs : List LineInput) (lines : List Line)
    → traverse (normalize_line (map_of accounts)) inputs ≡ ok lines
    → All (IsLine accounts) lines × (length lines ≡ length inputs)
traverse-IsLine accounts [] lines h =
    let e : [] ≡ lines = cc in subst (λ ls. All (IsLine accounts) ls × (length ls ≡ 0)) e (tt, refl)
traverse-IsLine accounts (i ∷ inputs) lines h =
    let (l, hl, h') = >>=-eq-ok (normalize_line (map_of accounts) i) _ h in
    let (ls, hls, h'') = >>=-eq-ok (traverse (normalize_line (map_of accounts)) inputs) _ h' in
    let e : l ∷ ls ≡ lines = cc in
    let (rest, n) = traverse-IsLine accounts inputs ls hls in
    subst (λ k. All (IsLine accounts) k × (length k ≡ length (i ∷ inputs))) e
      ((normalize_line-IsLine accounts i l hl, rest), ap suc n)

pub normalize_lines-AreLines :
    (books : Books) (inputs : List LineInput) (lines : List Line)
    → normalize_lines books inputs ≡ ok lines
    → AreLines books.accounts lines
unfolding normalize_lines account_map
normalize_lines-AreLines books inputs lines h =
    let (u, h1, h') = >>=-eq-ok (fail_if (ltb (length inputs) 2) _) _ h in
    let (ls, h2, h'') = >>=-eq-ok (traverse (normalize_line (map_of books.accounts)) inputs) _ h' in
    let (good, n) = traverse-IsLine books.accounts inputs ls h2 in
    let (u', h3, h4) =
      >>=-eq-ok (fail_if (not (eqb_ℤ (debits ls) (credits ls))) _) (λ _. ok ls) h'' in
    let e : ls ≡ lines = cc in
    subst (AreLines books.accounts) e (record {
      lines_ok = good;
      balanced = ground (arith, eqb_ℤ_iff (debits ls) (credits ls));
      two = ground arith;
    })

-- Everything that is checked before a draft is appended.
pub record IsPostable (books : Books) (draft : Draft) : Type 0 where
  pub dated : assert_date draft.date ≡ ok draft.date
  pub open_period : assert_open books.marks draft.date ≡ ok tt
  pub lines : AreLines books.accounts draft.lines
  pub source : bad_doc_hash draft.source ≡ false

pub assert_date-same : (t d : IsoDate) → assert_date t ≡ ok d → t ≡ d
unfolding assert_date
assert_date-same t d h = ground arith

normalize_source-good :
    (o : Option Source) (s : Source) → normalize_source o ≡ ok s → bad_doc_hash s ≡ false
unfolding normalize_source
normalize_source-good none s h = ground arith
normalize_source-good (some s') s h = ground arith

-- What `reverse_entry` appends: the original's mirror image, in an open period.
pub record IsReversal (books : Books) (id : Text) (draft : Draft) : Type 0 where
  pub original : Entry
  pub found : find_entry books id ≡ ok original
  pub not_a_reversal : is_truthy original.reverses ≡ false
  pub not_reversed : reversal_of books id ≡ none
  pub period : Text
  pub original_period : period_of original.date ≡ ok period
  pub not_locked : period_is_locked books period ≡ false
  pub dated : assert_date draft.date ≡ ok draft.date
  pub open_period : assert_open books.marks draft.date ≡ ok tt
  pub lines : draft.lines ≡ map mirror original.lines
  pub reverses : draft.reverses ≡ some original.id
  pub replaces : draft.replaces ≡ none
  pub source : bad_doc_hash draft.source ≡ false

module _ (h : Hashes) where
  pub post-inv :
      (books : Books) (input : EntryInput) (replaces : Option Text) (now : Text) (r : Books × Entry)
      → post h books input replaces now ≡ ok r
      → (draft : Draft) × IsPostable books draft
        × (draft.reverses ≡ none)
        × (draft.replaces ≡ replaces)
        × (r ≡ append h books draft now)
  unfolding post
  post-inv books input replaces now r e =
      let (date, hd, e1) = >>=-eq-ok (assert_date input.date) _ e in
      let (u, ho, e2) = >>=-eq-ok (assert_open books.marks date) _ e1 in
      let (source, hs, e3) = >>=-eq-ok (normalize_source input.source) _ e2 in
      let (lines, hl, e4) = >>=-eq-ok (normalize_lines books input.lines) _ e3 in
      (
        record {
          date = date;
          memo = truthy input.memo;
          source = source;
          lines = lines;
          reverses = none;
          replaces = replaces;
        },
        record {
          dated = subst (λ t. assert_date t ≡ ok date) (assert_date-same input.date date hd) hd;
          open_period = ho;
          lines = normalize_lines-AreLines books input.lines lines hl;
          source = normalize_source-good input.source source hs;
        },
        refl,
        refl,
        cc,
      )

  is_some-none : {A : Type 0} (o : Option A) → is_some o ≡ false → o ≡ none
  is_some-none none e = refl
  is_some-none (some a) e = cc

  pub reverse_entry-inv :
      (books : Books) (id : Text) (options : ReverseOptions) (now : Text) (r : Books × Entry)
      → reverse_entry h books id options now ≡ ok r
      → (draft : Draft) × IsReversal books id draft × (r ≡ append h books draft now)
  unfolding reverse_entry
  reverse_entry-inv books id options now r e =
      let (original, found, e1) = >>=-eq-ok (find_entry books id) _ e in
      let (u1, g1, e2) = >>=-eq-ok (fail_if (is_truthy original.reverses) _) _ e1 in
      let (u2, g2, e3) = >>=-eq-ok (fail_if (is_some (reversal_of books id)) _) _ e2 in
      let (period, g3, e4) = >>=-eq-ok (period_of original.date) _ e3 in
      let (u3, g4, e5) = >>=-eq-ok (fail_if (period_is_locked books period) _) _ e4 in
      let (date, hd, e6) = >>=-eq-ok (assert_date (or_else options.date original.date)) _ e5 in
      let (u4, ho, e7) = >>=-eq-ok (assert_open books.marks date) _ e6 in
      (
        record {
          date = date;
          memo = some (or_else options.memo (reversal_memo original));
          source = record { kind = reversal; ref = some original.id; doc = none };
          lines = map mirror original.lines;
          reverses = some original.id;
          replaces = none;
        },
        record {
          original = original;
          found = found;
          not_a_reversal = ground arith;
          not_reversed = is_some-none (reversal_of books id) (ground arith);
          period = period;
          original_period = g3;
          not_locked = ground arith;
          dated =
              subst (λ t. assert_date t ≡ ok date)
                (assert_date-same (or_else options.date original.date) date hd) hd;
          open_period = ho;
          lines = refl;
          reverses = refl;
          replaces = refl;
          source = refl;
        },
        cc,
      )

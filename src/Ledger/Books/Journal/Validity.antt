-- ===== src/Ledger/Books/Journal/Validity.antt =====
-- The invariant of the journal of packages/ledger/src/books.ts, and that each operation on the
-- journal keeps it.
use pnw.Base.{
  ℕ, suc, ◌+◌, ◌≤◌, ◌≡◌, refl, sym, ap, ◌∙◌, Bool, false, none, some, List, [], ◌∷◌, ◌++◌, map,
  arith, All, length, foldl, select, find, if◌then◌else◌,
}
use pnw.Data.Int.{pos, ◌+ℤ◌, int_laws}
use pnw.Data.Result.{ok}
use pnw.Data.Text.{Text, opt_eq}
use pnw.Ledger.Money.{Cents, sum_cents}
use pnw.Ledger.Periods.{assert_date}
use pnw.Ledger.Accounts.{Account}
use pnw.Ledger.Books.State.{Books, Entry, Line, Hashes}
use pnw.Ledger.Books.Chain.{intact, verify_chain}
use pnw.Ledger.Books.Journal.{debits, credits, mirror, bad_doc_hash, entry_id}
use pnw.Ledger.Books.Journal.Inversion.{IsLine, AreLines}

pub record IsEntry (accounts : List Account) (e : Entry) : Type 0 where
  pub lines : AreLines accounts e.lines
  pub dated : assert_date e.date ≡ ok e.date
  pub source : bad_doc_hash e.source ≡ false

-- Whether an entry is a reversal of the entry `id`.
abbrev pub cancels : Text → Entry → Bool
cancels id e = opt_eq e.reverses (some id)

-- Entry number i has the sequence number i and the id `je-i`.
abbrev pub IsNumbered : ℕ → List Entry → Type 0
IsNumbered i [] = Unit
IsNumbered i (e ∷ es) = (e.seq ≡ i + 1) × (e.id ≡ entry_id (i + 1)) × IsNumbered (i + 1) es

pub record IsValid (h : Hashes) (books : Books) : Type 0 where
  pub entries_ok : All (IsEntry books.accounts) books.entries
  pub numbered : IsNumbered 0 books.entries
  pub chain : verify_chain h books ≡ intact
  pub reversed_once : (id : Text) → length (select (cancels id) books.entries) ≤ 1

-- Sums of a column, and the mirror image.
abbrev add_from : Cents → List Cents → Cents
add_from acc vs = foldl (λ t v. t +ℤ v) acc vs

sum_from : (vs : List Cents) (acc : Cents) → add_from acc vs ≡ acc +ℤ add_from (pos 0) vs
sum_from [] acc = omega int_laws
sum_from (v ∷ vs) acc = rw (sum_from vs (acc +ℤ v)) (rw (sum_from vs (pos 0 +ℤ v)) (omega int_laws))

pub sum_cents-cons : (v : Cents) (vs : List Cents) → sum_cents (v ∷ vs) ≡ v +ℤ sum_cents vs
unfolding sum_cents
sum_cents-cons v vs = rw (sum_from vs (pos 0 +ℤ v)) (omega int_laws)

pub debits-mirror : (ls : List Line) → debits (map mirror ls) ≡ credits ls
debits-mirror [] = refl
debits-mirror (l ∷ ls) = cc (
  sum_cents-cons l.credit (map (λ l. l.debit) (map mirror ls)),
  sum_cents-cons l.credit (map (λ l. l.credit) ls),
  debits-mirror ls,
)

pub credits-mirror : (ls : List Line) → credits (map mirror ls) ≡ debits ls
credits-mirror [] = refl
credits-mirror (l ∷ ls) = cc (
  sum_cents-cons l.debit (map (λ l. l.credit) (map mirror ls)),
  sum_cents-cons l.debit (map (λ l. l.debit) ls),
  credits-mirror ls,
)

All-mirror :
    (accounts : List Account) (ls : List Line)
    → All (IsLine accounts) ls
    → All (IsLine accounts) (map mirror ls)
All-mirror accounts [] h = tt
All-mirror accounts (l ∷ ls) h = (
  record {
    one_sided = ground arith;
    debit_nonneg = ground arith;
    credit_nonneg = ground arith;
    known = ground arith;
  },
  All-mirror accounts ls h.1,
)

length-mirror : (ls : List Line) → length (map mirror ls) ≡ length ls
length-mirror [] = refl
length-mirror (l ∷ ls) = ap suc (length-mirror ls)

pub mirror-AreLines :
    (accounts : List Account) (ls : List Line)
    → AreLines accounts ls
    → AreLines accounts (map mirror ls)
mirror-AreLines accounts ls h = record {
  lines_ok = All-mirror accounts ls h.lines_ok;
  balanced = debits-mirror ls ∙ sym h.balanced ∙ sym (credits-mirror ls);
  two = omega (arith, length-mirror ls);
}

pub select-snoc :
    (p : Entry → Bool) (es : List Entry) (e : Entry)
    → length (select p (es ++ e ∷ [])) ≡ length (select p es) + (if p e then 1 else 0)
select-snoc p [] e = ground arith
select-snoc p (x ∷ es) e = ground (arith, select-snoc p es e)

pub find-none-select :
    (p : Entry → Bool) (es : List Entry) → find p es ≡ none → length (select p es) ≡ 0
find-none-select p [] h = refl
find-none-select p (x ∷ es) h = ground (arith, find-none-select p es)

pub IsNumbered-snoc :
    (i : ℕ) (es : List Entry) (e : Entry)
    → IsNumbered i es
    → e.seq ≡ i + length es + 1
    → e.id ≡ entry_id e.seq
    → IsNumbered i (es ++ e ∷ [])
IsNumbered-snoc i [] e n s d = let p : e.seq ≡ i + 1 = omega arith in (p, d ∙ ap entry_id p, tt)
IsNumbered-snoc i (x ∷ es) e n s d = (n.0, n.1, IsNumbered-snoc (i + 1) es e n.2 (omega arith) d)

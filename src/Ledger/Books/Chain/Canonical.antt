-- ===== src/Ledger/Books/Chain/Canonical.antt =====
-- What the canonical text of an entry determines (`canonicalEntry` of packages/ledger/src/hash.ts).
use pnw.Base.{
  ℕ, zero, suc, ◌+◌, if◌then◌else◌, ◌≡◌, refl, sym, ap, ◌∙◌, Option, none, some, List, [], ◌∷◌, map,
  arith,
}
use pnw.Data.Int.{ℤ, pos, negsuc}
use pnw.Data.Text.{Text, text_eq}
use pnw.Data.Decimal.{show-injective}
use pnw.Data.Json.{Json, null, num, str, arr, Items, nil, cons}
use pnw.Data.Json.Values.{stringify-inj, show-ne-minus}
use pnw.Data.Json.Strings.{tail_eq}
use pnw.Ledger.Books.State.{
  NameKind, customer, vendor, employee, other, NameRef, Tags, Line, SourceKind, manual,
  opening_balance, invoice, payment, deposit, bill, bill_payment, expense, payroll, tax_payment,
  sales_tax_payment, reversal, Unhashed, opt, opt_name, show_cents, kind_text, name_kind_text,
  items, canonical_line, canonical_entry,
}

-- The labels of a line: a line without tags is hashed like one whose tags are all missing.
abbrev pub label : (Tags → Option Text) → Line → Option Text
label f l = elim l.tags [ none ↦ none | some t ↦ f t ]

-- Two lines that agree in everything that is hashed.
pub record SameLine (l k : Line) : Type 0 where
  pub account_id : l.account_id ≡ k.account_id
  pub debit : l.debit ≡ k.debit
  pub credit : l.credit ≡ k.credit
  pub memo : l.memo ≡ k.memo
  pub name : l.name ≡ k.name
  pub class : label (λ t. t.class) l ≡ label (λ t. t.class) k
  pub location : label (λ t. t.location) l ≡ label (λ t. t.location) k
  pub project : label (λ t. t.project) l ≡ label (λ t. t.project) k

abbrev pub SameLines : List Line → List Line → Type 0
SameLines [] [] = Unit
SameLines [] (k ∷ ks) = ⊥
SameLines (l ∷ ls) [] = ⊥
SameLines (l ∷ ls) (k ∷ ks) = SameLine l k × SameLines ls ks

pub record SameBody (e f : Unhashed) : Type 0 where
  pub id : e.id ≡ f.id
  pub seq : e.seq ≡ f.seq
  pub date : e.date ≡ f.date
  pub memo : e.memo ≡ f.memo
  pub source : e.source ≡ f.source
  pub lines : SameLines e.lines f.lines
  pub posted_at : e.posted_at ≡ f.posted_at
  pub reverses : e.reverses ≡ f.reverses
  pub replaces : e.replaces ≡ f.replaces
  pub prev_hash : e.prev_hash ≡ f.prev_hash

show_cents-inj : (a b : ℤ) → show_cents a ≡ show_cents b → a ≡ b
show_cents-inj (pos a) (pos b) e = ap pos (show-injective a b e)
show_cents-inj (pos a) (negsuc b) e = absurd (show-ne-minus a _ e)
show_cents-inj (negsuc a) (pos b) e = absurd (show-ne-minus b _ (sym e))
show_cents-inj (negsuc a) (negsuc b) e =
    ap negsuc (omega (arith, show-injective (a + 1) (b + 1) (tail_eq b'-' _ _ e)))

opt-inj : (a b : Option Text) → opt a ≡ opt b → a ≡ b
opt-inj none none e = refl
opt-inj none (some b) e = cc
opt-inj (some a) none e = cc
opt-inj (some a) (some b) e = ground arith

some_eq : {A : Type 0} {a b : A} → some a ≡ some b → a ≡ b
some_eq e = cc

-- The kinds, read back from their words.
kind_of : Text → Option NameKind
kind_of t =
    if text_eq t (name_kind_text customer)
    then some customer
    else if text_eq t (name_kind_text vendor)
    then some vendor
    else if text_eq t (name_kind_text employee)
    then some employee
    else some other

kind_of-text : (k : NameKind) → kind_of (name_kind_text k) ≡ some k
unfolding kind_of name_kind_text text_eq
kind_of-text customer = refl
kind_of-text vendor = refl
kind_of-text employee = refl
kind_of-text other = refl

name_kind-inj : (a b : NameKind) → name_kind_text a ≡ name_kind_text b → a ≡ b
name_kind-inj a b e = some_eq (sym (kind_of-text a) ∙ ap kind_of e ∙ kind_of-text b)

-- Item number i of a JSON array.
abbrev item : ℕ → Json → Json
item zero (arr (cons j js)) = j
item (suc i) (arr (cons j js)) = item i (arr js)
item i j = null

str-inj : (a b : Text) → str a ≡ str b → a ≡ b
str-inj a b e = cc

num-inj : (a b : ℕ) → num a ≡ num b → a ≡ b
num-inj a b e = cc

arr-inj : (a b : Items) → arr a ≡ arr b → a ≡ b
arr-inj a b e = cc

name-inj :
    (m n : Option NameRef)
    → opt_name m (λ n. str (name_kind_text n.kind)) ≡ opt_name n (λ n. str (name_kind_text n.kind))
    → opt_name m (λ n. str n.id) ≡ opt_name n (λ n. str n.id)
    → m ≡ n
name-inj none none e f = refl
name-inj none (some n) e f = cc
name-inj (some m) none e f = cc
name-inj (some m) (some n) e f =
    let k = name_kind-inj m.kind n.kind (str-inj _ _ e) in
    let i = str-inj _ _ f in λ t. some (record { kind = k t; id = i t })

label-inj :
    (f : Tags → Option Text) (l k : Line)
    → opt_name l.tags (λ t. opt (f t)) ≡ opt_name k.tags (λ t. opt (f t))
    → label f l ≡ label f k
label-inj f l k e = opt-inj (label f l) (label f k) (at l ∙ e ∙ sym (at k))
  where
    go :
        (o : Option Tags)
        → opt (elim o [ none ↦ none | some t ↦ f t ]) ≡ opt_name o (λ t. opt (f t))
    go none = refl
    go (some t) = refl

    at : (l : Line) → opt (label f l) ≡ opt_name l.tags (λ t. opt (f t))
    at l = go l.tags

canonical_line-inj : (l k : Line) → canonical_line l ≡ canonical_line k → SameLine l k
canonical_line-inj l k e = record {
  account_id = str-inj _ _ (ap (item 0) e);
  debit = show_cents-inj l.debit k.debit (str-inj _ _ (ap (item 1) e));
  credit = show_cents-inj l.credit k.credit (str-inj _ _ (ap (item 2) e));
  memo = opt-inj l.memo k.memo (ap (item 3) e);
  name = name-inj l.name k.name (ap (item 4) e) (ap (item 5) e);
  class = label-inj (λ t. t.class) l k (ap (item 6) e);
  location = label-inj (λ t. t.location) l k (ap (item 7) e);
  project = label-inj (λ t. t.project) l k (ap (item 8) e);
}

lines-inj :
    (ls ks : List Line)
    → items (map canonical_line ls) ≡ items (map canonical_line ks)
    → SameLines ls ks
lines-inj [] [] e = tt
lines-inj [] (k ∷ ks) e = cc
lines-inj (l ∷ ls) [] e = cc
lines-inj (l ∷ ls) (k ∷ ks) e =
    (canonical_line-inj l k (ap (λ js. item 0 (arr js)) e), lines-inj ls ks (ap rest e))
  where
    rest : Items → Items
    rest nil = nil
    rest (cons j js) = js

source_of : Text → Option SourceKind
source_of t =
    if text_eq t (kind_text manual)
    then some manual
    else if text_eq t (kind_text opening_balance)
    then some opening_balance
    else if text_eq t (kind_text invoice)
    then some invoice
    else if text_eq t (kind_text payment)
    then some payment
    else if text_eq t (kind_text deposit)
    then some deposit
    else if text_eq t (kind_text bill)
    then some bill
    else if text_eq t (kind_text bill_payment)
    then some bill_payment
    else if text_eq t (kind_text expense)
    then some expense
    else if text_eq t (kind_text payroll)
    then some payroll
    else if text_eq t (kind_text tax_payment)
    then some tax_payment
    else if text_eq t (kind_text sales_tax_payment)
    then some sales_tax_payment
    else some reversal

source_of-text : (k : SourceKind) → source_of (kind_text k) ≡ some k
unfolding source_of kind_text text_eq
source_of-text manual = refl
source_of-text opening_balance = refl
source_of-text invoice = refl
source_of-text payment = refl
source_of-text deposit = refl
source_of-text bill = refl
source_of-text bill_payment = refl
source_of-text expense = refl
source_of-text payroll = refl
source_of-text tax_payment = refl
source_of-text sales_tax_payment = refl
source_of-text reversal = refl

kind-inj : (a b : SourceKind) → kind_text a ≡ kind_text b → a ≡ b
kind-inj a b e = some_eq (sym (source_of-text a) ∙ ap source_of e ∙ source_of-text b)

abbrev doc_items : Option Text → List Json
doc_items doc = elim doc [ none ↦ [] | some d ↦ str d ∷ [] ]

doc-inj :
    (a b : Option Text)
    → item 0 (arr (items (doc_items a))) ≡ item 0 (arr (items (doc_items b)))
    → a ≡ b
doc-inj none none e = refl
doc-inj none (some b) e = cc
doc-inj (some a) none e = cc
doc-inj (some a) (some b) e = let k = str-inj a b e in λ i. some (k i)

-- Two entries with the same canonical text agree in everything, but for tags that are all missing.
pub canonical_entry-inj : (e f : Unhashed) → canonical_entry e ≡ canonical_entry f → SameBody e f
unfolding canonical_entry
canonical_entry-inj e f h =
    let g = stringify-inj _ _ h in
    let k = kind-inj e.source.kind f.source.kind (str-inj _ _ (ap (item 5) g)) in
    let r = opt-inj e.source.ref f.source.ref (ap (item 6) g) in
    let d : e.source.doc ≡ f.source.doc = doc-inj e.source.doc f.source.doc (ap (item 12) g) in
    record {
      id = str-inj _ _ (ap (item 2) g);
      seq = num-inj _ _ (ap (item 1) g);
      date = str-inj _ _ (ap (item 3) g);
      memo = opt-inj e.memo f.memo (ap (item 4) g);
      source = λ t. record { kind = k t; ref = r t; doc = d t };
      lines = lines-inj e.lines f.lines (arr-inj _ _ (ap (item 11) g));
      posted_at = str-inj _ _ (ap (item 7) g);
      reverses = opt-inj e.reverses f.reverses (ap (item 8) g);
      replaces = opt-inj e.replaces f.replaces (ap (item 9) g);
      prev_hash = str-inj _ _ (ap (item 10) g);
    }

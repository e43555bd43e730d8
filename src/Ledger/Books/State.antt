-- ===== src/Ledger/Books/State.antt =====
-- The types of packages/ledger/src/books.ts, and the hash of an entry (packages/ledger/src/hash.ts).
use pnw.Base.{ℕ, ◌+◌, Option, none, some, List, [], ◌∷◌, ◌++◌, map, foldl}
use pnw.Data.Int.{pos, negsuc}
use pnw.Data.Text.{Text, codes}
use pnw.Data.Decimal.{show}
use pnw.Data.Dict.{Dict, insert}
use pnw.Data.Json.{Json, null, num, str, arr, Items, nil, cons, stringify}
use pnw.Ledger.Money.{Cents}
use pnw.Ledger.Periods.{IsoDate, PeriodId, PeriodMarks}
use pnw.Ledger.Accounts.{Account}

pub data NameKind : Type 0 where
  customer vendor employee other : NameKind

pub record NameRef : Type 0 where
  pub kind : NameKind
  pub id : Text

pub record Tags : Type 0 where
  pub class : Option Text
  pub location : Option Text
  pub project : Option Text

pub record Line : Type 0 where
  pub account_id : Text
  pub debit : Cents
  pub credit : Cents
  pub memo : Option Text
  pub name : Option NameRef
  pub tags : Option Tags

-- What a caller may hand over as an amount: a `bigint`, or a value that is none.
pub data Amount : Type 0 where
  bigint : Cents → Amount
  not_bigint : Amount

pub record LineInput : Type 0 where
  pub account_id : Text
  pub debit : Option Amount
  pub credit : Option Amount
  pub memo : Option Text
  pub name : Option NameRef
  pub tags : Option Tags

pub data SourceKind : Type 0 where
  manual opening_balance invoice payment deposit bill bill_payment : SourceKind
  expense payroll tax_payment sales_tax_payment reversal : SourceKind

pub record Source : Type 0 where
  pub kind : SourceKind
  pub ref : Option Text
  pub doc : Option Text

pub record EntryInput : Type 0 where
  pub date : IsoDate
  pub memo : Option Text
  pub source : Option Source
  pub lines : List LineInput

-- An entry without its hash.
pub record Unhashed : Type 0 where
  pub id : Text
  pub seq : ℕ
  pub date : IsoDate
  pub memo : Option Text
  pub source : Source
  pub lines : List Line
  pub posted_at : Text
  pub reverses : Option Text
  pub replaces : Option Text
  pub prev_hash : Text

pub record Entry : Type 0 where
  pub body : Unhashed
  pub open body use *
  pub hash : Text

pub data BooksEvent : Type 0 where
  closed reopened locked : PeriodId → Text → BooksEvent

pub record Settings : Type 0 where
  pub business_name : Text
  pub fiscal_year_start_month : ℕ

pub record Books : Type 0 where
  pub settings : Settings
  pub accounts : List Account
  pub entries : List Entry
  pub marks : PeriodMarks
  pub events : List BooksEvent
  pub next_account : ℕ

abbrev pub add_to_map : Dict Account → Account → Dict Account
add_to_map d a = insert a.id a d

-- `new Map(accounts.map((a) => [a.id, a]))`
unfoldable pub map_of : List Account → Dict Account
map_of = foldl add_to_map []

unfoldable pub account_map : Books → Dict Account
unfolding map_of
account_map books = map_of books.accounts

-- `JSON.stringify` of the entry's fields in their fixed places.
abbrev pub opt : Option Text → Json
opt none = null
opt (some t) = str t

abbrev pub show_cents : Cents → Text
show_cents (pos n) = show n
show_cents (negsuc n) = b'-' ∷ show (n + 1)

unfoldable pub kind_text : SourceKind → Text
kind_text manual = codes "manual"
kind_text opening_balance = codes "opening_balance"
kind_text invoice = codes "invoice"
kind_text payment = codes "payment"
kind_text deposit = codes "deposit"
kind_text bill = codes "bill"
kind_text bill_payment = codes "bill_payment"
kind_text expense = codes "expense"
kind_text payroll = codes "payroll"
kind_text tax_payment = codes "tax_payment"
kind_text sales_tax_payment = codes "sales_tax_payment"
kind_text reversal = codes "reversal"

unfoldable pub name_kind_text : NameKind → Text
name_kind_text customer = codes "customer"
name_kind_text vendor = codes "vendor"
name_kind_text employee = codes "employee"
name_kind_text other = codes "other"

abbrev pub items : List Json → Items
items [] = nil
items (j ∷ js) = cons j (items js)

abbrev pub opt_name : {A : Type 0} → Option A → (A → Json) → Json
opt_name none f = null
opt_name (some a) f = f a

abbrev pub canonical_line : Line → Json
canonical_line l = arr (
    items (
      str l.account_id
      ∷ str (show_cents l.debit)
      ∷ str (show_cents l.credit)
      ∷ opt l.memo
      ∷ opt_name l.name (λ n. str (name_kind_text n.kind))
      ∷ opt_name l.name (λ n. str n.id)
      ∷ opt_name l.tags (λ t. opt t.class)
      ∷ opt_name l.tags (λ t. opt t.location)
      ∷ opt_name l.tags (λ t. opt t.project)
      ∷ []))

-- Layout 1, or layout 2 with the document's hash at the end.
abbrev pub canonical_items : Unhashed → List Json
canonical_items e =
    let doc = e.source.doc in
    num (elim doc [ none ↦ 1 | some _ ↦ 2 ])
    ∷ num e.seq
    ∷ str e.id
    ∷ str e.date
    ∷ opt e.memo
    ∷ str (kind_text e.source.kind)
    ∷ opt e.source.ref
    ∷ str e.posted_at
    ∷ opt e.reverses
    ∷ opt e.replaces
    ∷ str e.prev_hash
    ∷ arr (items (map canonical_line e.lines))
    ∷ elim doc [ none ↦ [] | some d ↦ str d ∷ [] ]

unfoldable pub canonical_entry : Unhashed → Text
canonical_entry e = stringify (arr (items (canonical_items e)))

abbrev pub entry_domain : Text
entry_domain = codes "PNW::GL::ENTRY::v1"

abbrev pub genesis_hash : Text
genesis_hash = codes "0000000000000000000000000000000000000000000000000000000000000000"

-- The functions of @noble/hashes that the code calls: `bytesToHex(blake3(bytes))`, `utf8ToBytes`.
pub record Hashes : Type 0 where
  pub blake3_hex : List ℕ → Text
  pub utf8_to_bytes : Text → List ℕ

unfoldable pub hash_entry : Hashes → Unhashed → Text
unfolding canonical_entry
hash_entry h e =
    h.blake3_hex (h.utf8_to_bytes entry_domain ++ 0 ∷ h.utf8_to_bytes (canonical_entry e))

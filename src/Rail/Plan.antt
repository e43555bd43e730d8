-- ===== src/Rail/Plan.antt =====
-- packages/rail/src/plan.ts: which record pays whom.
pub mod Sums
pub mod Spending
pub mod Covers
pub mod Sources
pub mod Payments
pub mod Guarantees
use pnw.Base.{
  ℕ, ◌+◌, Bool, true, false, ◌&&◌, ◌||◌, Option, none, some, List, [], ◌∷◌, ◌++◌, map, any, select,
  length, leb, ltb, or_else, if◌then◌else◌,
}
use pnw.Data.Int.{ℤ, pos, ◌-ℤ◌, ltb_ℤ, leb_ℤ, eqb_ℤ}
use pnw.Data.Result.{Result, ok, err, ◌>>=◌, ◌>>◌, fail_if}
use pnw.Data.Text.{Text, text_eq}
use pnw.Data.Dict.{Dict, lookup, insert}
use pnw.Data.Sort.{sort, sum_of}

-- The messages that a `RailError` carries here.
pub data RailError : Type 0 where
  nothing_to_pay listed_twice not_enough_balance no_single_record : RailError

pub record Payee : Type 0 where
  pub worker_id : Text
  pub amount : ℤ

pub record TokenRecord : Type 0 where
  pub plaintext : Text
  pub amount : ℤ

-- A record with its place among the usable ones.
pub record Usable : Type 0 where
  pub plaintext : Text
  pub amount : ℤ
  pub order : ℕ

pub data Output : Type 0 where
  amount_output remainder_output : Output

-- Each with the amount that the record holds.
pub data RecordRef : Type 0 where
  existing : Text → ℤ → RecordRef
  split : ℕ → Output → ℤ → RecordRef

abbrev pub amount_in : RecordRef → ℤ
amount_in (existing plaintext amount) = amount
amount_in (split index output amount) = amount

-- `{ ...current, amount: 0n }`
abbrev pub emptied : RecordRef → RecordRef
emptied (existing plaintext amount) = existing plaintext (pos 0)
emptied (split index output amount) = split index output (pos 0)

pub record SplitStep : Type 0 where
  pub index : ℕ
  pub source : RecordRef
  pub amount : ℤ
  pub remainder : ℤ

pub record Transfer : Type 0 where
  pub worker_id : Text
  pub amount : ℤ
  pub paid_from : RecordRef

pub record TransferPlan : Type 0 where
  pub splits : List SplitStep
  pub transfers : List Transfer
  pub change : ℤ

-- The loop over the payees, with the ids seen so far.
abbrev pub check_payees : List Text → List Payee → Result RailError (Unit {0})
check_payees seen [] = ok tt
check_payees seen (p ∷ payees) = do
  fail_if (leb_ℤ p.amount (pos 0)) nothing_to_pay
  fail_if (any (text_eq p.worker_id) seen) listed_twice
  check_payees (p.worker_id ∷ seen) payees

-- `map((r, i) => ({ ...r, order: i }))` from the index `i` on.
abbrev pub number_records : ℕ → List TokenRecord → List Usable
number_records i [] = []
number_records i (r ∷ records) =
    record { plaintext = r.plaintext; amount = r.amount; order = i }
    ∷ number_records (i + 1) records

abbrev pub usable_records : List TokenRecord → List Usable
usable_records records = number_records 0 (select (λ r. ltb_ℤ (pos 0) r.amount) records)

abbrev pub by_amount_asc : Usable → Usable → Bool
by_amount_asc a b = ltb_ℤ b.amount a.amount || (eqb_ℤ a.amount b.amount && ltb b.order a.order)

abbrev pub by_amount_desc : Usable → Usable → Bool
by_amount_desc a b = ltb_ℤ a.amount b.amount || (eqb_ℤ a.amount b.amount && ltb b.order a.order)

-- `free.find(test)` with the `splice` that takes what it finds out of the list.
abbrev pub take_first : (Usable → Bool) → List Usable → Option (Usable × List Usable)
take_first test [] = none
take_first test (r ∷ free) =
    if test r
    then some (r, free)
    else elim (take_first test free) [ none ↦ none | some (x, rest) ↦ some (x, r ∷ rest) ]

abbrev pub existing_ref : Usable → RecordRef
existing_ref r = existing r.plaintext r.amount

abbrev pub pay : Payee → RecordRef → Transfer
pay p r = record { worker_id = p.worker_id; amount = p.amount; paid_from = r }

-- One pass over the payees: each takes the first free record that fits, or waits. The result is who
-- waits, what is still free, and the transfers made.
abbrev pub assign :
    (Payee → Usable → Bool) → List Payee → List Usable → List Payee × List Usable × List Transfer
assign fits [] free = ([], free, [])
assign fits (p ∷ queue) free = elim (take_first (fits p) free) [
  | none ↦ let (waiting, left, made) = assign fits queue free in (p ∷ waiting, left, made)
  | some (r, rest) ↦
      let (waiting, left, made) = assign fits queue rest in
      (waiting, left, pay p (existing_ref r) ∷ made)
]

-- The payees carved out of one source: who is left for the next one, the splits and the transfers.
-- `n` splits are planned already.
abbrev pub carve : ℕ → RecordRef → List Payee → List Payee × List SplitStep × List Transfer
carve n current [] = ([], [], [])
carve n current (p ∷ remaining) = elim (ltb_ℤ (amount_in current) p.amount) [
  | true ↦ let (next, splits, made) = carve n current remaining in (p ∷ next, splits, made)
  | false ↦ elim (eqb_ℤ p.amount (amount_in current)) [
    | true ↦
        let (next, splits, made) = carve n (emptied current) remaining in
        (next, splits, pay p current ∷ made)
    | false ↦
        let remainder = amount_in current -ℤ p.amount in
        let (next, splits, made) = carve (n + 1) (split n remainder_output remainder) remaining in
        (
          next,
          record { index = n; source = current; amount = p.amount; remainder = remainder } ∷ splits,
          pay p (split n amount_output p.amount) ∷ made,
        )
  ]
]

abbrev pub carve_all : ℕ → List Usable → List Payee → List Payee × List SplitStep × List Transfer
carve_all n sources [] = ([], [], [])
carve_all n [] (p ∷ remaining) = (p ∷ remaining, [], [])
carve_all n (r ∷ sources) (p ∷ remaining) =
    let (next, splits, made) = carve n (existing_ref r) (p ∷ remaining) in
    let (last, splits', made') = carve_all (n + length splits) sources next in
    (last, splits ++ splits', made ++ made')

-- `new Map(payees.map((p, i) => [p.workerId, i]))`
abbrev pub positions : ℕ → List Payee → Dict ℕ → Dict ℕ
positions i [] m = m
positions i (p ∷ payees) m = positions (i + 1) payees (insert p.worker_id i m)

abbrev pub position_of : Dict ℕ → Transfer → ℕ
position_of position t = or_else (lookup t.worker_id position) 0

-- The transfers in the order in which the payees are given.
abbrev pub in_order : List Payee → List Transfer → List Transfer
in_order payees =
    let position = positions 0 payees [] in
    sort (λ a b. ltb (position_of position b) (position_of position a))

-- `locale_after a b` where `a.localeCompare(b)` is positive.
module _ (locale_after : Text → Text → Bool) where
  abbrev pub queue_of : List Payee → List Payee
  queue_of = sort λ a b.
      ltb_ℤ a.amount b.amount || (eqb_ℤ a.amount b.amount && locale_after a.worker_id b.worker_id)

  -- Exact fits, best fits, then splits.
  abbrev pub assign_all : List Payee → List Usable → List Payee × List SplitStep × List Transfer
  assign_all payees usable =
      let (unassigned, free, exact) =
        assign (λ p r. eqb_ℤ r.amount p.amount) (queue_of payees) (sort by_amount_asc usable) in
      let enough = leb (length unassigned) (length free) in
      let (waiting, free', best) =
        assign (λ p r. enough && leb_ℤ p.amount r.amount) unassigned free in
      let (remaining, splits, carved) = carve_all 0 (sort by_amount_desc free') waiting in
      (remaining, splits, exact ++ best ++ carved)

  abbrev pub finish :
      List Payee → ℤ → List Payee × List SplitStep × List Transfer → Result RailError TransferPlan
  finish payees balance (p ∷ remaining, splits, made) = err no_single_record
  finish payees balance ([], splits, made) = ok (record {
    splits = splits;
    transfers = in_order payees made;
    change = balance -ℤ sum_of (λ t. t.amount) made;
  })

  unfoldable pub plan_transfers : List Payee → List TokenRecord → Result RailError TransferPlan
  plan_transfers payees records = do
    check_payees [] payees
    let usable = usable_records records
    let balance = sum_of (λ r. r.amount) usable
    fail_if (ltb_ℤ balance (sum_of (λ p. p.amount) payees)) not_enough_balance
    finish payees balance (assign_all payees usable)

-- ===== src/Ledger/Books/History/Ends.antt =====
-- The loops of `depthOf` and `validateAccount` (packages/ledger/src/accounts.ts) end on every chart
-- that the operations of packages/ledger/src/books.ts make.
use pnw.Base.{
  ℕ, ◌+◌, ◌≡◌, ◌≢◌, sym, ◌∙◌, Option, none, some, inl, inr, Option-cases, length, arith, ltb, not,
  any,
}
use pnw.Data.Result.{ok, err, ◌>>=◌, ◌>>◌, fail_if, >>=-ne-err, fail_if-ne-err, ok-ne-err}
use pnw.Data.Text.{Text, truthy, is_truthy, trim}
use pnw.Data.Dict.{Dict, lookup}
use pnw.Ledger.Errors.{Ledger, bad_line, duplicate_account, bad_parent, endless_walk}
use pnw.Ledger.Accounts.{
  Account, max_depth, clashes, depth_of, check_not_under, validate_account, validate_parent,
}
use pnw.Ledger.Books.State.{Books, Hashes, account_map, map_of}
use pnw.Ledger.Books.Chart.Ends.{Ends}
use pnw.Ledger.Books.Chart.Fuel.{enough_fuel, check_not_under-endless}
use pnw.Ledger.Books.History.{Reach}
use pnw.Ledger.Books.History.Walks.{Reach-AllEnd}

module _ (d : Dict Account) (ends : (cur : Option Text) → Ends d cur) where
  depth_of-ends : (cur : Option Text) → depth_of (length d + 2) d cur ≢ err endless_walk
  depth_of-ends cur same =
      let (depth, found) = enough_fuel d ends cur in ok-ne-err depth endless_walk (sym found ∙ same)

  check_not_under-ends :
      (id : Text) (cur : Option Text) → check_not_under (length d + 2) d id cur ≢ err endless_walk
  check_not_under-ends id cur same =
      depth_of-ends cur (check_not_under-endless (length d + 2) d id cur same)

  walks-ends :
      (a : Account) (p : Text) (parent : Account)
      → (check_not_under (length d + 2) d a.id (some parent.id)
          >> (depth_of (length d + 2) d (some p) >>= λ depth.
              fail_if (ltb max_depth (depth + 1)) bad_parent))
        ≢ err endless_walk
  walks-ends a p parent =
      >>=-ne-err (check_not_under (length d + 2) d a.id (some parent.id)) _ endless_walk
        (check_not_under-ends a.id (some parent.id))
        (λ _ _.
          >>=-ne-err (depth_of (length d + 2) d (some p)) _ endless_walk (depth_of-ends (some p))
            (λ depth _.
              fail_if-ne-err (ltb max_depth (depth + 1)) bad_parent endless_walk (λ e. cc)))

  validate_parent-ends :
      (lower_case : Text → Text) (a : Account) (p : Text)
      → validate_parent lower_case d a p ≢ err endless_walk
  validate_parent-ends lower_case a p same = elim (Option-cases (lookup p d)) [
    | inl absent ↦ absurd (ground arith)
    | inr (parent, found) ↦ walks-ends a p parent (ground arith)
  ]

  parent-ends :
      (lower_case : Text → Text) (a : Account) (parent : Option Text)
      → (elim parent as (λ _. Ledger (Unit {0})) [
        | none ↦ ok tt
        | some p ↦ validate_parent lower_case d a p
      ])
        ≢ err endless_walk
  parent-ends lower_case a none = λ same. cc
  parent-ends lower_case a (some p) = validate_parent-ends lower_case a p

  validate_account-ends :
      (lower_case : Text → Text) (a : Account) → validate_account lower_case d a ≢ err endless_walk
  unfolding validate_account
  validate_account-ends lower_case a =
      let name = trim a.name in
      >>=-ne-err (fail_if (not (is_truthy (some name))) bad_line) _ endless_walk
        (fail_if-ne-err (not (is_truthy (some name))) bad_line endless_walk (λ e. cc))
        (λ _ _.
          let taken = any (λ (_, other). clashes lower_case a name other) d in
          >>=-ne-err (fail_if taken duplicate_account) _ endless_walk
            (fail_if-ne-err taken duplicate_account endless_walk (λ e. cc))
            (λ _ _. parent-ends lower_case a (truthy a.parent_id)))

module _ (lower_case : Text → Text) (h : Hashes) where
  -- In books that `createBooks` makes and any sequence of successful operations changes, the loop of
  -- `depthOf` ends, whichever account and whatever text it starts at: two more
  -- steps than there are accounts are enough to count the accounts up to the top.
  pub Reach-depth_of :
      {b : Books}
      → Reach lower_case h b
      → (cur : Option Text)
      → (depth : ℕ) × (depth_of (length (account_map b) + 2) (account_map b) cur ≡ ok depth)
  unfolding account_map
  Reach-depth_of {b} r = enough_fuel (map_of b.accounts) (Reach-AllEnd lower_case h r)

  -- In books that `createBooks` makes and any sequence of successful operations changes, the check of
  -- a new or changed account ends, whatever the account: its loops up to the parents, with two more
  -- steps than there are accounts, do not run out of steps.
  pub Reach-validate_account :
      {b : Books}
      → Reach lower_case h b
      → (a : Account) → validate_account lower_case (account_map b) a ≢ err endless_walk
  unfolding account_map
  Reach-validate_account {b} r =
      validate_account-ends (map_of b.accounts) (Reach-AllEnd lower_case h r) lower_case

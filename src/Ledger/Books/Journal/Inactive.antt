-- ===== src/Ledger/Books/Journal/Inactive.antt =====
-- No entry is posted to an inactive account (`deactivateAccount` and `postEntry` of
-- packages/ledger/src/books.ts).
use pnw.Base.{
  ◌≡◌, refl, sym, ap, ◌∙◌, subst, true, false, Option, none, some, List, [], ◌∷◌, foldl, All, arith,
  Bool-cases, Option-cases, inl, inr, not, length, ltb,
}
use pnw.Data.Int.{eqb_ℤ}
use pnw.Data.Result.{ok, traverse, >>=-eq-ok, fail_if, ok-injective}
use pnw.Data.Text.{Text, text_eq}
use pnw.Data.Dict.{Dict, lookup, lookup-insert}
use pnw.Ledger.Errors.{bad_line}
use pnw.Ledger.Periods.{assert_date, assert_open}
use pnw.Ledger.Accounts.{Account}
use pnw.Ledger.Books.State.{
  Books, Entry, EntryInput, Line, LineInput, Hashes, map_of, account_map, add_to_map,
}
use pnw.Ledger.Books.Chart.{has_id, replace, deactivate_account}
use pnw.Ledger.Books.Chart.Keys.{id-of_lookup}
use pnw.Ledger.Books.Journal.{
  normalize_line, normalize_lines, normalize_source, post, post_entry, is_reversal, append, debits,
  credits,
}

module _ (P : Account → Type 0) (k : Text) where
  insert-holds :
      (x : Account) (d : Dict Account) (a : Account)
      → P x
      → ((b : Account) → lookup k d ≡ some b → P b)
      → lookup k (add_to_map d x) ≡ some a
      → P a
  insert-holds x d a p keep h = elim (Bool-cases (text_eq x.id k)) [
    | inl same ↦
        let e : some x ≡ some a = ground (arith, h, same, lookup-insert x.id k x d) in
        subst P (some-same e) p
    | inr other ↦ keep a (ground (arith, h, other, lookup-insert x.id k x d))
  ]
    where
      some-same : {x a : Account} → some x ≡ some a → x ≡ a
      some-same e = cc

  foldl-holds :
      (as' : List Account) (d : Dict Account) (a : Account)
      → All P as'
      → ((b : Account) → lookup k d ≡ some b → P b)
      → lookup k (foldl add_to_map d as') ≡ some a
      → P a
  foldl-holds [] d a h keep e = keep a e
  foldl-holds (x ∷ as') d a h keep e =
      foldl-holds as' (add_to_map d x) a h.1 (λ b e. insert-holds x d b h.0 keep e) e

  lookup-holds :
      (as' : List Account) (a : Account) → All P as' → lookup k (map_of as') ≡ some a → P a
  unfolding map_of lookup
  lookup-holds as' a h e = foldl-holds as' [] a h (λ b e. cc) e

-- An account that has the id is not active.
abbrev Inactive : Text → Account → Type 0
Inactive id a = has_id id a ≡ true → a.active ≡ false

replace-Inactive :
    (id : Text) (as' : List Account)
    → All (Inactive id) (replace id (λ a. record a { active = false }) as')
replace-Inactive id [] = tt
replace-Inactive id (x ∷ as') = elim (Bool-cases (has_id id x)) [
  | inl hit ↦ rw hit ((λ _. refl), replace-Inactive id as')
  | inr miss ↦ rw miss ((λ e. absurd (cc (miss, e))), replace-Inactive id as')
]

-- The account of a line that is accepted is active.
abbrev IsActiveIn : Dict Account → Line → Type 0
IsActiveIn accounts l = (a : Account) × (lookup l.account_id accounts ≡ some a) × (a.active ≡ true)

normalize_line-IsActiveIn :
    (accounts : Dict Account) (input : LineInput) (l : Line)
    → normalize_line accounts input ≡ ok l
    → IsActiveIn accounts l
unfolding normalize_line
normalize_line-IsActiveIn accounts input l e =
    elim (Option-cases (lookup input.account_id accounts)) [
      | inl missing ↦ absurd (ground (arith, e, missing))
      | inr (a, found) ↦ (a, ground (arith, e, found), ground (arith, e, found))
    ]

traverse-IsActiveIn :
    (accounts : Dict Account) (inputs : List LineInput) (lines : List Line)
    → traverse (normalize_line accounts) inputs ≡ ok lines
    → All (IsActiveIn accounts) lines
traverse-IsActiveIn accounts [] lines h = subst (All (IsActiveIn accounts)) (ok-injective _ _ h) tt
traverse-IsActiveIn accounts (i ∷ inputs) lines h =
    let (l, hl, h') = >>=-eq-ok (normalize_line accounts i) _ h in
    let (ls, hls, h'') = >>=-eq-ok (traverse (normalize_line accounts) inputs) _ h' in
    subst (All (IsActiveIn accounts)) (ok-injective _ _ h'')
      (normalize_line-IsActiveIn accounts i l hl, traverse-IsActiveIn accounts inputs ls hls)

normalize_lines-IsActiveIn :
    (b : Books) (inputs : List LineInput) (lines : List Line)
    → normalize_lines b inputs ≡ ok lines
    → All (IsActiveIn (account_map b)) lines
unfolding normalize_lines
normalize_lines-IsActiveIn b inputs lines e =
    let (_, _, e') = >>=-eq-ok (fail_if (ltb (length inputs) 2) _) _ e in
    let (ls, found, e'') = >>=-eq-ok (traverse (normalize_line (account_map b)) inputs) _ e' in
    let (_, _, same) =
      >>=-eq-ok (fail_if (not (eqb_ℤ (debits ls) (credits ls))) _) (λ _. ok ls) e'' in
    subst (All (IsActiveIn (account_map b))) (ok-injective _ _ same)
      (traverse-IsActiveIn (account_map b) inputs ls found)

deactivated :
    (b b' : Books) (id : Text)
    → deactivate_account b id ≡ ok b'
    → b' ≡ record b { accounts = replace id (λ a. record a { active = false }) b.accounts }
unfolding deactivate_account
deactivated b b' id e = ground arith

-- A line on an active account is on none that is inactive.
misses :
    (id : Text) (accounts : List Account) (l : Line)
    → All (Inactive id) accounts
    → IsActiveIn (map_of accounts) l
    → text_eq l.account_id id ≡ false
misses id accounts l inactive (a, found, active) = elim (Bool-cases (text_eq l.account_id id)) [
  | inr other ↦ other
  | inl same ↦
      let named = id-of_lookup accounts l.account_id a found in
      let hit : has_id id a ≡ true = ap (λ k. text_eq k id) named ∙ same in
      absurd (cc (lookup-holds (Inactive id) l.account_id accounts a inactive found hit, active))
]

All-map :
    {A : Type 0} {P Q : A → Type 0} (xs : List A) → ((x : A) → P x → Q x) → All P xs → All Q xs
All-map [] f h = tt
All-map (x ∷ xs) f h = (f x h.0, All-map xs f h.1)

module _ (h : Hashes) where
  post-lines :
      (b : Books) (input : EntryInput) (replaces : Option Text) (now : Text) (r : Books × Entry)
      → post h b input replaces now ≡ ok r
      → normalize_lines b input.lines ≡ ok r.1.lines
  unfolding post append
  post-lines b input replaces now r e =
      let (date, _, e1) = >>=-eq-ok (assert_date input.date) _ e in
      let (u, _, e2) = >>=-eq-ok (assert_open b.marks date) _ e1 in
      let (source, _, e3) = >>=-eq-ok (normalize_source input.source) _ e2 in
      let (lines, hl, e4) = >>=-eq-ok (normalize_lines b input.lines) _ e3 in
      hl ∙ ap (λ (r : Books × Entry). ok r.1.lines) (ok-injective _ _ e4)

  -- An entry that is posted hits only accounts of the chart that are active.
  pub post_entry-IsActiveIn :
      (b : Books) (input : EntryInput) (now : Text) (r : Books × Entry)
      → post_entry h b input now ≡ ok r
      → All (IsActiveIn (account_map b)) r.1.lines
  unfolding post_entry
  post_entry-IsActiveIn b input now r e =
      let (_, _, e') =
        >>=-eq-ok (fail_if (is_reversal input.source) bad_line) (λ _. post h b input none now) e in
      normalize_lines-IsActiveIn b input.lines r.1.lines (post-lines b input none now r e')

  -- After an account has been deactivated, no entry that is posted next has a line on it.
  pub deactivate_account-post_entry :
      (b b' : Books) (id : Text) (input : EntryInput) (now : Text) (r : Books × Entry)
      → deactivate_account b id ≡ ok b'
      → post_entry h b' input now ≡ ok r
      → All (λ l. text_eq l.account_id id ≡ false) r.1.lines
  unfolding account_map
  deactivate_account-post_entry b b' id input now r e posted =
      let inactive : All (Inactive id) b'.accounts =
        subst (λ (b' : Books). All (Inactive id) b'.accounts) (sym (deactivated b b' id e))
          (replace-Inactive id b.accounts) in
      All-map r.1.lines (λ l active. misses id b'.accounts l inactive active)
        (post_entry-IsActiveIn b' input now r posted)

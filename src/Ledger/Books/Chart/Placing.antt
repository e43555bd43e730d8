-- ===== src/Ledger/Books/Chart/Placing.antt =====
-- Where an account is added, replaced or switched on or off, the walks up the parents (packages/ledger/
-- src/accounts.ts) still end.
use pnw.Base.{
  ◌≡◌, refl, sym, ◌∙◌, subst, false, none, some, Option, List, [], ◌∷◌, ◌++◌, arith, Bool,
}
use pnw.Data.Text.{Text, text_eq, text_eq_iff}
use pnw.Data.Dict.{lookup}
use pnw.Ledger.Accounts.{Account, parent_of}
use pnw.Ledger.Books.State.{map_of}
use pnw.Ledger.Books.Chart.{replace}
use pnw.Ledger.Books.Chart.Keys.{id-of_lookup, known-of_lookup}
use pnw.Ledger.Books.Chart.Parents.{
  lookup-snoc, parent_of-known, parent_of-same, map_of-replace-same, map_of-replace-other,
  map_of-replaced,
}
use pnw.Ledger.Books.Chart.Ends.{depth_of-same, top-Ends, above-Ends, Ends, IsPlaced, IsPlaced-Ends}

-- From every account, and from every text that names none, the walk ends.
abbrev pub AllEnd : List Account → Type 0
AllEnd accounts = (cur : Option Text) → Ends (map_of accounts) cur

pub snoc-AllEnd :
    (accounts : List Account) (a : Account)
    → IsPlaced (map_of accounts) a
    → AllEnd accounts
    → AllEnd (accounts ++ a ∷ [])
snoc-AllEnd accounts a placed h =
    IsPlaced-Ends (map_of accounts) (map_of (accounts ++ a ∷ [])) a
      (λ c other.
        parent_of-same (map_of accounts) (map_of (accounts ++ a ∷ [])) c
          (ground (arith, lookup-snoc accounts a c, text_eq_iff a.id c, text_eq_iff c a.id)))
      (parent_of-known (map_of (accounts ++ a ∷ [])) a.id a
        (ground (arith, lookup-snoc accounts a a.id, text_eq_iff a.id a.id)))
      (λ p parent found. id-of_lookup accounts p parent found) placed h

pub replaced-AllEnd :
    (accounts : List Account) (id : Text) (current a : Account)
    → lookup id (map_of accounts) ≡ some current
    → a.id ≡ id
    → IsPlaced (map_of accounts) a
    → AllEnd accounts
    → AllEnd (replace id (λ _. a) accounts)
replaced-AllEnd accounts id current a found own placed h =
    let d' = map_of (replace id (λ _. a) accounts) in
    IsPlaced-Ends (map_of accounts) d' a
      (λ c other.
        parent_of-same (map_of accounts) d' c
          (map_of-replace-other id a accounts c own (subst (λ id. text_eq c id ≡ false) own other)))
      (subst (λ id. parent_of d' id ≡ a.parent_id) (sym own)
        (parent_of-known d' id a
          (map_of-replaced id a accounts own (known-of_lookup accounts id current found))))
      (λ p parent found. id-of_lookup accounts p parent found) placed h

pub set_active-AllEnd :
    (accounts : List Account) (id : Text) (on : Bool)
    → AllEnd accounts
    → AllEnd (replace id (λ a. record a { active = on }) accounts)
set_active-AllEnd accounts id on h cur =
    let (fuel, depth, found) = h cur in
    (
      fuel,
      depth,
      depth_of-same fuel (map_of accounts)
            (map_of (replace id (λ a. record a { active = on }) accounts)) cur
            (λ c.
              map_of-replace-same id (λ a. record a { active = on }) accounts c (λ a. refl)
                (λ a. refl))
          ∙ found,
    )

pub no_accounts : AllEnd []
unfolding map_of lookup
no_accounts none = top-Ends [] none refl
no_accounts (some []) = top-Ends [] (some []) refl
no_accounts (some (c ∷ s)) = above-Ends [] (some (c ∷ s)) (c ∷ s) refl (top-Ends [] none refl)

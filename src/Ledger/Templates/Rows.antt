-- ===== src/Ledger/Templates/Rows.antt =====
-- Rows of the templates of packages/ledger/src/templates.ts, and the accounts that they make.
use pnw.Base.{
  ℕ, ◌+◌, ◌≡◌, refl, sym, subst, Bool, true, ◌&&◌, Option, none, some, List, [], ◌∷◌, ◌++◌, find,
  any, arith, Bool-cases, inl, inr,
}
use pnw.Data.Text.{Text, text_eq, trim, truthy, is_truthy}
use pnw.Data.Sort.{sort}
use pnw.Ledger.Books.State.{Books}
use pnw.Ledger.Accounts.{Account}
use pnw.Ledger.Books.Chart.Keys.{HasIds}
use pnw.Ledger.Templates.{
  TemplateAccount, TemplateId, service, contractor, retail, template_accounts, parents_first,
  parent_id_of, id_of_name,
}

abbrev pub has_name : Text → Account → Bool
has_name name a = text_eq a.name name

-- Where the row has a parent, the id is that of the chart's first account of the parent's name.
abbrev pub IsUnder : List Account → Option Text → Option Text → Type 0
IsUnder accounts none parent_id = parent_id ≡ none
IsUnder accounts (some name) parent_id =
    (parent : Account) × (find (has_name name) accounts ≡ some parent)
    × (parent_id ≡ some parent.id)

-- The account that a row of a template makes in a chart.
pub record IsMade (accounts : List Account) (row : TemplateAccount) (a : Account) : Type 0 where
  pub name : a.name ≡ row.name
  pub number : a.number ≡ some row.number
  pub type : a.type ≡ row.type
  pub active : a.active ≡ true
  pub plain : a.system ≡ none
  pub under : IsUnder accounts row.parent a.parent_id

abbrev pub AreMade : List Account → List TemplateAccount → List Account → Type 0
AreMade accounts [] [] = Unit
AreMade accounts [] (a ∷ made) = ⊥
AreMade accounts (row ∷ rows) [] = ⊥
AreMade accounts (row ∷ rows) (a ∷ made) = IsMade accounts row a × AreMade accounts rows made

-- A row that has no white space to trim, under nobody or under a name seen before.
abbrev pub stands_under : List Text → Option Text → Bool
stands_under seen none = true
stands_under seen (some name) = is_truthy (some name) && any (text_eq name) seen

unfoldable pub are_ready : List Text → List TemplateAccount → Bool
are_ready seen [] = true
are_ready seen (row ∷ rows) =
    let rest = are_ready (row.name ∷ seen) rows in
    text_eq (trim row.name) row.name && (stands_under seen row.parent && rest)

pub templates-ready : (id : TemplateId) → are_ready [] (parents_first (template_accounts id)) ≡ true
unfolding are_ready sort template_accounts text_eq trim
templates-ready service = refl
templates-ready contractor = refl
templates-ready retail = refl

find-append :
    (name : Text) (xs ys : List Account) (a : Account)
    → find (has_name name) xs ≡ some a
    → find (has_name name) (xs ++ ys) ≡ some a
find-append name [] ys a e = cc
find-append name (x ∷ xs) ys a e = elim (Bool-cases (has_name name x)) [
  | inl here ↦ rw here (ground (arith, e, here))
  | inr other ↦ rw other (find-append name xs ys a (ground (arith, e, other)))
]

find-any :
    (name : Text) (xs : List Account)
    → any (has_name name) xs ≡ true
    → (a : Account) × (find (has_name name) xs ≡ some a)
find-any name [] h = absurd (cc)
find-any name (x ∷ xs) h = elim (Bool-cases (has_name name x)) [
  | inl here ↦ (x, rw here refl)
  | inr other ↦ let (a, found) = find-any name xs (ground (arith, h, other)) in (a, rw other found)
]

pub any-append :
    (name : Text) (xs ys : List Account)
    → any (has_name name) xs ≡ true
    → any (has_name name) (xs ++ ys) ≡ true
any-append name [] ys h = absurd (cc)
any-append name (x ∷ xs) ys h = ground (arith, any-append name xs ys)

pub any-last :
    (name : Text) (xs : List Account) (a : Account)
    → has_name name a ≡ true
    → any (has_name name) (xs ++ a ∷ []) ≡ true
any-last name [] a h = rw h refl
any-last name (x ∷ xs) a h = ground (arith, any-last name xs a h)

-- An account of the chart has an id that is not empty.
HasIds-truthy :
    (i : ℕ) (name : Text) (xs : List Account) (a : Account)
    → HasIds i xs
    → find (has_name name) xs ≡ some a
    → truthy (some a.id) ≡ some a.id
HasIds-truthy i name [] a h e = cc
HasIds-truthy i name (x ∷ xs) a h e = elim (Bool-cases (has_name name x)) [
  | inl here ↦
      let same : x ≡ a = ground (arith, e, here) in
      subst (λ (a : Account). truthy (some a.id) ≡ some a.id) same
        (subst (λ k. truthy (some k) ≡ some k) (sym h.0) refl)
  | inr other ↦ HasIds-truthy (i + 1) name xs a h.1 (ground (arith, e, other))
]

pub under-parent :
    (b : Books) (row : TemplateAccount) (seen : List Text)
    → HasIds 0 b.accounts
    → stands_under seen row.parent ≡ true
    → ((name : Text) → any (text_eq name) seen ≡ true → any (has_name name) b.accounts ≡ true)
    → IsUnder b.accounts row.parent (parent_id_of b row)
under-parent b row seen ids ready known = go row.parent refl ready
  where
    go :
        (parent : Option Text)
        → row.parent ≡ parent
        → stands_under seen parent ≡ true
        → IsUnder b.accounts parent (parent_id_of b row)
    go none e r = rw e refl
    go (some []) e r = absurd (cc)
    go (some (c ∷ s)) e r =
        let (p, found) = find-any (c ∷ s) b.accounts (known (c ∷ s) r) in
        (
          p,
          found,
          rw (e, parent_id_of)
              (rw (found, id_of_name) (HasIds-truthy 0 (c ∷ s) b.accounts p ids found)),
        )

pub IsUnder-append :
    (xs ys : List Account) (parent parent_id : Option Text)
    → IsUnder xs parent parent_id
    → IsUnder (xs ++ ys) parent parent_id
IsUnder-append xs ys none parent_id h = h
IsUnder-append xs ys (some name) parent_id (p, found, same) =
    (p, find-append name xs ys p found, same)

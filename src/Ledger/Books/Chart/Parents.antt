-- ===== src/Ledger/Books/Chart/Parents.antt =====
-- The parents that the chart's map has (`accountMap` of packages/ledger/src/books.ts) after an
-- account is added or replaced.
use pnw.Base.{
  ◌≡◌, refl, ◌∙◌, ap, ◌⊎◌, inl, inr, true, false, some, List, [], ◌∷◌, ◌++◌, arith, Bool-cases,
  foldl, any, if◌then◌else◌,
}
use pnw.Data.Text.{Text, text_eq, text_eq_iff}
use pnw.Data.Dict.{Dict, lookup, lookup-insert}
use pnw.Ledger.Accounts.{Account, parent_of}
use pnw.Ledger.Books.State.{map_of, add_to_map}
use pnw.Ledger.Books.Chart.{has_id, replace}

foldl-snoc :
    (as' : List Account) (a : Account) (d : Dict Account)
    → foldl add_to_map d (as' ++ a ∷ []) ≡ add_to_map (foldl add_to_map d as') a
foldl-snoc [] a d = refl
foldl-snoc (x ∷ as') a d = foldl-snoc as' a (add_to_map d x)

pub lookup-snoc :
    (as' : List Account) (a : Account) (c : Text)
    → lookup c (map_of (as' ++ a ∷ [])) ≡ (if text_eq a.id c then some a else lookup c (map_of as'))
unfolding map_of
lookup-snoc as' a c =
    ap (lookup c) (foldl-snoc as' a []) ∙ lookup-insert a.id c a (foldl add_to_map [] as')

pub parent_of-known :
    (d : Dict Account) (c : Text) (a : Account) → lookup c d ≡ some a → parent_of d c ≡ a.parent_id
parent_of-known d c a e = rw (e, parent_of) refl

pub parent_of-same :
    (d d' : Dict Account) (c : Text) → lookup c d' ≡ lookup c d → parent_of d' c ≡ parent_of d c
parent_of-same d d' c e = rw (e, parent_of) refl

-- One more account with the same id and the same parent on each side.
add-same :
    (a b : Account) (d d' : Dict Account) (c : Text)
    → b.id ≡ a.id
    → b.parent_id ≡ a.parent_id
    → parent_of d' c ≡ parent_of d c
    → parent_of (add_to_map d' b) c ≡ parent_of (add_to_map d a) c
add-same a b d d' c ids parents e =
    ground (arith, lookup-insert a.id c a d, lookup-insert b.id c b d')

-- Replacing accounts by ones with the same id and parent changes no parent.
replace-parents :
    (id : Text) (f : Account → Account) (as' : List Account) (d d' : Dict Account) (c : Text)
    → ((a : Account) → (f a).id ≡ a.id)
    → ((a : Account) → (f a).parent_id ≡ a.parent_id)
    → parent_of d' c ≡ parent_of d c
    → parent_of (foldl add_to_map d' (replace id f as')) c ≡ parent_of (foldl add_to_map d as') c
replace-parents id f [] d d' c ids parents e = e
replace-parents id f (x ∷ as') d d' c ids parents e = elim (Bool-cases (has_id id x)) [
  | inl hit ↦ rw hit (
      replace-parents id f as' (add_to_map d x) (add_to_map d' (f x)) c ids parents
        (add-same x (f x) d d' c (ids x) (parents x) e))
  | inr miss ↦ rw miss (
      replace-parents id f as' (add_to_map d x) (add_to_map d' x) c ids parents
        (add-same x x d d' c refl refl e))
]

pub map_of-replace-same :
    (id : Text) (f : Account → Account) (as' : List Account) (c : Text)
    → ((a : Account) → (f a).id ≡ a.id)
    → ((a : Account) → (f a).parent_id ≡ a.parent_id)
    → parent_of (map_of (replace id f as')) c ≡ parent_of (map_of as') c
unfolding map_of
map_of-replace-same id f as' c ids parents = replace-parents id f as' [] [] c ids parents refl

-- Another account's place in the map does not depend on the one that is replaced.
lookup-replace :
    (id : Text) (u : Account) (as' : List Account) (d d' : Dict Account) (c : Text)
    → u.id ≡ id
    → text_eq c id ≡ false
    → lookup c d' ≡ lookup c d
    → lookup c (foldl add_to_map d' (replace id (λ _. u) as')) ≡ lookup c (foldl add_to_map d as')
lookup-replace id u [] d d' c own other e = e
lookup-replace id u (x ∷ as') d d' c own other e = elim (Bool-cases (has_id id x)) [
  | inl hit ↦ rw hit (
      lookup-replace id u as' (add_to_map d x) (add_to_map d' u) c own other (
        ground (
          arith,
          lookup-insert x.id c x d,
          lookup-insert u.id c u d',
          text_eq_iff x.id id,
          text_eq_iff u.id c,
          text_eq_iff x.id c,
          text_eq_iff c id,
        )))
  | inr miss ↦ rw miss (
      lookup-replace id u as' (add_to_map d x) (add_to_map d' x) c own other
        (ground (arith, lookup-insert x.id c x d, lookup-insert x.id c x d')))
]

pub map_of-replace-other :
    (id : Text) (u : Account) (as' : List Account) (c : Text)
    → u.id ≡ id
    → text_eq c id ≡ false
    → lookup c (map_of (replace id (λ _. u) as')) ≡ lookup c (map_of as')
unfolding map_of
map_of-replace-other id u as' c own other = lookup-replace id u as' [] [] c own other refl

-- The account that is replaced has the new one's place.
lookup-replaced :
    (id : Text) (u : Account) (as' : List Account) (d : Dict Account)
    → u.id ≡ id
    → (any (has_id id) as' ≡ true) ⊎ (lookup id d ≡ some u)
    → lookup id (foldl add_to_map d (replace id (λ _. u) as')) ≡ some u
lookup-replaced id u [] d own (inl h) = absurd (cc)
lookup-replaced id u [] d own (inr h) = h
lookup-replaced id u (x ∷ as') d own h = elim (Bool-cases (has_id id x)) [
  | inl hit ↦ rw hit (
      lookup-replaced id u as' (add_to_map d u) own
        (inr (ground (arith, lookup-insert u.id id u d, text_eq_iff u.id id))))
  | inr miss ↦
      rw miss (
        lookup-replaced id u as' (add_to_map d x) own
          (ground (arith, h, lookup-insert x.id id x d)))
]

pub map_of-replaced :
    (id : Text) (u : Account) (as' : List Account)
    → u.id ≡ id
    → any (has_id id) as' ≡ true
    → lookup id (map_of (replace id (λ _. u) as')) ≡ some u
unfolding map_of
map_of-replaced id u as' own h = lookup-replaced id u as' [] own (inl h)

-- ===== src/Data/Dict.antt =====
-- A JavaScript `Map` with string keys, in the order of the first insertion.
use pnw.Base.{
  ◌≡◌, refl, Bool-cases, inl, inr, Option, none, some, List, [], ◌∷◌, if◌then◌else◌, arith,
}
use pnw.Data.Text.{Text, text_eq, text_eq_iff}

abbrev pub Dict {ℓ} : Type ℓ → Type ℓ
Dict V = List (Text × V)

module _ {ℓ} {V : Type ℓ} where
  -- `m.get(k)`
  unfoldable pub lookup : Text → Dict V → Option V
  lookup k [] = none
  lookup k ((j, v) ∷ d) = if text_eq j k then some v else lookup k d

  -- `m.set(k, v)`
  unfoldable pub insert : Text → V → Dict V → Dict V
  insert k v [] = (k, v) ∷ []
  insert k v ((j, w) ∷ d) = if text_eq j k then (j, v) ∷ d else (j, w) ∷ insert k v d

  pub lookup-insert :
      (k j : Text) (v : V) (d : Dict V)
      → lookup j (insert k v d) ≡ (if text_eq k j then some v else lookup j d)
  unfolding lookup insert
  lookup-insert k j v [] = refl
  lookup-insert k j v ((i, w) ∷ d) =
      ground (arith, text_eq_iff k j, text_eq_iff i k, text_eq_iff i j, lookup-insert k j v d)

  -- Each key stands once.
  abbrev pub IsKeyed : Dict V → Type ℓ
  IsKeyed [] = Unit
  IsKeyed ((k, v) ∷ d) = (lookup k d ≡ none) × IsKeyed d

  pub insert-IsKeyed : (k : Text) (v : V) (d : Dict V) → IsKeyed d → IsKeyed (insert k v d)
  unfolding insert lookup
  insert-IsKeyed k v [] keyed = (refl, tt)
  insert-IsKeyed k v ((j, w) ∷ d) keyed = elim (Bool-cases (text_eq j k)) [
    | inl same ↦ rw same keyed
    | inr other ↦ rw other (
      ground (arith, lookup-insert k j v d, text_eq_iff k j, text_eq_iff j k, keyed.0),
      insert-IsKeyed k v d keyed.1,
    )
  ]

-- ===== src/Data/Text/Trim.antt =====
-- `trim` leaves a text without white space alone.
use mathlib.Core.List.{reverse-reverse, reverse-append}
use pnw.Base.{◌≡◌, refl, sym, subst, false, [], ◌∷◌, All, All-append, reverse}
use pnw.Data.Text.{Text, is_space, trim, trim_start}

abbrev pub NoSpace : Text → Type 0
NoSpace = All (λ c. is_space c ≡ false)

trim_start-NoSpace : (s : Text) → NoSpace s → trim_start s ≡ s
unfolding trim_start
trim_start-NoSpace [] h = refl
trim_start-NoSpace (c ∷ s) h = rw h.0 refl

NoSpace-reverse : (s : Text) → NoSpace s → NoSpace (reverse s)
NoSpace-reverse [] h = tt
NoSpace-reverse (c ∷ s) h =
    subst NoSpace (sym (reverse-append (c ∷ []) s))
      (All-append (λ c. is_space c ≡ false) (reverse s) (c ∷ []) (NoSpace-reverse s h.1) (h.0, tt))

pub trim-NoSpace : (s : Text) → NoSpace s → trim s ≡ s
unfolding trim
trim-NoSpace s h =
    rw (trim_start-NoSpace s h)
      (rw (trim_start-NoSpace (reverse s) (NoSpace-reverse s h)) (reverse-reverse s))

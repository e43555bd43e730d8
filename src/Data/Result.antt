-- ===== src/Data/Result.antt =====
-- A call that may throw: `err` holds the stable code that the source's error class carries. The
-- message beside the code is text for people and is left out.
use pnw.Base.{◌≡◌, ◌≢◌, refl, ◌⊎◌, inl, inr, Bool, true, false, Option, none, some, List, [], ◌∷◌}

pub data Result {ℓ} (E : Type 0) (A : Type ℓ) : Type ℓ where
  ok : A → Result E A
  err : E → Result E A

infixl 5 ◌>>=◌ ◌>>◌
abbrev pub ◌>>=◌ {ℓ κ} :
    {E : Type 0} {A : Type ℓ} {B : Type κ} → Result E A → (A → Result E B) → Result E B
ok value >>= next = next value
err code >>= next = err code

abbrev pub ◌>>◌ {ℓ} : {E : Type 0} {B : Type ℓ} → Result E (Unit {0}) → Result E B → Result E B
check >> next = check >>= λ _. next

-- `if (test) fail(code)`
abbrev pub fail_if : {E : Type 0} → Bool → E → Result E (Unit {0})
fail_if true e = err e
fail_if false e = ok tt

-- `value ?? fail(code)`
abbrev pub or_fail {ℓ} : {E : Type 0} {A : Type ℓ} → Option A → E → Result E A
or_fail none e = err e
or_fail (some a) e = ok a

-- `xs.map(f)` for an `f` that may throw: the first failure, from the left, ends it.
abbrev pub traverse {ℓ κ} :
    {E : Type 0} {A : Type ℓ} {B : Type κ} → (A → Result E B) → List A → Result E (List B)
traverse f [] = ok []
traverse f (x ∷ xs) = f x >>= λ y. traverse f xs >>= λ ys. ok (y ∷ ys)

pub >>=-eq-ok {ℓ κ} :
    {E : Type 0} {A : Type ℓ} {B : Type κ} (first : Result E A) (next : A → Result E B) {b : B}
    → (first >>= next) ≡ ok b
    → (a : A) × (first ≡ ok a) × (next a ≡ ok b)
>>=-eq-ok (ok value) next done = (value, refl, done)
>>=-eq-ok (err code) next done = cc

pub Result-cases {ℓ} :
    {E : Type 0} {A : Type ℓ} (r : Result E A) → ((a : A) × (r ≡ ok a)) ⊎ ((e : E) × (r ≡ err e))
Result-cases (ok a) = inl (a, refl)
Result-cases (err e) = inr (e, refl)

pub or_fail-eq-ok {ℓ} :
    {E : Type 0} {A : Type ℓ} (o : Option A) (e : E) (a : A) → or_fail o e ≡ ok a → o ≡ some a
or_fail-eq-ok none e a h = cc
or_fail-eq-ok (some b) e a h = cc

pub ok-injective {ℓ} :
    {E : Type 0} {A : Type ℓ} (a b : A) → ◌≡◌ {A = Result E A} (ok a) (ok b) → a ≡ b
ok-injective a b h = cc

pub ok-ne-err {ℓ} :
    {E : Type 0} {A : Type ℓ} (a : A) (e : E) → ◌≡◌ {A = Result E A} (ok a) (err e) → ⊥
ok-ne-err a e h = cc

-- The same failure, seen at another type.
pub err-same {ℓ κ} :
    {E : Type 0} {A : Type ℓ} {B : Type κ} (c d : E)
    → ◌≡◌ {A = Result E A} (err c) (err d)
    → ◌≡◌ {A = Result E B} (err c) (err d)
err-same c d h = cc

-- The failure `e` comes from neither part.
pub >>=-ne-err {ℓ κ} :
    {E : Type 0} {A : Type ℓ} {B : Type κ} (first : Result E A) (next : A → Result E B) (e : E)
    → first ≢ err e
    → ((a : A) → first ≡ ok a → next a ≢ err e)
    → (first >>= next) ≢ err e
>>=-ne-err (ok a) next e early late same = late a refl same
>>=-ne-err (err d) next e early late same = early (err-same d e same)

pub fail_if-ne-err : {E : Type 0} (b : Bool) (d e : E) → d ≢ e → fail_if b d ≢ err e
fail_if-ne-err true d e other same = other (cc)
fail_if-ne-err false d e other same = cc

pub or_fail-ne-err {ℓ} :
    {E : Type 0} {A : Type ℓ} (o : Option A) (d e : E) → d ≢ e → or_fail o d ≢ err e
or_fail-ne-err none d e other same = other (cc)
or_fail-ne-err (some a) d e other same = cc

pub traverse-ne-err {ℓ κ} :
    {E : Type 0} {A : Type ℓ} {B : Type κ} (f : A → Result E B) (xs : List A) (e : E)
    → ((x : A) → f x ≢ err e)
    → traverse f xs ≢ err e
traverse-ne-err f [] e h = λ same. cc
traverse-ne-err f (x ∷ xs) e h =
    >>=-ne-err (f x) _ e (h x)
      (λ y _. >>=-ne-err (traverse f xs) _ e (traverse-ne-err f xs e h) (λ ys _ same. cc))

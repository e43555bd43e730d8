-- ===== src/Data/Json.antt =====
-- `JSON.stringify` of nulls, natural numbers, strings and arrays.
pub mod Strings
pub mod Values
use pnw.Base.{
  ℕ, ◌+◌, ◌/◌, ◌%◌, Bool, true, false, not, ◌&&◌, ◌||◌, List, [], ◌∷◌, ◌++◌, leb, ltb, ◌==◌,
  if◌then◌else◌, ◌≡◌, refl,
}
use pnw.Data.Text.{Text, codes}
use pnw.Data.Decimal.{show}

mutual
  pub data Json : Type 0 where
    null : Json
    num : ℕ → Json
    str : Text → Json
    arr : Items → Json

  pub data Items : Type 0 where
    nil : Items
    cons : Json → Items → Items

abbrev pub hex_digit : ℕ → ℕ
hex_digit n = if ltb n 10 then b'0' + n else 87 + n

-- `\uXXXX`
abbrev pub unicode_escape : ℕ → Text
unicode_escape c =
    b'\\'
    ∷ b'u'
    ∷ hex_digit (c / 4096)
    ∷ hex_digit (c / 256 % 16)
    ∷ hex_digit (c / 16 % 16)
    ∷ hex_digit (c % 16)
    ∷ []

abbrev pub is_lead : ℕ → Bool
is_lead c = leb 0xd800 c && leb c 0xdbff

abbrev pub is_trail : ℕ → Bool
is_trail c = leb 0xdc00 c && leb c 0xdfff

abbrev pub next_is_trail : Text → Bool
next_is_trail [] = false
next_is_trail (c ∷ s) = is_trail c

-- One code unit that belongs to no surrogate pair.
pub escape : ℕ → Text
escape c =
    if c == 8
    then codes "\\b"
    else if c == 9
    then codes "\\t"
    else if c == 10
    then codes "\\n"
    else if c == 12
    then codes "\\f"
    else if c == 13
    then codes "\\r"
    else if c == b'"'
    then codes "\\\""
    else if c == b'\\'
    then codes "\\\\"
    else if ltb c 32 || is_lead c || is_trail c
    then unicode_escape c
    else c ∷ []

-- `paired`: the code unit before this one opened a surrogate pair.
pub quote_from : Bool → Text → Text
quote_from paired [] = []
quote_from paired (c ∷ s) =
    let opens = not paired && is_lead c && next_is_trail s in
    (if paired || opens then c ∷ [] else escape c) ++ quote_from opens s

unfoldable pub quote : Text → Text
unfolding quote_from escape
quote s = b'"' ∷ quote_from false s ++ b'"' ∷ []

unfoldable mutual
  pub stringify : Json → Text
  stringify null = codes "null"
  stringify (num n) = show n
  stringify (str s) = quote s
  stringify (arr nil) = codes "[]"
  stringify (arr (cons j js)) = b'[' ∷ stringify j ++ stringify_rest js

  -- The items after the first, and the closing bracket.
  pub stringify_rest : Items → Text
  stringify_rest nil = codes "]"
  stringify_rest (cons j js) = b',' ∷ stringify j ++ stringify_rest js

stringify_example :
    stringify (arr (cons null (cons (str (codes "a\"")) (cons (num 12) nil))))
    ≡ codes "[null,\"a\\\"\",12]"
unfolding stringify quote show
stringify_example = refl

-- ===== src/Sales/Attachments.antt =====
-- packages/sales/src/sales.ts: the references to the receipts of a bill, and their checks.
use pnw.Base.{
  ℕ, ◌*◌, Bool, false, ◌&&◌, ◌||◌, not, Option, none, some, List, [], ◌∷◌, ◌++◌, leb, ltb, ◌==◌,
  map, find, select, any, all, length, if◌then◌else◌,
}
use pnw.Data.Int.{pos, negsuc, Number, integer, not_integer}
use pnw.Data.Result.{ok, err, ◌>>=◌, ◌>>◌, fail_if, or_fail}
use pnw.Data.Text.{Text, codes, text_eq, is_digit, trim}
use pnw.Sales.Errors.{
  Fallible, refused, no_bill, bad_attachment_id, bad_fingerprint, bad_attachment_type, empty_file,
  file_too_large, already_attached, not_attached,
}
use pnw.Sales.Dates.{first_units}
use pnw.Sales.State.{AttachmentRef, Bill, Sales}

abbrev pub max_attachment_bytes : ℕ
max_attachment_bytes = 10 * 1024 * 1024

abbrev pub is_lower : ℕ → Bool
is_lower c = leb b'a' c && leb c b'z'

abbrev pub is_upper : ℕ → Bool
is_upper c = leb b'A' c && leb c b'Z'

-- [A-Za-z0-9_-]
abbrev pub is_id_char : ℕ → Bool
is_id_char c = is_lower c || is_upper c || is_digit c || c == b'_' || c == b'-'

-- [0-9a-f]
abbrev pub is_hex_char : ℕ → Bool
is_hex_char c = is_digit c || leb b'a' c && leb c b'f'

-- [a-z0-9.+-]
abbrev pub is_type_char : ℕ → Bool
is_type_char c = is_lower c || is_digit c || c == b'.' || c == b'+' || c == b'-'

-- What follows a prefix.
abbrev pub after_prefix : Text → Text → Option Text
after_prefix [] s = some s
after_prefix (c ∷ p) [] = none
after_prefix (c ∷ p) (d ∷ s) = let rest = after_prefix p s in if c == d then rest else none

-- ATTACHMENT_TYPES = /^(image\/[a-z0-9.+-]+|application\/pdf)$/
abbrev pub is_attachment_type : Text → Bool
is_attachment_type type =
    elim (after_prefix (codes "image/") type) [
      | none ↦ false
      | some rest ↦ all is_type_char rest && leb 1 (length rest)
    ]
    || text_eq type (codes "application/pdf")

abbrev pub checked_size : Number → Fallible Number
checked_size not_integer = err (refused empty_file)
checked_size (integer (negsuc n)) = err (refused empty_file)
checked_size (integer (pos n)) =
    if n == 0
    then err (refused empty_file)
    else if ltb max_attachment_bytes n
    then err (refused file_too_large)
    else ok (integer (pos n))

-- `|| "receipt"`
abbrev pub or_receipt : Text → Text
or_receipt [] = codes "receipt"
or_receipt (c ∷ s) = c ∷ s

unfoldable pub clean_attachment : AttachmentRef → Fallible AttachmentRef
clean_attachment ref = do
  let id_ok =
      all is_id_char ref.attachment_id
      && leb 1 (length ref.attachment_id)
      && leb (length ref.attachment_id) 64
  fail_if (not id_ok) (refused bad_attachment_id)
  fail_if (not (all is_hex_char ref.sha256 && (length ref.sha256 == 64))) (refused bad_fingerprint)
  fail_if (not (is_attachment_type ref.type)) (refused bad_attachment_type)
  size ← checked_size ref.size
  ok record {
    attachment_id = ref.attachment_id;
    sha256 = ref.sha256;
    type = ref.type;
    size = size;
    name = or_receipt (first_units 200 (trim ref.name));
  }

unfoldable pub find_bill : Sales → Text → Fallible Bill
find_bill sales id = or_fail (find (λ b. text_eq b.id id) sales.bills) (refused no_bill)

abbrev pub replace_bill : Text → Bill → List Bill → List Bill
replace_bill id next = map (λ b. if text_eq b.id id then next else b)

unfoldable pub attach_to_bill : Sales → Text → AttachmentRef → Fallible Sales
attach_to_bill sales bill_id ref = do
  bill ← find_bill sales bill_id
  clean ← clean_attachment ref
  fail_if (any (λ a. text_eq a.attachment_id clean.attachment_id) bill.attachments)
      (refused already_attached)
  let next : Bill = record bill { attachments = bill.attachments ++ clean ∷ [] }
  ok (record sales { bills = replace_bill bill_id next sales.bills })

unfoldable pub detach_from_bill : Sales → Text → Text → Fallible Sales
detach_from_bill sales bill_id attachment_id = do
  bill ← find_bill sales bill_id
  let left = select (λ a. not (text_eq a.attachment_id attachment_id)) bill.attachments
  fail_if (length left == length bill.attachments) (refused not_attached)
  let next : Bill = record bill { attachments = left }
  ok (record sales { bills = replace_bill bill_id next sales.bills })

abbrev pub ids_on_bills : List Bill → List Text
ids_on_bills [] = []
ids_on_bills (b ∷ bills) = map (λ a. a.attachment_id) b.attachments ++ ids_on_bills bills

unfoldable pub attachment_ids : Sales → List Text
attachment_ids sales = ids_on_bills sales.bills

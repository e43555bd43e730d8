-- ===== src/Ledger/Tags.antt =====
-- packages/ledger/src/dimensions.ts: `cleanTags`, the check of the tags on a line.
use pnw.Base.{Option, none, some, not, if◌then◌else◌}
use pnw.Data.Result.{Result, ok, err, ◌>>=◌}
use pnw.Data.Text.{Text, text_eq, trim, truthy}
use pnw.Ledger.Books.State.{Tags}

-- A label that is missing or empty is left out; one with white space around it is refused.
abbrev pub clean_tag : {E : Type 0} → E → Option Text → Result E (Option Text)
clean_tag e tag = elim (truthy tag) [
  | none ↦ ok none
  | some v ↦ if not (text_eq (trim v) v) then err e else ok (some v)
]

abbrev pub tags_of : Option Text → Option Text → Option Text → Option Tags
tags_of none none none = none
tags_of class location project =
    some (record { class = class; location = location; project = project })

unfoldable pub clean_tags : {E : Type 0} → E → Option Tags → Result E (Option Tags)
clean_tags e none = ok none
clean_tags e (some tags) = do
  class ← clean_tag e tags.class
  location ← clean_tag e tags.location
  project ← clean_tag e tags.project
  ok (tags_of class location project)

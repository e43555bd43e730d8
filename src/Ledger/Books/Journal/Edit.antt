-- ===== src/Ledger/Books/Journal/Edit.antt =====
-- "Validate the replacement before posting anything, so a bad edit changes nothing" (`editEntry` of
-- packages/ledger/src/books.ts): once the reversal is posted, the replacement cannot fail.
use pnw.Base.{◌≡◌, Option, none, List}
use pnw.Data.Result.{ok}
use pnw.Data.Text.{Text, truthy}
use pnw.Ledger.Errors.{Ledger}
use pnw.Ledger.Periods.{IsoDate, assert_date, assert_open}
use pnw.Ledger.Books.State.{Books, Entry, EntryInput, Line, Source, Hashes}
use pnw.Ledger.Books.Journal.{reverse_entry, edit_entry, normalize_source, normalize_lines}

-- What `post` asks of its input, with the values that it computes.
record Checks (b : Books) (input : EntryInput) : Type 0 where
  date : IsoDate
  dated : assert_date input.date ≡ ok date
  open_period : assert_open b.marks date ≡ ok tt
  source : Source
  sourced : normalize_source input.source ≡ ok source
  lines : List Line
  lined : normalize_lines b input.lines ≡ ok lines

module _ (h : Hashes) where
  module _ (b : Books) (id : Text) (corrected : EntryInput) (date : Option IsoDate)
      (now_reversed now_posted : Text) where
    abbrev edit : Ledger (Books × Entry × Entry)
    edit = edit_entry h b id corrected date now_reversed now_posted

    abbrev reversal_alone : Ledger (Books × Entry)
    reversal_alone = reverse_entry h b id (record { date = truthy date; memo = none }) now_reversed

-- ===== src/Ledger/Tests/Journal.antt =====
-- The theorems about the books of packages/ledger/src/books.ts at small books.
use pnw.Base.{◌≡◌, refl, none, some, map, ◌⊎◌, ◌≢◌}
use pnw.Data.Int.{◌+ℤ◌}
use pnw.Data.Result.{ok, err}
use pnw.Data.Text.{codes}
use pnw.Ledger.Errors.{already_reversed}
use pnw.Ledger.Periods.{status_of, slice7, is_locked}
use pnw.Ledger.Books.State.{Books, Entry, EntryInput, LineInput}
use pnw.Ledger.Books.Chart.{balance_of}
use pnw.Ledger.Books.Journal.{post_entry, reverse_entry, find_entry, last_hash}
use pnw.Ledger.Books.Chain.{intact, verify_chain}
use pnw.Ledger.Books.Journal.Balances.{effect, reverse_entry-balance, edit_entry-balance}
use pnw.Ledger.Books.Journal.Rules.{
  IsOpenOn, post_entry-IsOpenOn, reverse_entry-IsOpenOn, reverse_entry-once,
}
use pnw.Ledger.Books.Chain.Canonical.{SameBody, canonical_entry-inj}
use pnw.Ledger.Books.Chain.Tamper.{SameEntries, Collision, verify_chain-same}
use pnw.Ledger.Books.History.{Step}
use pnw.Ledger.Books.History.Reachable.{IsSound, Reach-IsSound}
use pnw.Ledger.Books.History.AppendOnly.{Extends, Step-Extends}
use pnw.Ledger.Tests.Samples.{
  hashes, lower, opening, or_posted, now, as_is, books₀, posted₁, posted, reversed₁, reversed,
  edited₁, edited, found, Reach₁, program,
}

Reach-IsSound_example : IsSound hashes posted₁.0
Reach-IsSound_example = Reach-IsSound lower hashes Reach₁

Step-Extends_example : Extends posted₁.0 edited₁.0
Step-Extends_example =
    Step-Extends lower hashes posted₁.0 edited₁.0
      (Step.edited (codes "je-1") (opening 999) none now now edited₁.1 edited₁.2 edited)

reverse_entry-balance_example :
    balance_of reversed₁.0 (codes "acct-2") +ℤ effect (codes "acct-2") posted₁.1.lines
    ≡ balance_of posted₁.0 (codes "acct-2")
reverse_entry-balance_example =
    reverse_entry-balance hashes posted₁.0 (codes "je-1") as_is now reversed₁ posted₁.1
      (codes "acct-2") found reversed

edit_entry-balance_example :
    balance_of edited₁.0 (codes "acct-6") +ℤ effect (codes "acct-6") posted₁.1.lines
    ≡ balance_of posted₁.0 (codes "acct-6") +ℤ effect (codes "acct-6") edited₁.2.lines
edit_entry-balance_example =
    edit_entry-balance hashes posted₁.0 (codes "je-1") (opening 999) none now now edited₁ posted₁.1
      (codes "acct-6") found edited

-- An edit to a line without an amount is refused.
abbrev broken : EntryInput
broken = opening 0

reverse_entry-once_example :
    reverse_entry hashes reversed₁.0 (codes "je-1") as_is now ≡ err already_reversed
reverse_entry-once_example =
    reverse_entry-once hashes posted₁.0 (codes "je-1") as_is as_is now now reversed₁ reversed

post_entry-IsOpenOn_example : IsOpenOn books₀.marks posted₁.1.date
post_entry-IsOpenOn_example = post_entry-IsOpenOn hashes books₀ (opening 12345) now posted₁ posted

reverse_entry-IsOpenOn_example :
    IsOpenOn posted₁.0.marks reversed₁.1.date
    × (original : Entry) × (find_entry posted₁.0 (codes "je-1") ≡ ok original)
    × (status_of posted₁.0.marks (slice7 original.date) ≢ is_locked)
reverse_entry-IsOpenOn_example =
    reverse_entry-IsOpenOn hashes posted₁.0 (codes "je-1") as_is now reversed₁ reversed

-- The same posting with tags that are all missing: another entry, with the same hash.
abbrev tagged : LineInput → LineInput
tagged l = record l { tags = some (record { class = none; location = none; project = none }) }

posted₂ : Books × Entry
unfolding program books₀
posted₂ = or_posted (
    post_entry hashes books₀ (record (opening 12345) { lines = map tagged (opening 12345).lines })
      now)

intact₁ : verify_chain hashes posted₁.0 ≡ intact
unfolding program books₀ posted₁
intact₁ = refl

intact₂ : verify_chain hashes posted₂.0 ≡ intact
unfolding program books₀ posted₂
intact₂ = refl

same_end : last_hash posted₁.0.entries ≡ last_hash posted₂.0.entries
unfolding program books₀ posted₁ posted₂
same_end = refl

verify_chain-same_example :
    SameEntries hashes posted₁.0.entries posted₂.0.entries ⊎ Collision hashes
unfolding program books₀ posted₁ posted₂
verify_chain-same_example =
    verify_chain-same hashes posted₁.0 posted₂.0 intact₁ intact₂ refl same_end

canonical_entry-inj_example : SameBody posted₁.1.body posted₂.1.body
unfolding program books₀ posted₁ posted₂
canonical_entry-inj_example = canonical_entry-inj posted₁.1.body posted₂.1.body refl

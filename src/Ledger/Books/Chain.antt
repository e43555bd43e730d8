-- ===== src/Ledger/Books/Chain.antt =====
-- The check of every hash and link of the journal (`verifyChain` of packages/ledger/src/books.ts).
pub mod Growth
pub mod Tamper
pub mod Canonical
use pnw.Base.{ℕ, ◌+◌, Bool, true, false, not, List, [], ◌∷◌, ◌==◌, if◌then◌else◌}
use pnw.Data.Text.{Text, text_eq}
use pnw.Ledger.Books.State.{Books, Entry, Hashes, hash_entry, genesis_hash}

pub data Verdict : Type 0 where
  intact : Verdict
  sequence_gap broken_link contents_changed : ℕ → Verdict

module _ (h : Hashes) where
  -- The loop from the index `i` on, with the hash of the entry before.
  unfoldable pub verify_from : ℕ → Text → List Entry → Verdict
  verify_from i prev [] = intact
  verify_from i prev (e ∷ rest) =
      let next = verify_from (i + 1) e.hash rest in
      if not (e.seq == (i + 1))
      then sequence_gap (i + 1)
      else if not (text_eq e.prev_hash prev)
      then broken_link e.seq
      else if not (text_eq (hash_entry h e.body) e.hash)
      then contents_changed e.seq
      else next

  unfoldable pub verify_chain : Books → Verdict
  unfolding verify_from
  verify_chain books = verify_from 0 genesis_hash books.entries

-- ===== src/Ledger/Books/Chain/Growth.antt =====
-- An intact journal stays intact when an entry is appended (`append` and `verifyChain` of
-- packages/ledger/src/books.ts).
use pnw.Base.{ℕ, ◌+◌, ◌≡◌, refl, List, [], ◌∷◌, ◌++◌, length, arith}
use pnw.Data.Text.{Text, text_eq_iff}
use pnw.Ledger.Books.State.{Books, Entry, Hashes, hash_entry, genesis_hash}
use pnw.Ledger.Books.Journal.{Draft, append, last_hash}
use pnw.Ledger.Books.Chain.{intact, verify_from, verify_chain}

-- The hash that the next entry links to, after `entries` that follow the hash `prev`.
abbrev pub hash_after : Text → List Entry → Text
hash_after prev [] = prev
hash_after prev (e ∷ es) = hash_after e.hash es

hash_after-eq : (e : Entry) (es : List Entry) → last_hash (e ∷ es) ≡ hash_after e.hash es
hash_after-eq e [] = refl
hash_after-eq e (e' ∷ es) = hash_after-eq e' es

pub last_hash-eq : (es : List Entry) → last_hash es ≡ hash_after genesis_hash es
last_hash-eq [] = refl
last_hash-eq (e ∷ es) = hash_after-eq e es

module _ (h : Hashes) where
  pub verify_from-snoc :
      (i : ℕ) (prev : Text) (es : List Entry) (e : Entry)
      → verify_from h i prev es ≡ intact
      → e.seq ≡ i + length es + 1
      → e.prev_hash ≡ hash_after prev es
      → e.hash ≡ hash_entry h e.body
      → verify_from h i prev (es ++ e ∷ []) ≡ intact
  unfolding verify_from
  verify_from-snoc i prev [] e v s p d =
      ground (arith, text_eq_iff e.prev_hash prev, text_eq_iff (hash_entry h e.body) e.hash)
  verify_from-snoc i prev (x ∷ es) e v s p d = ground (arith, verify_from-snoc (i + 1) x.hash es e)

  pub verify_chain-append :
      (books : Books) (draft : Draft) (now : Text)
      → verify_chain h books ≡ intact
      → verify_chain h (append h books draft now).0 ≡ intact
  unfolding verify_chain append
  verify_chain-append books draft now v =
      verify_from-snoc 0 genesis_hash books.entries _ v (omega arith) (last_hash-eq books.entries)
        refl

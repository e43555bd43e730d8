-- ===== src/Ledger/Books/Chain/Tamper.antt =====
-- The journal is tamper-evident (packages/ledger/src/hash.ts, `verifyChain` of
-- packages/ledger/src/books.ts): two intact journals of the same length that end in the same hash
-- hold the same entries, or show two texts with one digest.
use pnw.Base.{
  ℕ, ◌+◌, ◌≡◌, sym, ◌∙◌, ◌≢◌, ◌⊎◌, inl, inr, List, [], ◌∷◌, ◌++◌, arith, Bool-cases, length,
}
use mathlib.Core.Bool.{false≢true}
use pnw.Data.Text.{Text, text_eq, text_eq_iff}
use pnw.Ledger.Books.State.{
  Books, Entry, Unhashed, Hashes, hash_entry, canonical_entry, entry_domain, genesis_hash,
}
use pnw.Ledger.Books.Journal.{last_hash}
use pnw.Ledger.Books.Chain.{intact, verify_from, verify_chain}
use pnw.Ledger.Books.Chain.Growth.{hash_after, last_hash-eq}
use pnw.Ledger.Books.Chain.Canonical.{SameBody, canonical_entry-inj}

module _ (h : Hashes) where
  -- The digest of an entry's text, under the domain tag and the zero byte.
  abbrev pub digest : Text → Text
  digest t = h.blake3_hex (h.utf8_to_bytes entry_domain ++ 0 ∷ h.utf8_to_bytes t)

  -- Two different texts with the same digest.
  abbrev pub Collision : Type 0
  Collision = (s : Text) × (t : Text) × (s ≢ t) × (digest s ≡ digest t)

  abbrev pub SameEntries : List Entry → List Entry → Type 0
  SameEntries [] [] = Unit
  SameEntries [] (f ∷ fs) = ⊥
  SameEntries (e ∷ es) [] = ⊥
  SameEntries (e ∷ es) (f ∷ fs) = SameBody e.body f.body × (e.hash ≡ f.hash) × SameEntries es fs

  same_body : (e f : Unhashed) → hash_entry h e ≡ hash_entry h f → SameBody e f ⊎ Collision
  unfolding hash_entry
  same_body e f s = elim (Bool-cases (text_eq (canonical_entry e) (canonical_entry f))) [
    | inl same ↦ inl (canonical_entry-inj e f ((text_eq_iff _ _).0 same))
    | inr differ ↦ inr (
      canonical_entry e,
      canonical_entry f,
      λ e. false≢true (sym differ ∙ (text_eq_iff _ _).1 e),
      s,
    )
  ]

  -- What the check of one entry says.
  verify_cons :
      (i : ℕ) (prev : Text) (e : Entry) (es : List Entry)
      → verify_from h i prev (e ∷ es) ≡ intact
      → (e.prev_hash ≡ prev)
        × (hash_entry h e.body ≡ e.hash)
        × (verify_from h (i + 1) e.hash es ≡ intact)
  unfolding verify_from
  verify_cons i prev e es v =
      ground (arith, text_eq_iff e.prev_hash prev, text_eq_iff (hash_entry h e.body) e.hash)

  same_from :
      (i : ℕ) (prev prev' : Text) (es fs : List Entry)
      → verify_from h i prev es ≡ intact
      → verify_from h i prev' fs ≡ intact
      → length es ≡ length fs
      → hash_after prev es ≡ hash_after prev' fs
      → ((prev ≡ prev') × SameEntries es fs) ⊎ Collision
  same_from i prev prev' [] [] v w n e = inl (e, tt)
  same_from i prev prev' [] (f ∷ fs) v w n e = absurd (omega arith)
  same_from i prev prev' (e₀ ∷ es) [] v w n e = absurd (omega arith)
  same_from i prev prev' (e₀ ∷ es) (f₀ ∷ fs) v w n e =
      let (linked, hashed, rest) = verify_cons i prev e₀ es v in
      let (linked', hashed', rest') = verify_cons i prev' f₀ fs w in
      elim (same_from (i + 1) e₀.hash f₀.hash es fs rest rest' (omega arith) e) [
        | inr collision ↦ inr collision
        | inl (same, tails) ↦ elim (same_body e₀.body f₀.body (hashed ∙ same ∙ sym hashed')) [
          | inr collision ↦ inr collision
          | inl body ↦ inl (sym linked ∙ body.prev_hash ∙ linked', (body, same, tails))
        ]
      ]

  -- Two journals that pass the check, have as many entries and end in the same hash agree entry by
  -- entry in all that is hashed, or two different texts with one digest are at hand.
  pub verify_chain-same :
      (b b' : Books)
      → verify_chain h b ≡ intact
      → verify_chain h b' ≡ intact
      → length b.entries ≡ length b'.entries
      → last_hash b.entries ≡ last_hash b'.entries
      → SameEntries b.entries b'.entries ⊎ Collision
  unfolding verify_chain
  verify_chain-same b b' v w n e =
      elim (same_from 0 genesis_hash genesis_hash b.entries b'.entries v w n
        (sym (last_hash-eq b.entries) ∙ e ∙ last_hash-eq b'.entries)) [
          | inl (_, same) ↦ inl same
          | inr collision ↦ inr collision
        ]

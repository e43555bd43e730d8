-- ===== src/Manifest/Chunks/Ends.antt =====
-- The loops of packages/manifest/src/chunk_planner.ts end, with chunks or with what `BigInt` throws.
use pnw.Base.{
  ℕ, zero, suc, ◌+◌, ◌≤◌, ◌≡◌, refl, Bool, true, false, none, some, List, [], ◌∷◌, length, arith,
  All, inl, inr, ◌⊎◌, any, Option-cases, Bool-cases,
}
use pnw.Data.Int.{ℤ, pos, ◌+ℤ◌}
use pnw.Data.Result.{ok, err}
use pnw.Data.Text.{Text}
use pnw.Data.BigInt.{big_int}
use pnw.Manifest.Chunks.{
  PayrollRow, Manifest, ChunkSize, size_of, ChunkPlan, Commitments, syntax_error, take_rows,
  chunks_from, plan_chunks,
}
use pnw.Manifest.Chunks.Coverage.{IsReadable, plan_chunks-IsCovering, size-positive}

-- `BigInt` throws on the amount.
abbrev pub is_unreadable : PayrollRow → Bool
is_unreadable r = elim (big_int r.net_amount) [ none ↦ true | some _ ↦ false ]

-- The row behind which the inner loop stops is still ahead.
record IsAhead (k : ℕ) (rows rest : List PayrollRow) : Type 0 where
  shorter : length rest ≤ length rows
  moves : 1 ≤ k → suc (length rest) ≤ length rows
  unread : any is_unreadable rest ≡ true

take_rows-IsAhead :
    (k j : ℕ) (rows : List PayrollRow) (net : ℤ)
    → any is_unreadable rows ≡ true
    → (take_rows k j rows net ≡ err syntax_error)
      ⊎ ((taken : List ℕ × ℤ × List PayrollRow) × (take_rows k j rows net ≡ ok taken)
          × IsAhead k rows taken.2)
take_rows-IsAhead zero j rows net h = inr (
  ([], net, rows),
  refl,
  record { shorter = omega arith; moves = λ lo. absurd (omega arith); unread = h },
)
take_rows-IsAhead (suc k) j [] net h = absurd (cc)
take_rows-IsAhead (suc k) j (r ∷ rows) net h = elim (Option-cases (big_int r.net_amount)) [
  | inl throws ↦ inl (rw (throws, take_rows) refl)
  | inr (value, read) ↦
      let later : any is_unreadable rows ≡ true = ground (arith, read, h) in
      elim (take_rows-IsAhead k (j + 1) rows (net +ℤ value) later) [
        | inl throws ↦ inl (rw (read, take_rows) (rw throws refl))
        | inr (taken, done, ahead) ↦ inr (
          (j ∷ taken.0, taken.1, taken.2),
          rw (read, take_rows) (rw done refl),
          record {
            shorter = omega (arith, ahead.shorter);
            moves = λ _. omega (arith, ahead.shorter);
            unread = ahead.unread;
          },
        )
      ]
]

chunks_from-unreadable :
    (c : Commitments) (fuel : ℕ) (batch_id : Text) (size n i : ℕ) (rows : List PayrollRow)
    → 1 ≤ size
    → length rows ≤ fuel
    → any is_unreadable rows ≡ true
    → chunks_from c fuel batch_id size n i rows ≡ err syntax_error
chunks_from-unreadable c fuel batch_id size n i [] lo enough h = absurd (cc)
chunks_from-unreadable c zero batch_id size n i (r ∷ rows) lo enough h = absurd (omega arith)
chunks_from-unreadable c (suc fuel) batch_id size n i (r ∷ rows) lo enough h =
    elim (take_rows-IsAhead size i (r ∷ rows) (pos 0) h) [
      | inl throws ↦ rw (throws, chunks_from) refl
      | inr (taken, done, ahead) ↦
          let later =
            chunks_from-unreadable c fuel batch_id size (n + 1) (i + size) taken.2 lo
              (omega (arith, ahead.moves lo)) ahead.unread in
          rw (done, chunks_from) (rw later refl)
    ]

All-IsReadable : (rows : List PayrollRow) → any is_unreadable rows ≡ false → All IsReadable rows
All-IsReadable [] h = tt
All-IsReadable (r ∷ rows) h = elim (Option-cases (big_int r.net_amount)) [
  | inl throws ↦ absurd (ground (arith, throws, h))
  | inr found ↦ (found, All-IsReadable rows (ground (arith, found.1, h)))
]

-- The planner ends on every run: where `BigInt` throws on the net amount of a row, wherever the row
-- stands, the planner throws what `BigInt` throws, and else it returns chunks.
pub plan_chunks-ends :
    (c : Commitments) (manifest : Manifest) (size : ChunkSize)
    → ((any is_unreadable manifest.rows ≡ true) × (plan_chunks c manifest size ≡ err syntax_error))
      ⊎ ((any is_unreadable manifest.rows ≡ false)
          × ((chunks : List ChunkPlan) × (plan_chunks c manifest size ≡ ok chunks)))
unfolding plan_chunks
plan_chunks-ends c manifest size = elim (Bool-cases (any is_unreadable manifest.rows)) [
  | inl throws ↦ inl (
    throws,
    chunks_from-unreadable c (length manifest.rows) manifest.batch_id (size_of size) 0 0
        manifest.rows (size-positive size) (omega arith) throws,
  )
  | inr reads ↦
      let (chunks, planned, _) =
        plan_chunks-IsCovering c manifest size (All-IsReadable manifest.rows reads) in
      inr (reads, (chunks, planned))
]

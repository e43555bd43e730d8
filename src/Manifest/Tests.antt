-- ===== src/Manifest/Tests.antt =====
-- The chunk planner of packages/manifest/src/chunk_planner.ts on a small run.
use pnw.Base.{◌≡◌, refl, All, List, [], ◌∷◌, ◌⊎◌, any, true, false}
use pnw.Data.Int.{pos, ◌+ℤ◌}
use pnw.Data.Result.{ok, err}
use pnw.Data.Text.{Text, codes, trim}
use pnw.Data.BigInt.{big_int}
use pnw.Manifest.Chunks.{
  PayrollRow, Manifest, two_rows, ChunkPlan, Commitments, plan_chunks, syntax_error,
}
use pnw.Manifest.Chunks.Ends.{is_unreadable, plan_chunks-ends}
use pnw.Manifest.Chunks.Coverage.{IsReadable, IsCovering, plan_chunks-IsCovering}

abbrev identity : Commitments
identity = record { from_hex = λ t. t; to_hex = λ b. b; domain_hash = λ domain bytes. bytes }

abbrev row : Text → PayrollRow
row amount = record { net_amount = amount }

abbrev run : Manifest
run = record {
  batch_id = codes "b";
  rows = row (codes "30") ∷ row (codes " 0x10 ") ∷ row (codes "7") ∷ [];
}

readable : All IsReadable run.rows
unfolding big_int trim
readable = ((pos 30, refl), ((pos 16, refl), ((pos 7, refl), tt)))

plan_chunks-IsCovering_example :
    (chunks : List ChunkPlan) × (plan_chunks identity run two_rows ≡ ok chunks)
    × IsCovering identity (codes "b") 0 2 0 run.rows chunks
plan_chunks-IsCovering_example = plan_chunks-IsCovering identity run two_rows readable

abbrev run_with_fraction : Manifest
run_with_fraction = record {
  batch_id = codes "b";
  rows = row (codes "30") ∷ row (codes "7") ∷ row (codes "1.5") ∷ [];
}

plan_chunks-ends_example :
    ((any is_unreadable run_with_fraction.rows ≡ true)
      × (plan_chunks identity run_with_fraction two_rows ≡ err syntax_error))
    ⊎ ((any is_unreadable run_with_fraction.rows ≡ false)
        × ((chunks : List ChunkPlan) × (plan_chunks identity run_with_fraction two_rows
              ≡ ok chunks)))
plan_chunks-ends_example = plan_chunks-ends identity run_with_fraction two_rows

bad_amount :
    plan_chunks identity (record run { rows = row (codes "1.5") ∷ [] }) two_rows ≡ err syntax_error
unfolding plan_chunks big_int trim ◌+ℤ◌
bad_amount = refl

-- ===== src/Manifest/Chunks.antt =====
-- packages/manifest/src/chunk_planner.ts: the settlement chunks of a payroll run.
pub mod Coverage
pub mod Ends
use pnw.Base.{
  ℕ, zero, suc, ◌+◌, ◌*◌, ◌/◌, ◌%◌, ◌^◌, Option, none, some, List, [], ◌∷◌, ◌++◌, length, ◌==◌,
  if◌then◌else◌,
}
use pnw.Data.Int.{ℤ, pos, ◌+ℤ◌}
use pnw.Data.Result.{Result, ok, err, ◌>>=◌, or_fail}
use pnw.Data.Text.{Text, codes}
use pnw.Data.BigInt.{big_int, show_ℤ}

-- `syntax_error` is what `BigInt` throws; the loop never ends with `out_of_fuel`.
pub data PlanError : Type 0 where
  syntax_error out_of_fuel : PlanError

-- Of a row the planner reads the net amount alone.
pub record PayrollRow : Type 0 where
  pub net_amount : Text

pub record Manifest : Type 0 where
  pub batch_id : Text
  pub rows : List PayrollRow

pub data ChunkSize : Type 0 where
  one_row two_rows : ChunkSize

abbrev pub size_of : ChunkSize → ℕ
size_of one_row = 1
size_of two_rows = 2

pub data Transition : Type 0 where
  execute_payroll execute_payroll_batch_2 : Transition

pub data ChunkStatus : Type 0 where
  is_pending is_proving is_broadcasting is_settled is_failed needs_retry : ChunkStatus

pub record ChunkPlan : Type 0 where
  pub chunk_index : ℕ
  pub chunk_id : Text
  pub row_indices : List ℕ
  pub net_total : Text
  pub transition : Transition
  pub status : ChunkStatus
  pub attempts : ℕ

-- The functions of packages/commitments/src/hash.ts, which is kept in another repository.
pub record Commitments : Type 0 where
  pub from_hex : Text → List ℕ
  pub to_hex : List ℕ → Text
  pub domain_hash : Text → List ℕ → List ℕ

-- Four bytes, the lowest first, as `& 0xff` and `>>` give them.
abbrev pub u32_le : ℕ → List ℕ
u32_le n = n % 256 ∷ n / 2 ^ 8 % 256 ∷ n / 2 ^ 16 % 256 ∷ n / 2 ^ 24 % 256 ∷ []

-- The inner loop from the row `j` on, over at most `k` rows: their indices, the sum of their net
-- amounts and the rows behind them.
abbrev pub take_rows : ℕ → ℕ → List PayrollRow → ℤ → Result PlanError (List ℕ × ℤ × List PayrollRow)
take_rows zero j rows net = ok ([], net, rows)
take_rows (suc k) j [] net = ok ([], net, [])
take_rows (suc k) j (r ∷ rows) net = do
  value ← or_fail (big_int r.net_amount) syntax_error
  (indices, total, rest) ← take_rows k (j + 1) rows (net +ℤ value)
  ok (j ∷ indices, total, rest)

module _ (c : Commitments) where
  unfoldable pub compute_chunk_id : Text → ℕ → Text
  compute_chunk_id batch_id chunk_index =
      c.to_hex (c.domain_hash (codes "PNW::CHUNK") (c.from_hex batch_id ++ u32_le chunk_index))

  abbrev pub new_chunk : Text → ℕ → List ℕ → ℤ → ChunkPlan
  new_chunk batch_id chunk_index indices net = record {
    chunk_index = chunk_index;
    chunk_id = compute_chunk_id batch_id chunk_index;
    row_indices = indices;
    net_total = show_ℤ net;
    transition = if length indices == 1 then execute_payroll else execute_payroll_batch_2;
    status = is_pending;
    attempts = 0;
  }

  -- The loop from the row `i` on, when `n` chunks are there; each turn costs one unit of fuel.
  abbrev pub chunks_from :
      ℕ → Text → ℕ → ℕ → ℕ → List PayrollRow → Result PlanError (List ChunkPlan)
  chunks_from fuel batch_id size n i [] = ok []
  chunks_from zero batch_id size n i (r ∷ rows) = err out_of_fuel
  chunks_from (suc fuel) batch_id size n i (r ∷ rows) = do
    (indices, net, rest) ← take_rows size i (r ∷ rows) (pos 0)
    later ← chunks_from fuel batch_id size (n + 1) (i + size) rest
    ok (new_chunk batch_id n indices net ∷ later)

  unfoldable pub plan_chunks : Manifest → ChunkSize → Result PlanError (List ChunkPlan)
  plan_chunks manifest size =
      chunks_from (length manifest.rows) manifest.batch_id (size_of size) 0 0 manifest.rows

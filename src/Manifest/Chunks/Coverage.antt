-- ===== src/Manifest/Chunks/Coverage.antt =====
-- The chunks of packages/manifest/src/chunk_planner.ts cover the rows of the run, in order.
use pnw.Base.{
  ℕ, zero, suc, ◌+◌, ◌≤◌, ◌≡◌, refl, sym, ap, ◌∙◌, some, List, [], ◌∷◌, ◌++◌, length, arith, All,
  inl, inr, ◌⊎◌, ◌==◌, Bool-cases, or_else, map, or_else, map,
}
use pnw.Data.Int.{ℤ, pos, ◌+ℤ◌, int_laws, parts_eq}
use pnw.Data.Result.{ok}
use pnw.Data.Text.{Text}
use pnw.Data.Sort.{total}
use pnw.Data.BigInt.{big_int, show_ℤ}
use pnw.Manifest.Chunks.{
  PayrollRow, Manifest, ChunkSize, one_row, two_rows, size_of, ChunkPlan, Commitments, take_rows,
  new_chunk, compute_chunk_id, chunks_from, plan_chunks, execute_payroll, execute_payroll_batch_2,
}

-- The numbers from `i` on, one for each row.
abbrev pub indices_of : ℕ → List PayrollRow → List ℕ
indices_of i [] = []
indices_of i (r ∷ rows) = i ∷ indices_of (i + 1) rows

abbrev pub all_indices : List ChunkPlan → List ℕ
all_indices [] = []
all_indices (c ∷ chunks) = c.row_indices ++ all_indices chunks

-- Every amount is a number for `BigInt`.
abbrev pub IsReadable : PayrollRow → Type 0
IsReadable r = (value : ℤ) × (big_int r.net_amount ≡ some value)

abbrev pub value_of : PayrollRow → ℤ
value_of r = or_else (big_int r.net_amount) (pos 0)

value_of-some : (r : PayrollRow) (v : ℤ) → big_int r.net_amount ≡ some v → value_of r ≡ v
value_of-some r v e = ap (λ o. or_else o (pos 0)) e

-- A result of the inner loop: it takes a block of rows from the front.
record IsBlock (k j : ℕ) (net : ℤ) (rows : List PayrollRow) (taken : List ℕ × ℤ × List PayrollRow)
    : Type 0 where
  front : indices_of j rows ≡ taken.0 ++ indices_of (j + length taken.0) taken.2
  size : length taken.0 ≤ k
  rest_length : length taken.0 + length taken.2 ≡ length rows
  moves : 1 ≤ k → 1 ≤ length rows → 1 ≤ length taken.0
  full : 1 ≤ length taken.2 → length taken.0 ≡ k
  readable : All IsReadable taken.2
  sums : taken.1 +ℤ total value_of taken.2 ≡ net +ℤ total value_of rows

take_rows-IsBlock :
    (k j : ℕ) (rows : List PayrollRow) (net : ℤ)
    → All IsReadable rows
    → (taken : List ℕ × ℤ × List PayrollRow) × (take_rows k j rows net ≡ ok taken)
      × IsBlock k j net rows taken
take_rows-IsBlock zero j rows net h =
    let none_taken : j + 0 ≡ j = omega arith in
    (
      ([], net, rows),
      refl,
      record {
        front = ap (λ j. indices_of j rows) (sym none_taken);
        size = omega arith;
        rest_length = omega arith;
        moves = λ lo _. omega arith;
        full = λ _. refl;
        readable = h;
        sums = refl;
      },
    )
take_rows-IsBlock (suc k) j [] net h = (
  ([], net, []),
  refl,
  record {
    front = refl;
    size = omega arith;
    rest_length = refl;
    moves = λ _ lo. omega arith;
    full = λ lo. absurd (omega arith);
    readable = tt;
    sums = refl;
  },
)
take_rows-IsBlock (suc k) j (r ∷ rows) net h =
    let (value, read) = h.0 in
    let (taken, done, block) = take_rows-IsBlock k (j + 1) rows (net +ℤ value) h.1 in
    (
      (j ∷ taken.0, taken.1, taken.2),
      rw (read, take_rows) (rw done refl),
      record {
        front =
            let next : j + 1 + length taken.0 ≡ j + suc (length taken.0) = omega arith in
            ap (λ s. j ∷ s) (block.front ∙ ap (λ n. taken.0 ++ indices_of n taken.2) next);
        size = omega (arith, block.size);
        rest_length = omega (arith, block.rest_length);
        moves = λ _ _. omega arith;
        full = λ lo. omega (arith, block.full lo);
        readable = block.readable;
        sums = omega (int_laws, parts_eq _ _ block.sums, parts_eq _ _ (value_of-some r value read));
      },
    )

-- The transition that settles as many rows as a chunk has.
abbrev pub FitsTransition : ChunkPlan → Type 0
FitsTransition c =
    ((length c.row_indices ≡ 1) × (c.transition ≡ execute_payroll))
    ⊎ ((length c.row_indices ≡ 2) × (c.transition ≡ execute_payroll_batch_2))

-- Chunk number i, counted from `n`, has the index i and the id of that index.
abbrev pub AreNumbered : Commitments → Text → ℕ → List ChunkPlan → Type 0
AreNumbered c batch_id n [] = Unit
AreNumbered c batch_id n (k ∷ chunks) =
    (k.chunk_index ≡ n)
    × (k.chunk_id ≡ compute_chunk_id c batch_id n)
    × AreNumbered c batch_id (n + 1) chunks

pub record IsCovering (c : Commitments) (batch_id : Text) (n size i : ℕ) (rows : List PayrollRow)
    (chunks : List ChunkPlan) : Type 0 where
  pub in_order : all_indices chunks ≡ indices_of i rows
  pub not_empty : All (λ k. 1 ≤ length k.row_indices) chunks
  pub sized : All (λ k. length k.row_indices ≤ size) chunks
  pub numbered : AreNumbered c batch_id n chunks
  pub settled : All FitsTransition chunks
  pub amounts : List ℤ
  pub totals : map (λ k. k.net_total) chunks ≡ map show_ℤ amounts
  pub sums : total (λ a. a) amounts ≡ total value_of rows

-- Where rows are left, the next one is the one behind a full block.
next_row :
    (i size : ℕ) (taken : List ℕ) (rest : List PayrollRow)
    → (1 ≤ length rest → length taken ≡ size)
    → indices_of (i + size) rest ≡ indices_of (i + length taken) rest
next_row i size taken [] full = refl
next_row i size taken (r ∷ rest) full =
    ap (λ k. indices_of (i + k) (r ∷ rest)) (sym (full (omega arith)))

pub size-positive : (size : ChunkSize) → 1 ≤ size_of size
size-positive one_row = omega arith
size-positive two_rows = omega arith

size-le-two : (size : ChunkSize) → size_of size ≤ 2
size-le-two one_row = omega arith
size-le-two two_rows = omega arith

chunk-FitsTransition :
    (c : Commitments) (batch_id : Text) (n : ℕ) (indices : List ℕ) (net : ℤ)
    → 1 ≤ length indices
    → length indices ≤ 2
    → FitsTransition (new_chunk c batch_id n indices net)
chunk-FitsTransition c batch_id n indices net lo hi = elim (Bool-cases (length indices == 1)) [
  | inl one ↦ inl (ground arith, rw one refl)
  | inr two ↦ inr (ground arith, rw two refl)
]

abbrev Planned : Commitments → ℕ → Text → ℕ → ℕ → ℕ → List PayrollRow → Type 0
Planned c fuel batch_id size n i rows =
    (chunks : List ChunkPlan) × (chunks_from c fuel batch_id size n i rows ≡ ok chunks)
    × IsCovering c batch_id n size i rows chunks

chunks_from-IsCovering :
    (c : Commitments) (fuel : ℕ) (batch_id : Text) (size n i : ℕ) (rows : List PayrollRow)
    → 1 ≤ size
    → size ≤ 2
    → length rows ≤ fuel
    → All IsReadable rows
    → Planned c fuel batch_id size n i rows
chunks_from-IsCovering c fuel batch_id size n i [] lo hi enough h = (
  [],
  refl,
  record {
    in_order = refl;
    not_empty = tt;
    sized = tt;
    numbered = tt;
    settled = tt;
    amounts = [];
    totals = refl;
    sums = refl;
  },
)
chunks_from-IsCovering c zero batch_id size n i (r ∷ rows) lo hi enough h = absurd (omega arith)
chunks_from-IsCovering c (suc fuel) batch_id size n i (r ∷ rows) lo hi enough h =
    let (taken, done, block) = take_rows-IsBlock size i (r ∷ rows) (pos 0) h in
    let some_taken : 1 ≤ length taken.0 = block.moves lo (omega arith) in
    let (later, planned, covering) =
      chunks_from-IsCovering c fuel batch_id size (n + 1) (i + size) taken.2 lo hi
        (omega (arith, block.rest_length)) block.readable in
    (
      new_chunk c batch_id n taken.0 taken.1 ∷ later,
      rw (done, chunks_from) (rw planned refl),
      record {
        in_order =
            ap (λ s. taken.0 ++ s) (covering.in_order ∙ next_row i size taken.0 taken.2 block.full)
            ∙ sym block.front;
        not_empty = (some_taken, covering.not_empty);
        sized = (block.size, covering.sized);
        numbered = (refl, refl, covering.numbered);
        settled = (
          chunk-FitsTransition c batch_id n taken.0 taken.1 some_taken (omega (arith, block.size)),
          covering.settled,
        );
        amounts = taken.1 ∷ covering.amounts;
        totals = ap (λ s. show_ℤ taken.1 ∷ s) covering.totals;
        sums = omega (int_laws, parts_eq _ _ covering.sums, parts_eq _ _ block.sums);
      },
    )

-- Where every net amount is a number, the planner returns chunks, whose row indices one after the
-- other are those of the run's rows in order, each once; each chunk has a row and at most as many as
-- the chunk size, and the transition for that many; chunk number i, from 0, has the index i and the
-- id of that index; and the net totals are the texts of numbers that add up to the rows' net amounts.
pub plan_chunks-IsCovering :
    (c : Commitments) (manifest : Manifest) (size : ChunkSize)
    → All IsReadable manifest.rows
    → (chunks : List ChunkPlan) × (plan_chunks c manifest size ≡ ok chunks)
      × IsCovering c manifest.batch_id 0 (size_of size) 0 manifest.rows chunks
unfolding plan_chunks
plan_chunks-IsCovering c manifest size h =
    chunks_from-IsCovering c (length manifest.rows) manifest.batch_id (size_of size) 0 0
      manifest.rows (size-positive size) (size-le-two size) (omega arith) h

-- ===== src/Ledger/Books.antt =====
-- packages/ledger/src/books.ts: the chart, the append-only journal and the period marks.
pub mod State
pub mod Chart
pub mod Journal
pub mod Chain
pub mod Closing
pub mod History

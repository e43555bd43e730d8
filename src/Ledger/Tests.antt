-- ===== src/Ledger/Tests.antt =====
-- Small inputs for the ledger of packages/ledger/src, and its theorems at them.
pub mod Samples
mod Journal
mod Periods
mod Money
mod Reports
mod Templates
mod Inactive
mod Walks

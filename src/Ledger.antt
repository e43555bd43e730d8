-- ===== src/Ledger.antt =====
-- The ledger package, packages/ledger/src: money, periods, accounts, the books and their reports.
pub mod Errors
pub mod Money
pub mod Periods
pub mod Accounts
pub mod Books
pub mod Tags
pub mod Reports
pub mod Templates
pub mod Tests

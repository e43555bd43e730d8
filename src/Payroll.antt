-- ===== src/Payroll.antt =====
-- Payroll in the books, packages/payroll/src: the team, paychecks, pay runs and their settlement.
pub mod Errors
pub mod State
pub mod Team
pub mod Paychecks
pub mod Paystub
pub mod Accounts
pub mod Runs
pub mod Settlement
pub mod Liabilities
mod Tests

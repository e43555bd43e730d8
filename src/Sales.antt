-- ===== src/Sales.antt =====
-- The sales package, packages/sales/src: customers, vendors, invoices, bills, payments and estimates.
pub mod Errors
pub mod Dates
pub mod Amounts
pub mod State
pub mod Parties
pub mod Invoices
pub mod Balances
pub mod Posting
pub mod Payments
pub mod Attachments
pub mod Bills
pub mod BillPayments
pub mod Aging
pub mod Estimates
pub mod Tax
mod Tests

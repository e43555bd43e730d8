-- ===== src/Sales/Tests.antt =====
-- Tests of packages/sales/src, and its theorems at small businesses.
mod Samples
mod Invoices
mod Reports

-- ===== src/Lib.antt =====
-- Hewn's bookkeeping core, the general ledger of packages/ledger/src, the plan of its payroll
-- payments, packages/rail/src/plan.ts, the chunks of a payroll run, packages/manifest/src, its
-- sales package, packages/sales/src, which posts invoices, payments and bills to the ledger, and its
-- payroll, packages/payroll/src, which posts paychecks to the ledger.
--
-- The ledger is a pure library: an operation takes a `Books` value and gives a new one, or throws a
-- LedgerError. Here an operation gives `ok` of the new books or `err` of the error's code
-- (`Ledger` of Ledger/Errors.antt, `Result` of Data/Result.antt). The parts:
--
-- Ledger/Money.antt            packages/ledger/src/money.ts: parseCents, formatCents, sumCents
-- Ledger/Periods.antt          packages/ledger/src/periods.ts: dates, periods, marks, assertOpen
--   Periods/Order, Previous    the order of periods as texts, and the month before
-- Ledger/Accounts.antt         packages/ledger/src/accounts.ts: types and validateAccount
-- Ledger/Books/State.antt      packages/ledger/src/books.ts, the types, and hash.ts
-- Ledger/Books/Chart.antt      books.ts: createBooks and the operations on accounts
--   Ledger/Books/Chart/*       the map of the accounts and the walks up their parents
-- Ledger/Books/Journal.antt    books.ts: postEntry, reverseEntry, editEntry
-- Ledger/Books/Chain.antt      books.ts: verifyChain
-- Ledger/Books/Closing.antt    books.ts: closeThrough, reopenFrom, lockThrough
-- Ledger/Reports.antt          packages/ledger/src/reports.ts: netByAccount, trialBalance, netIncome,
--                             displayBalance
-- Ledger/Templates.antt        packages/ledger/src/templates.ts: the starter charts, applyTemplate
-- Ledger/Books/History.antt    the operations as steps, and the books that they reach
-- Rail/Plan.antt              packages/rail/src/plan.ts: planTransfers, which assigns token records
--                             to payees by exact fit, by best fit, and by splitting records
--   Rail/Plan/*                what each pass keeps, and what the plan guarantees
-- Manifest/Chunks.antt        packages/manifest/src/chunk_planner.ts: planChunks
-- Sales/State.antt            packages/sales/src/sales.ts, the types
-- Sales/Dates.antt, Amounts   sales.ts: addDays, daysBetween, quantities, amounts and rates
-- Sales/Parties.antt          sales.ts: customers and vendors
-- Sales/Invoices.antt         sales.ts: invoice totals, drafts and the checks on them
-- Sales/Posting.antt          sales.ts: sendInvoice, voidInvoice
-- Sales/Balances.antt         sales.ts: what is paid and owed, and the status of it
-- Sales/Payments.antt         sales.ts: receivePayment, voidPayment, suggestApplications
-- Sales/Attachments.antt, Bills, BillPayments
--                             sales.ts: receipts, enterBill, voidBill, payBills, voidBillPayment
-- Sales/Aging.antt            sales.ts: arAging, apAging, salesTaxCollected
-- Sales/Estimates.antt        packages/sales/src/estimates.ts
-- Sales/Tax.antt              packages/sales/src/salestax.ts
-- Payroll/State.antt          packages/payroll/src/payroll.ts, the types
-- Payroll/Team.antt, Paychecks, Accounts, Runs, Settlement, Liabilities
--                             payroll.ts: workers, paychecks, the accounts, pay runs, the settlement
--                             and delivery of paychecks, and the taxes that are owed
-- Payroll/Paystub.antt        packages/payroll/src/paystub.ts
--
-- The sales package keeps a `Sales` value beside the books: an operation takes both and gives both
-- anew, or fails with a SalesError (`Refusal` of Sales/Errors.antt, one constructor for each
-- message) or with an error of the ledger, which goes through. Payroll does the same with a
-- `Payroll` value and `PayrollError`. A posting of a pay run reads the clock once for each entry,
-- and once more for a run that is paid outside the app; the readings are an argument.
--
-- Operations have the names of the functions of the source in snake_case. The journal checks dates
-- against the marks of the periods and lines against the chart; every entry that is appended carries
-- the hash of its text (`canonicalEntry`) and the hash of the entry before. Data/ holds what
-- TypeScript has built in: bigints, strings as sequences of UTF-16 units, decimal numerals,
-- JSON.stringify, maps.
--
-- Amounts and sequence numbers are unbounded: amounts are bigints in the source, and sequence
-- numbers stay below 2^53 in any journal that fits in memory. The walks up the parents of an
-- account have as fuel two more steps than there are accounts: one for each account, one for a text
-- that names none, and one to see the end. Running out is an error code of its own, `endless_walk`,
-- which the source has not (there the walk would not end). An exception of JavaScript itself, where
-- a report meets an account that is not there, is the code `script_error`.
--
-- The chunk planner has as many turns as there are rows, and never needs more.
--
-- Parameters: the tax engine, packages/tax-engine, which computes in floating-point numbers,
-- together with its conversions to and from cents (`compute_tax`), Date.parse (`is_time`), BLAKE3
-- and the UTF-8 encoder (`Hashes`), toLowerCase (`lower_case`), localeCompare (`locale_after`,
-- `locale_compare`), the hash and hex functions of packages/commitments (`Commitments`), and the
-- clock, whose readings are arguments. Nothing is assumed about them.
--
-- Not modelled: the texts of error messages, labels of account types, the field `version`, which is
-- always 1, the ledger's statements, its reports by dimension, its files and those of the sales
-- package and of payroll, hours finer than a hundredth, and the packages and files besides those
-- above.
pub mod Base
pub mod Data
pub mod Ledger
pub mod Sales
pub mod Rail
pub mod Manifest
pub mod Payroll

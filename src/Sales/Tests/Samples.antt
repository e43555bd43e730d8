-- ===== src/Sales/Tests/Samples.antt =====
-- A small business of packages/sales/src, run step by step.
use pnw.Base.{◌≡◌, refl, true, Option, none, some, [], ◌∷◌}
use pnw.Data.Int.{pos, ◌*ℤ◌, integer}
use pnw.Data.Result.{ok, err}
use pnw.Data.Text.{Text, codes}
use pnw.Data.Sort.{sort, sum_of}
use pnw.Ledger.Accounts.{Account, AccountType, SystemRole}
use pnw.Ledger.Tags.{clean_tags}
use pnw.Ledger.Books.State.{Books, Entry, Hashes, bigint}
use pnw.Ledger.Books.Chart.{find_system_account}
use pnw.Ledger.Tests.Samples.{program, no_books, no_entry, lower, now}
use pnw.Sales.Errors.{Fallible}
use pnw.Sales.Dates.{add_days, days_between}
use pnw.Sales.Amounts.{parse_quantity, clean_tax_rate}
use pnw.Sales.State.{
  net_30, Customer, Invoice, InvoiceLine, InvoiceState, Sales, Payment, empty_sales, InvoiceInput,
  InvoiceLineInput, PaymentInput, PartyInput,
}
use pnw.Sales.Parties.{add_customer, clean_party, find_customer}
use pnw.Sales.Invoices.{
  create_invoice, clean_invoice, clean_invoice_lines, clean_line, find_account, line_amount,
  invoice_totals, tax_on, find_invoice,
}
use pnw.Sales.Balances.{invoice_paid, invoice_balance}
use pnw.Sales.Posting.{invoice_entry, send_invoice}
use pnw.Sales.Payments.{
  deposit_account, clean_applications, payable_on, payment_entry, receive_payment, void_payment,
  find_payment,
}

-- The hash functions of these tests: every digest is empty.
abbrev pub hashes : Hashes
hashes = record { blake3_hex = λ _. []; utf8_to_bytes = λ t. t }

abbrev account : Text → AccountType → Option SystemRole → Account
account id type system = record {
  id = id;
  name = id;
  number = none;
  type = type;
  parent_id = none;
  description = none;
  active = true;
  system = system;
}

abbrev pub tax_payable : Account
tax_payable =
    account (codes "tax") AccountType.other_current_liability (some SystemRole.sales_tax_payable)

-- Books without entries: the accounts that postings of sales hit.
abbrev pub shop : Books
shop = record no_books {
  accounts =
      account (codes "ar") AccountType.accounts_receivable (some SystemRole.accounts_receivable)
      ∷ tax_payable
      ∷ account (codes "work") AccountType.income none
      ∷ account (codes "bank") AccountType.bank none
      ∷ [];
}

-- Unfolds what the sales package computes with.
unfoldable pub sales_program : Unit {0}
unfolding program add_customer clean_party find_customer create_invoice clean_invoice
    clean_invoice_lines clean_line find_account line_amount invoice_totals tax_on find_invoice
    invoice_paid invoice_balance invoice_entry send_invoice parse_quantity clean_tax_rate clean_tags
    add_days days_between find_system_account deposit_account clean_applications payable_on
    payment_entry receive_payment void_payment find_payment ◌*ℤ◌ sort sum_of
sales_program = tt

abbrev pub ann : PartyInput
ann = record { name = codes " Ann "; email = none; terms = none }

abbrev pub invoice_line : InvoiceLineInput
invoice_line = record {
  description = codes "Repair";
  account_id = codes "work";
  quantity = codes "2.5";
  unit_price = bigint (pos 1999);
  taxable = true;
  tags = none;
}

abbrev pub invoice_input : InvoiceInput
invoice_input = record {
  customer_id = codes "cust-1";
  date = codes "2026-10-15";
  due_date = none;
  terms = none;
  lines = invoice_line ∷ [];
  tax_rate_bp = some (integer (pos 825));
  memo = none;
}

abbrev pub customer : Customer
customer = record {
  id = codes "cust-1";
  name = codes "Ann";
  email = none;
  terms = net_30;
  active = true;
}

abbrev pub line : InvoiceLine
line = record {
  description = codes "Repair";
  account_id = codes "work";
  quantity = codes "2.5";
  unit_price = pos 1999;
  taxable = true;
  tags = none;
}

abbrev pub invoice : InvoiceState → Invoice
invoice state = record {
  id = codes "inv-1";
  number = codes "INV-0001";
  customer_id = codes "cust-1";
  date = codes "2026-10-15";
  due_date = codes "2026-11-14";
  terms = net_30;
  lines = line ∷ [];
  tax_rate_bp = 825;
  memo = none;
  state = state;
  entry_id = none;
  void_entry_id = none;
  estimate_id = none;
}

-- A customer with one invoice.
abbrev pub with_invoice : InvoiceState → Sales
with_invoice state = record empty_sales {
  customers = customer ∷ [];
  invoices = invoice state ∷ [];
  next_customer = 2;
  next_invoice = 2;
}

-- It is what the operations make of an empty start.
created :
    create_invoice shop
      (record empty_sales { customers = customer ∷ []; next_customer = 2 })
      invoice_input
    ≡ ok (with_invoice InvoiceState.draft, invoice InvoiceState.draft)
unfolding sales_program
created = refl

added :
    add_customer lower empty_sales ann
    ≡ ok (record empty_sales { customers = customer ∷ []; next_customer = 2 }, customer)
unfolding sales_program
added = refl

-- The invoice sent, so that 54.10 are owed.
abbrev pub or_sent : Fallible (Books × Sales × Entry) → Books × Sales × Entry
or_sent (ok r) = r
or_sent (err _) = (no_books, empty_sales, no_entry)

unfoldable pub sent₁ : Books × Sales × Entry
unfolding sales_program
sent₁ = or_sent (send_invoice hashes shop (with_invoice InvoiceState.draft) (codes "inv-1") now)

pub sent : send_invoice hashes shop (with_invoice InvoiceState.draft) (codes "inv-1") now ≡ ok sent₁
unfolding sales_program sent₁
sent = refl

-- Part of it paid, and that payment voided.
abbrev pub part : PaymentInput
part = record {
  date = codes "2026-10-20";
  customer_id = codes "cust-1";
  amount = bigint (pos 3000);
  deposit_account_id = codes "bank";
  reference = none;
  applications = record { target_id = codes "inv-1"; amount = bigint (pos 2500) } ∷ [];
}

abbrev pub no_payment_made : Payment
no_payment_made = record {
  id = [];
  date = [];
  customer_id = [];
  amount = pos 0;
  deposit_account_id = [];
  reference = none;
  applications = [];
  entry_id = [];
  void_entry_id = none;
}

abbrev pub or_received :
    Fallible (Books × Sales × Payment × Entry) → Books × Sales × Payment × Entry
or_received (ok r) = r
or_received (err _) = (no_books, empty_sales, no_payment_made, no_entry)

unfoldable pub received₁ : Books × Sales × Payment × Entry
unfolding sales_program
received₁ = or_received (receive_payment hashes shop (with_invoice InvoiceState.sent) part now)

pub received : receive_payment hashes shop (with_invoice InvoiceState.sent) part now ≡ ok received₁
unfolding sales_program received₁
received = refl

abbrev pub or_voided : Fallible (Books × Sales) → Books × Sales
or_voided (ok r) = r
or_voided (err _) = (no_books, empty_sales)

unfoldable pub voided₁ : Books × Sales
unfolding sales_program received₁
voided₁ = or_voided (void_payment hashes received₁.0 received₁.1 (codes "pmt-1") none now)

pub voided : void_payment hashes received₁.0 received₁.1 (codes "pmt-1") none now ≡ ok voided₁
unfolding sales_program received₁ voided₁
voided = refl

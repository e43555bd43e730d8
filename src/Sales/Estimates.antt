-- ===== src/Sales/Estimates.antt =====
-- packages/sales/src/estimates.ts: quotes, their states, and the invoice that one becomes.
pub mod Once
use pnw.Base.{
  ℕ, ◌+◌, Bool, true, false, not, ◌&&◌, ◌||◌, Option, none, some, List, [], ◌∷◌, ◌++◌, map, find,
  select, or_else, ◌==◌, if◌then◌else◌,
}
use pnw.Data.Int.{pos, Number, integer}
use pnw.Data.Result.{ok, err, ◌>>=◌, ◌>>◌, fail_if, or_fail}
use pnw.Data.Text.{Text, codes, text_eq, truthy}
use pnw.Data.Text.Order.{text_lt}
use pnw.Data.Decimal.{show}
use pnw.Ledger.Periods.{IsoDate, assert_date}
use pnw.Ledger.Books.State.{Books}
use pnw.Sales.Errors.{
  Fallible, refused, from_ledger, customer_inactive, no_estimate, estimate_settled, bad_mark,
  estimate_converted, estimate_declined, estimate_already, expiry_before_date,
}
use pnw.Sales.Amounts.{clean_tax_rate}
use pnw.Sales.State.{
  InvoiceLine, InvoiceLineInput, Invoice, InvoiceInput, Estimate, EstimateState, Sales,
}
use pnw.Sales.Parties.{find_customer, trimmed}
use pnw.Sales.Invoices.{
  clean_invoice_lines, date_or_later, create_invoice, pad_start4, replace_invoice,
}
use pnw.Sales.Posting.{line_input}

pub record EstimateInput : Type 0 where
  pub customer_id : Text
  pub date : IsoDate
  pub expiry_date : Option IsoDate
  pub lines : List InvoiceLineInput
  pub tax_rate_bp : Option Number
  pub memo : Option Text

-- "Expired" is shown, not stored.
pub data EstimateStatus : Type 0 where
  stored : EstimateState → EstimateStatus
  expired : EstimateStatus

abbrev pub default_estimate_days : ℕ
default_estimate_days = 30

unfoldable pub state_index : EstimateState → ℕ
state_index EstimateState.draft = 0
state_index EstimateState.sent = 1
state_index EstimateState.accepted = 2
state_index EstimateState.declined = 3
state_index EstimateState.converted = 4

-- `a === b` of two states.
unfoldable pub same_state : EstimateState → EstimateState → Bool
unfolding state_index
same_state a b = state_index a == state_index b

unfoldable pub find_estimate : Sales → Text → Fallible Estimate
find_estimate sales id = or_fail (find (λ e. text_eq e.id id) sales.estimates) (refused no_estimate)

-- `cleanEstimate`, with the id, the number and the state that the caller puts beside its result.
unfoldable pub clean_estimate :
    Books → Sales → EstimateInput → Text → Text → EstimateState → Fallible Estimate
clean_estimate books sales input id number state = do
  customer ← find_customer sales input.customer_id
  date ← from_ledger (assert_date input.date)
  expiry_date ← date_or_later input.expiry_date date default_estimate_days
  fail_if (text_lt expiry_date date) (refused expiry_before_date)
  lines ← clean_invoice_lines books input.lines
  tax_rate_bp ← clean_tax_rate input.tax_rate_bp
  ok record {
    id = id;
    number = number;
    customer_id = customer.id;
    date = date;
    expiry_date = expiry_date;
    lines = lines;
    tax_rate_bp = tax_rate_bp;
    memo = trimmed input.memo;
    state = state;
    invoice_id = none;
  }

unfoldable pub create_estimate : Books → Sales → EstimateInput → Fallible (Sales × Estimate)
create_estimate books sales input = do
  customer ← find_customer sales input.customer_id
  fail_if (not customer.active) (refused customer_inactive)
  estimate ←
      clean_estimate books sales input (codes "est-" ++ show sales.next_estimate)
        (codes "EST-" ++ pad_start4 sales.next_estimate) EstimateState.draft
  ok (
    record sales {
      estimates = sales.estimates ++ estimate ∷ [];
      next_estimate = sales.next_estimate + 1;
    },
    estimate,
  )

abbrev pub replace_estimate : Text → Estimate → List Estimate → List Estimate
replace_estimate id next = map (λ e. if text_eq e.id id then next else e)

-- A draft or a sent estimate, which can still change.
abbrev pub is_pending : EstimateState → Bool
is_pending state = same_state state EstimateState.draft || same_state state EstimateState.sent

unfoldable pub update_estimate : Books → Sales → Text → EstimateInput → Fallible Sales
update_estimate books sales id input = do
  current ← find_estimate sales id
  fail_if (not (is_pending current.state)) (refused estimate_settled)
  next ← clean_estimate books sales input id current.number current.state
  ok (record sales { estimates = replace_estimate id next sales.estimates })

unfoldable pub delete_estimate : Sales → Text → Fallible Sales
delete_estimate sales id = do
  current ← find_estimate sales id
  fail_if (same_state current.state EstimateState.converted) (refused estimate_converted)
  ok (record sales { estimates = select (λ e. not (text_eq e.id id)) sales.estimates })

abbrev pub is_mark : EstimateState → Bool
is_mark state =
    same_state state EstimateState.sent
    || same_state state EstimateState.accepted
    || same_state state EstimateState.declined

unfoldable pub mark_estimate : Sales → Text → EstimateState → Fallible Sales
mark_estimate sales id state = do
  current ← find_estimate sales id
  fail_if (not (is_mark state)) (refused bad_mark)
  fail_if (same_state current.state EstimateState.converted) (refused estimate_converted)
  fail_if (same_state current.state state) (refused estimate_already)
  ok (record sales {
    estimates =
        map (λ e. if text_eq e.id id then record e { state = state } else e) sales.estimates;
  })

unfoldable pub estimate_status : Estimate → IsoDate → EstimateStatus
estimate_status estimate today =
    if is_pending estimate.state && text_lt estimate.expiry_date today
    then expired
    else stored estimate.state

-- The draft invoice that an estimate becomes, as it is handed to `createInvoice`.
abbrev pub invoice_input_of : Estimate → Option IsoDate → InvoiceInput
invoice_input_of estimate date = record {
  customer_id = estimate.customer_id;
  date = or_else date estimate.date;
  due_date = none;
  terms = none;
  lines = map line_input estimate.lines;
  tax_rate_bp = some (integer (pos estimate.tax_rate_bp));
  memo = truthy estimate.memo;
}

unfoldable pub convert_estimate_to_invoice :
    Books → Sales → Text → Option IsoDate → Fallible (Sales × Invoice)
convert_estimate_to_invoice books sales id date = do
  estimate ← find_estimate sales id
  fail_if (same_state estimate.state EstimateState.converted) (refused estimate_converted)
  fail_if (same_state estimate.state EstimateState.declined) (refused estimate_declined)
  (next, created) ← create_invoice books sales (invoice_input_of estimate date)
  let invoice : Invoice = record created { estimate_id = some estimate.id }
  let converted_estimate : Estimate = record estimate {
    state = EstimateState.converted;
    invoice_id = some invoice.id;
  }
  ok (
    record next {
      invoices = replace_invoice invoice.id invoice next.invoices;
      estimates = replace_estimate id converted_estimate next.estimates;
    },
    invoice,
  )

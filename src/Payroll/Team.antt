-- ===== src/Payroll/Team.antt =====
-- packages/payroll/src/payroll.ts: the team.
use pnw.Base.{◌+◌, Bool, true, not, [], ◌∷◌, ◌++◌, map, find, any, select, or_else, if◌then◌else◌}
use pnw.Data.Int.{pos, ltb_ℤ, leb_ℤ}
use pnw.Data.Result.{ok, err, ◌>>=◌, ◌>>◌, fail_if, or_fail}
use pnw.Data.Text.{Text, codes, text_eq, trim}
use pnw.Data.Decimal.{show}
use pnw.Ledger.Money.{Cents}
use pnw.Ledger.Books.State.{Amount, bigint, not_bigint}
use pnw.Payroll.Errors.{
  Checked, refused_by_payroll, worker_needs_name, bad_pay_rate, negative_w4, no_worker,
  worker_was_paid,
}
use pnw.Payroll.State.{W4, W4Input, Worker, WorkerInput, WorkerChanges, Payroll}

abbrev pub checked_rate : Amount → Checked Cents
checked_rate not_bigint = err (refused_by_payroll bad_pay_rate)
checked_rate (bigint c) = if leb_ℤ c (pos 0) then err (refused_by_payroll bad_pay_rate) else ok c

abbrev pub checked_w4_amount : Amount → Checked Cents
checked_w4_amount not_bigint = err (refused_by_payroll negative_w4)
checked_w4_amount (bigint c) =
    if ltb_ℤ c (pos 0) then err (refused_by_payroll negative_w4) else ok c

-- `validateWorker`, with the worker that the checked input makes.
unfoldable pub validate_worker : WorkerInput → Text → Text → Bool → Checked Worker
validate_worker w id name active = do
  fail_if (text_eq (trim w.name) []) (refused_by_payroll worker_needs_name)
  rate ← checked_rate w.rate
  dependent_credit ← checked_w4_amount w.w4.dependent_credit
  other_income ← checked_w4_amount w.w4.other_income
  extra_deductions ← checked_w4_amount w.w4.extra_deductions
  extra_withholding ← checked_w4_amount w.w4.extra_withholding
  ok record {
    id = id;
    name = name;
    active = active;
    pay_type = w.pay_type;
    rate = rate;
    frequency = w.frequency;
    w4 = record {
      filing_status = w.w4.filing_status;
      dependent_credit = dependent_credit;
      other_income = other_income;
      extra_deductions = extra_deductions;
      extra_withholding = extra_withholding;
    };
  }

unfoldable pub add_worker : Payroll → WorkerInput → Checked (Payroll × Worker)
add_worker payroll input = do
  worker ← validate_worker input (codes "wkr-" ++ show payroll.next_worker) (trim input.name) true
  ok (
    record payroll {
      workers = payroll.workers ++ worker ∷ [];
      next_worker = payroll.next_worker + 1;
    },
    worker,
  )

unfoldable pub find_worker : Payroll → Text → Checked Worker
find_worker payroll id =
    or_fail (find (λ w. text_eq w.id id) payroll.workers) (refused_by_payroll no_worker)

abbrev pub as_w4_input : W4 → W4Input
as_w4_input w4 = record {
  filing_status = w4.filing_status;
  dependent_credit = bigint w4.dependent_credit;
  other_income = bigint w4.other_income;
  extra_deductions = bigint w4.extra_deductions;
  extra_withholding = bigint w4.extra_withholding;
}

-- `{ ...current, ...changes }`
abbrev pub changed_worker : Worker → WorkerChanges → WorkerInput
changed_worker current changes = record {
  name = or_else changes.name current.name;
  pay_type = or_else changes.pay_type current.pay_type;
  rate = or_else changes.rate (bigint current.rate);
  frequency = or_else changes.frequency current.frequency;
  w4 = or_else changes.w4 (as_w4_input current.w4);
}

-- The name is kept as it is given, with the white space around it.
unfoldable pub update_worker : Payroll → Text → WorkerChanges → Checked Payroll
update_worker payroll id changes = do
  current ← find_worker payroll id
  let input = changed_worker current changes
  next ← validate_worker input current.id input.name (or_else changes.active current.active)
  ok (record payroll { workers = map (λ w. if text_eq w.id id then next else w) payroll.workers })

unfoldable pub has_been_paid : Payroll → Text → Bool
has_been_paid payroll id = any (λ r. any (λ p. text_eq p.worker_id id) r.paychecks) payroll.runs

unfoldable pub remove_worker : Payroll → Text → Checked Payroll
remove_worker payroll id = do
  fail_if (not (any (λ w. text_eq w.id id) payroll.workers)) (refused_by_payroll no_worker)
  fail_if (has_been_paid payroll id) (refused_by_payroll worker_was_paid)
  ok (record payroll { workers = select (λ w. not (text_eq w.id id)) payroll.workers })

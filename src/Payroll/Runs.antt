-- ===== src/Payroll/Runs.antt =====
-- packages/payroll/src/payroll.ts: previewing and posting a pay run.
pub mod Balanced
pub mod Parity
use pnw.Base.{
  ℕ, suc, ◌+◌, Bool, true, false, not, ◌&&◌, ◌||◌, Option, none, some, List, [], ◌∷◌, ◌++◌, map,
  find, any, or_else, length, ◌==◌, if◌then◌else◌,
}
use pnw.Data.Int.{ℤ, pos, ◌+ℤ◌, ltb_ℤ, eqb_ℤ}
use pnw.Data.Result.{Result, ok, err, ◌>>=◌, ◌>>◌, fail_if, or_fail, traverse}
use pnw.Data.Text.{Text, codes, text_eq, trim, truthy, is_truthy}
use pnw.Data.Text.Order.{text_lt}
use pnw.Data.Decimal.{show}
use pnw.Data.Dict.{lookup}
use pnw.Ledger.Money.{Cents}
use pnw.Ledger.Periods.{IsoDate, assert_date}
use pnw.Ledger.Tags.{clean_tags}
use pnw.Ledger.Accounts.{Account, AccountType, same_type}
use pnw.Ledger.Books.State.{
  Books, Entry, EntryInput, LineInput, NameRef, employee, SourceKind, payroll, Hashes, Tags,
  account_map,
}
use pnw.Ledger.Books.Journal.{post_entry}
use pnw.Sales.Parties.{trimmed}
use pnw.Sales.Posting.{debit_line, credit_line}
use pnw.Payroll.Errors.{
  Checked, refused_by_payroll, of_ledger, by_tag, nobody_to_pay, worker_inactive, listed_twice,
  period_ends_first, not_a_bank, reference_on_rail,
}
use pnw.Payroll.State.{
  Worker, SettlementMode, external, rail, SettlementStatus, pending, settled, failed, Settlement,
  PaycheckDraft, Paycheck, PayRun, PayrollAccounts, Payroll, PayLine, PayRunInput,
}
use pnw.Payroll.Team.{find_worker}
use pnw.Payroll.Paychecks.{
  TaxQuestion, TaxAnswer, compute_paycheck, gross_for, year_to_date, withheld_from, employer_taxes,
}
use pnw.Payroll.Paystub.{RunDraft, paystub_document, hash_paystub}
use pnw.Payroll.Accounts.{ensure_payroll_accounts}

pub record DoublePayCheck : Type 0 where
  pub blocked : List (Text × Text)
  pub same_day : List (Text × Text)

abbrev pub has_failed : SettlementStatus → Bool
has_failed pending = false
has_failed settled = false
has_failed failed = true

-- A gross that could not be computed matches no paycheck.
abbrev pub is_gross : Cents → Checked Cents → Bool
is_gross gross (ok g) = eqb_ℤ gross g
is_gross gross (err _) = false

abbrev pub check_paychecks :
    Text → Text → Checked Cents → List Paycheck → DoublePayCheck → DoublePayCheck
check_paychecks worker_id run_id gross [] result = result
check_paychecks worker_id run_id gross (p ∷ paychecks) result =
    let exact = is_gross p.gross gross && not (has_failed p.settlement.status) in
    let found = (worker_id, run_id) ∷ [] in
    check_paychecks worker_id run_id gross paychecks (
      if not (text_eq p.worker_id worker_id)
      then result
      else if exact
      then record result { blocked = result.blocked ++ found }
      else record result { same_day = result.same_day ++ found })

abbrev pub check_runs :
    IsoDate → Text → Checked Cents → List PayRun → DoublePayCheck → DoublePayCheck
check_runs pay_date worker_id gross [] result = result
check_runs pay_date worker_id gross (r ∷ runs) result = check_runs pay_date worker_id gross runs (
    if text_eq r.pay_date pay_date
    then check_paychecks worker_id r.id gross r.paychecks result
    else result)

abbrev pub check_lines : Payroll → IsoDate → List PayLine → DoublePayCheck → DoublePayCheck
check_lines p pay_date [] result = result
check_lines p pay_date (line ∷ lines) result =
    check_lines p pay_date lines (elim (find_worker p line.worker_id) [
      | err _ ↦ result
      | ok worker ↦ check_runs pay_date worker.id (gross_for worker line.hours) p.runs result
    ])

unfoldable pub check_double_pay : Payroll → IsoDate → List PayLine → DoublePayCheck
check_double_pay p pay_date lines =
    check_lines p pay_date lines (record { blocked = []; same_day = [] })

abbrev pub employee_ref : Text → NameRef
employee_ref id = record { kind = employee; id = id }

abbrev pub if_positive : Cents → LineInput → List LineInput
if_positive amount line = if ltb_ℤ (pos 0) amount then line ∷ [] else []

-- The lines of the entry of one paycheck.
unfoldable pub paycheck_lines : PayrollAccounts → Text → PaycheckDraft → List LineInput
paycheck_lines accounts bank_account_id p =
    let name = some (employee_ref p.worker_id) in
    let employer = employer_taxes p in
    let owed = withheld_from p +ℤ employer in
    debit_line accounts.wages_id p.gross name none p.tags
    ∷ (if_positive employer (debit_line accounts.employer_taxes_id employer name none p.tags)
        ++ (if_positive owed (credit_line accounts.liabilities_id owed name none none)
            ++ if_positive p.net (credit_line bank_account_id p.net name none none)))

abbrev pub paycheck_entry : PayrollAccounts → PayRunInput → Text → Paycheck → EntryInput
paycheck_entry accounts input run_id p = record {
  date = input.pay_date;
  memo = some (codes "Payroll, " ++ input.period_start ++ codes " to " ++ input.period_end);
  source = some (record { kind = SourceKind.payroll; ref = some run_id; doc = p.paystub_hash });
  lines = paycheck_lines accounts input.bank_account_id p.draft;
}

abbrev pub settlement_of : SettlementMode → Option Text → Text → Settlement
settlement_of external reference stamped = record {
  status = settled;
  reference = reference;
  height = none;
  settled_at = some stamped;
  failure = none;
  fee_microcredits = none;
}
settlement_of rail reference stamped = record {
  status = pending;
  reference = none;
  height = none;
  settled_at = none;
  failure = none;
  fee_microcredits = none;
}

abbrev pub is_rail : SettlementMode → Bool
is_rail external = false
is_rail rail = true

module _ (compute_tax : TaxQuestion → TaxAnswer) where
  -- The paycheck of one line, where `seen` are the workers of the lines before it.
  unfoldable pub preview_line : Payroll → IsoDate → List Text → PayLine → Checked PaycheckDraft
  preview_line p pay_date seen line = do
    worker ← find_worker p line.worker_id
    fail_if (not worker.active) (refused_by_payroll worker_inactive)
    fail_if (any (λ id. text_eq id worker.id) seen) (refused_by_payroll listed_twice)
    gross ← gross_for worker line.hours
    ytd ← year_to_date p worker.id pay_date none
    paycheck ← compute_paycheck compute_tax worker gross ytd line.hours
    tags ← clean_tags by_tag line.tags
    ok (record paycheck { tags = tags })

  abbrev pub preview_lines :
      Payroll → IsoDate → List Text → List PayLine → Checked (List PaycheckDraft)
  preview_lines p pay_date seen [] = ok []
  preview_lines p pay_date seen (line ∷ lines) = do
    paycheck ← preview_line p pay_date seen line
    rest ← preview_lines p pay_date (paycheck.worker_id ∷ seen) lines
    ok (paycheck ∷ rest)

  unfoldable pub preview_pay_run : Payroll → PayRunInput → Checked (List PaycheckDraft)
  preview_pay_run p input = do
    _ ← of_ledger (assert_date input.pay_date)
    fail_if (length input.lines == 0) (refused_by_payroll nobody_to_pay)
    preview_lines p input.pay_date [] input.lines

module _ (h : Hashes) where
  -- A paycheck with the hash of its paystub.
  unfoldable pub with_paystub :
      Books → Payroll → RunDraft → Settlement → PaycheckDraft → Checked Paycheck
  with_paystub books p run settlement draft = do
    worker ← find_worker p draft.worker_id
    ytd ← year_to_date p worker.id run.pay_date none
    doc ← paystub_document run draft worker books.settings ytd
    ok record {
      draft = draft;
      paystub_hash = some (hash_paystub h doc);
      settlement = settlement;
      delivery = none;
    }

  -- The entries of the paychecks, where `clock i` is reading number i of the clock. A paycheck of
  -- nothing posts none.
  unfoldable pub post_paychecks :
      PayrollAccounts
      → PayRunInput
      → Text
      → (ℕ → Text)
      → ℕ
      → Books
      → List Paycheck
      → Checked (Books × List Entry)
  post_paychecks accounts input run_id clock i books [] = ok (books, [])
  post_paychecks accounts input run_id clock i books (p ∷ paychecks) =
      elim (eqb_ℤ p.gross (pos 0)) [
        | true ↦ post_paychecks accounts input run_id clock i books paychecks
        | false ↦ do
          (next, entry) ←
              of_ledger (post_entry h books (paycheck_entry accounts input run_id p) (clock i))
          (last, entries) ← post_paychecks accounts input run_id clock (suc i) next paychecks
          ok (last, entry ∷ entries)
      ]

  module _ (compute_tax : TaxQuestion → TaxAnswer) (lower_case : Text → Text) where
    -- Reading 0 of the clock stamps the settlement of a run that is paid outside the app; a run on the
    -- rail takes its first reading as number 1.
    unfoldable pub post_pay_run :
        Books → Payroll → PayRunInput → (ℕ → Text) → Checked (Books × Payroll × PayRun × List Entry)
    post_pay_run books p input clock = do
      _ ← of_ledger (assert_date input.period_start)
      _ ← of_ledger (assert_date input.period_end)
      fail_if (text_lt input.period_end input.period_start) (refused_by_payroll period_ends_first)
      bank ←
          or_fail (lookup input.bank_account_id (account_map books)) (refused_by_payroll not_a_bank)
      fail_if (not (same_type bank.type AccountType.bank)) (refused_by_payroll not_a_bank)
      let mode = or_else input.mode external
      let reference = trimmed input.reference
      fail_if (is_truthy reference && is_rail mode) (refused_by_payroll reference_on_rail)
      computed ← preview_pay_run compute_tax p input
      (prepared, accounts) ← of_ledger (ensure_payroll_accounts lower_case books)
      let run_id = codes "run-" ++ show (length p.runs + 1)
      let draft : RunDraft = record {
        id = run_id;
        pay_date = input.pay_date;
        period_start = input.period_start;
        period_end = input.period_end;
        paychecks = computed;
      }
      let settlement = settlement_of mode reference (clock 0)
      paychecks ← traverse (with_paystub books p draft settlement) computed
      (posted, entries) ← post_paychecks accounts input run_id clock 1 prepared paychecks
      let run : PayRun = record {
        id = run_id;
        pay_date = input.pay_date;
        period_start = input.period_start;
        period_end = input.period_end;
        bank_account_id = input.bank_account_id;
        mode = mode;
        paychecks = paychecks;
        entry_ids = map (λ e. e.id) entries;
      }
      ok (posted, record p { runs = p.runs ++ run ∷ [] }, run, entries)

-- ===== src/Payroll/Runs/Parity.antt =====
-- packages/payroll/src/payroll.ts: a run that is paid on the rail posts what a run that is paid outside
-- the app posts.
use pnw.Base.{
  ℕ, suc, ◌+◌, ◌≡◌, refl, ap, ◌∙◌, subst, not, ◌&&◌, none, some, List, [], ◌∷◌, ◌++◌, map, length,
  Bool-cases, inl, inr,
}
use pnw.Data.Int.{pos, eqb_ℤ}
use pnw.Data.Result.{ok, or_fail, fail_if, traverse, >>=-eq-ok, ok-injective, Result-cases}
use pnw.Data.Text.{Text, codes, is_truthy}
use pnw.Sales.Parties.{trimmed}
use pnw.Data.Text.Order.{text_lt}
use pnw.Data.Decimal.{show}
use pnw.Data.Dict.{lookup}
use pnw.Ledger.Periods.{IsoDate, assert_date}
use pnw.Ledger.Accounts.{Account, AccountType, same_type}
use pnw.Ledger.Books.State.{Books, Entry, Hashes, account_map}
use pnw.Ledger.Books.Journal.{post_entry}
use pnw.Payroll.Errors.{
  of_ledger, refused_by_payroll, not_a_bank, period_ends_first, reference_on_rail,
}
use pnw.Payroll.State.{
  SettlementMode, external, rail, Settlement, PaycheckDraft, Paycheck, PayRun, PayrollAccounts,
  Payroll, PayRunInput,
}
use pnw.Payroll.Team.{find_worker}
use pnw.Payroll.Paychecks.{TaxQuestion, TaxAnswer, year_to_date}
use pnw.Payroll.Paystub.{RunDraft, paystub_document}
use pnw.Payroll.Accounts.{ensure_payroll_accounts}
use pnw.Payroll.Runs.{
  is_rail, paycheck_entry, settlement_of, preview_pay_run, with_paystub, post_paychecks,
  post_pay_run,
}

abbrev pub settle : Settlement → Paycheck → Paycheck
settle s p = record p { settlement = s }

-- The run paid outside the app, with the payment reference that it may have, and the run paid on the
-- rail, which may have none.
abbrev pub outside : PayRunInput → PayRunInput
outside input = record input { mode = some external }

abbrev pub on_rail : PayRunInput → PayRunInput
on_rail input = record input { mode = some rail; reference = none }

-- A run with its mode and settlements as on the rail.
abbrev pub as_rail : PayRun → PayRun
as_rail run = record run {
  mode = rail;
  paychecks = map (settle (settlement_of rail none [])) run.paychecks;
}

module _ (h : Hashes) where
  with_paystub-settle :
      (books : Books) (p : Payroll) (run : RunDraft) (s t : Settlement) (d : PaycheckDraft)
      (x : Paycheck)
      → with_paystub h books p run s d ≡ ok x
      → with_paystub h books p run t d ≡ ok (settle t x)
  unfolding with_paystub
  with_paystub-settle books p run s t d x e =
      let (worker, hw, e1) = >>=-eq-ok (find_worker p d.worker_id) _ e in
      let (ytd, hy, e2) = >>=-eq-ok (year_to_date p worker.id run.pay_date none) _ e1 in
      let (doc, hd, e3) = >>=-eq-ok (paystub_document run d worker books.settings ytd) _ e2 in
      rw (hw, hy, hd) (ap (λ x. ok (settle t x)) (ok-injective _ x e3))

  traverse-settle :
      (books : Books) (p : Payroll) (run : RunDraft) (s t : Settlement) (ds : List PaycheckDraft)
      (xs : List Paycheck)
      → traverse (with_paystub h books p run s) ds ≡ ok xs
      → traverse (with_paystub h books p run t) ds ≡ ok (map (settle t) xs)
  traverse-settle books p run s t [] xs e = ap (λ xs. ok (map (settle t) xs)) (ok-injective [] xs e)
  traverse-settle books p run s t (d ∷ ds) xs e =
      let (x, hx, e1) = >>=-eq-ok (with_paystub h books p run s d) _ e in
      let (rest, hr, e2) =
        >>=-eq-ok (traverse (with_paystub h books p run s) ds) (λ ys. ok (x ∷ ys)) e1 in
      rw (with_paystub-settle books p run s t d x hx, traverse-settle books p run s t ds rest hr)
        (ap (λ xs. ok (map (settle t) xs)) (ok-injective (x ∷ rest) xs e2))

  post_paychecks-settle :
      (accounts : PayrollAccounts) (input : PayRunInput) (run_id : Text) (clock : ℕ → Text) (i : ℕ)
      (books : Books) (xs : List Paycheck) (t : Settlement)
      → post_paychecks h accounts (on_rail input) run_id clock i books (map (settle t) xs)
        ≡ post_paychecks h accounts (outside input) run_id clock i books xs
  unfolding post_paychecks
  post_paychecks-settle accounts input run_id clock i books [] t = refl
  post_paychecks-settle accounts input run_id clock i books (x ∷ xs) t =
      elim (Bool-cases (eqb_ℤ x.gross (pos 0))) [
        | inl nothing ↦
            rw (nothing, post_paychecks)
              (post_paychecks-settle accounts input run_id clock i books xs t)
        | inr some_pay ↦
            rw (some_pay, post_paychecks)
              (elim (Result-cases (
                of_ledger (
                  post_entry h books (paycheck_entry accounts (outside input) run_id x)
                    (clock i)))) [
                      | inl (r, posted) ↦ rw posted (
                          rw (post_paychecks-settle accounts input run_id clock (suc i) r.0 xs t)
                            refl)
                      | inr (e, refused) ↦ rw refused refl
                    ])
      ]

  module _ (compute_tax : TaxQuestion → TaxAnswer) (lower_case : Text → Text) where
    preview-on_rail :
        (p : Payroll) (input : PayRunInput)
        → preview_pay_run compute_tax p (on_rail input)
          ≡ preview_pay_run compute_tax p (outside input)
    unfolding preview_pay_run
    preview-on_rail p input = refl

    -- How a run posts where each of its steps succeeds.
    run_draft : Payroll → PayRunInput → List PaycheckDraft → RunDraft
    run_draft p input computed = record {
      id = codes "run-" ++ show (length p.runs + 1);
      pay_date = input.pay_date;
      period_start = input.period_start;
      period_end = input.period_end;
      paychecks = computed;
    }

    abbrev run_of : SettlementMode → Payroll → PayRunInput → List Paycheck → List Entry → PayRun
    run_of mode p input paychecks entries = record {
      id = codes "run-" ++ show (length p.runs + 1);
      pay_date = input.pay_date;
      period_start = input.period_start;
      period_end = input.period_end;
      bank_account_id = input.bank_account_id;
      mode = mode;
      paychecks = paychecks;
      entry_ids = map (λ e. e.id) entries;
    }

    rail_run :
        (books : Books) (p : Payroll) (input : PayRunInput) (clock : ℕ → Text) (a b : IsoDate)
        (bank : Account) (computed : List PaycheckDraft) (prepared : Books × PayrollAccounts)
        (paychecks : List Paycheck) (posted : Books × List Entry)
        → of_ledger (assert_date input.period_start) ≡ ok a
        → of_ledger (assert_date input.period_end) ≡ ok b
        → fail_if
            (text_lt input.period_end input.period_start)
            (refused_by_payroll period_ends_first)
          ≡ ok tt
        → or_fail (lookup input.bank_account_id (account_map books)) (refused_by_payroll not_a_bank)
          ≡ ok bank
        → fail_if (not (same_type bank.type AccountType.bank)) (refused_by_payroll not_a_bank)
          ≡ ok tt
        → preview_pay_run compute_tax p (on_rail input) ≡ ok computed
        → of_ledger (ensure_payroll_accounts lower_case books) ≡ ok prepared
        → traverse
            (with_paystub h books p
              (run_draft p input computed)
              (settlement_of rail none (clock 0)))
            computed
          ≡ ok paychecks
        → post_paychecks h prepared.1
            (on_rail input)
            (codes "run-" ++ show (length p.runs + 1))
            clock
            1
            prepared.0
            paychecks
          ≡ ok posted
        → post_pay_run h compute_tax lower_case books p (on_rail input) clock
          ≡ ok (
            posted.0,
            record p { runs = p.runs ++ run_of rail p input paychecks posted.1 ∷ [] },
            run_of rail p input paychecks posted.1,
            posted.1,
          )
    unfolding post_pay_run run_draft
    rail_run books p input clock a b bank computed prepared paychecks posted h1 h2 h3 h4 h5 h6 h7 h8
          h9 =
        rw (h1, h2, h3, h4, h5, h6, h7, h8, h9) refl

    -- Where a run that is paid outside the app posts, with a payment reference or without, the same run
    -- paid on the rail from the same account, without the reference, posts too: the same books and the
    -- same entries. Of the run only the mode and the settlement of the paychecks differ.
    pub post_pay_run-parity :
        (books : Books) (p : Payroll) (input : PayRunInput) (clock : ℕ → Text)
        (r : Books × Payroll × PayRun × List Entry)
        → post_pay_run h compute_tax lower_case books p (outside input) clock ≡ ok r
        → post_pay_run h compute_tax lower_case books p (on_rail input) clock
          ≡ ok (r.0, record p { runs = p.runs ++ as_rail r.2 ∷ [] }, as_rail r.2, r.3)
    unfolding post_pay_run run_draft
    post_pay_run-parity books p input clock r e =
        let (a, h1, e1) = >>=-eq-ok (of_ledger (assert_date input.period_start)) _ e in
        let (b, h2, e2) = >>=-eq-ok (of_ledger (assert_date input.period_end)) _ e1 in
        let (_, h3, e3) =
          >>=-eq-ok
            (fail_if (text_lt input.period_end input.period_start)
              (refused_by_payroll period_ends_first))
            _ e2 in
        let (bank, h4, e4) =
          >>=-eq-ok
            (or_fail (lookup input.bank_account_id (account_map books))
              (refused_by_payroll not_a_bank))
            _ e3 in
        let (_, h5, e5) =
          >>=-eq-ok
            (fail_if (not (same_type bank.type AccountType.bank)) (refused_by_payroll not_a_bank)) _
            e4 in
        let reference = trimmed input.reference in
        let (_, _, e5') =
          >>=-eq-ok
            (fail_if (is_truthy reference && is_rail external)
              (refused_by_payroll reference_on_rail))
            _ e5 in
        let (computed, h6, e6) = >>=-eq-ok (preview_pay_run compute_tax p (outside input)) _ e5' in
        let (prepared, h7, e7) =
          >>=-eq-ok (of_ledger (ensure_payroll_accounts lower_case books)) _ e6 in
        let draft = run_draft p input computed in
        let paid = settlement_of external reference (clock 0) in
        let (paychecks, h8, e8) =
          >>=-eq-ok (traverse (with_paystub h books p draft paid) computed) _ e7 in
        let (posted, h9, e9) =
          >>=-eq-ok
            (post_paychecks h prepared.1 (outside input) (codes "run-" ++ show (length p.runs + 1))
              clock 1 prepared.0 paychecks)
            _ e8 in
        let waiting = settlement_of rail none [] in
        let made =
          rail_run books p input clock a b bank computed prepared (map (settle waiting) paychecks)
            posted h1 h2 h3 h4 h5 (preview-on_rail p input ∙ h6) h7
            (traverse-settle books p draft paid waiting computed paychecks h8)
            (post_paychecks-settle prepared.1 input _ clock 1 prepared.0 paychecks waiting ∙ h9) in
        subst
          (λ (r : Books × Payroll × PayRun × List Entry).
            post_pay_run h compute_tax lower_case books p (on_rail input) clock
            ≡ ok (r.0, record p { runs = p.runs ++ as_rail r.2 ∷ [] }, as_rail r.2, r.3))
          (ok-injective _ r e9) made

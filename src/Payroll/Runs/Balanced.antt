-- ===== src/Payroll/Runs/Balanced.antt =====
-- packages/payroll/src/payroll.ts: the entry of a paycheck has equal debits and credits.
use pnw.Base.{
  not, any, ◌≡◌, refl, sym, ◌∙◌, subst, Option, none, some, List, ◌∷◌, ◌++◌, arith, Bool-cases, inl,
  inr,
}
use pnw.Data.Int.{pos, ◌≤ℤ◌, ◌+ℤ◌, ltb_ℤ, int_laws, parts_eq, eq_of_parts, +ℤ-zero}
use pnw.Data.Result.{ok, fail_if, >>=-eq-ok, ok-injective}
use pnw.Data.Sort.{total, total-append}
use pnw.Data.Text.{Text, text_eq}
use pnw.Ledger.Periods.{IsoDate}
use pnw.Ledger.Tags.{clean_tags}
use pnw.Sales.Posting.{debit_line, credit_line}
use pnw.Payroll.Errors.{by_tag}
use pnw.Payroll.Team.{find_worker}
use pnw.Ledger.Money.{Cents}
use pnw.Ledger.Books.State.{LineInput, Tags}
use pnw.Ledger.Books.Journal.Unbalanced.{asked, asked_debits, asked_credits}
use pnw.Payroll.State.{Payroll, PayLine, PaycheckDraft, PayrollAccounts}
use pnw.Payroll.Paychecks.{
  withheld_from, employer_taxes, TaxQuestion, TaxAnswer, compute_paycheck, gross_for, year_to_date,
}
use pnw.Payroll.Paychecks.Bounds.{IsPaycheck, compute_paycheck-IsPaycheck}
use pnw.Payroll.Runs.{employee_ref, if_positive, paycheck_lines, preview_line}

if_positive-asked :
    (w : LineInput → Cents) (amount c : Cents) (line : LineInput)
    → pos 0 ≤ℤ amount
    → w line ≡ c
    → (amount ≡ pos 0 → c ≡ pos 0)
    → total w (if_positive amount line) ≡ c
if_positive-asked w amount c line nonneg weighs nothing = elim (Bool-cases (ltb_ℤ (pos 0) amount)) [
  | inl more ↦ rw (more, weighs) (+ℤ-zero c)
  | inr none_left ↦ rw none_left (sym (nothing (ground (arith, eq_of_parts amount (pos 0)))))
]

three-asked :
    (w : LineInput → Cents) (first : LineInput) (as' bs cs : List LineInput) (d a b c : Cents)
    → w first ≡ d
    → total w as' ≡ a
    → total w bs ≡ b
    → total w cs ≡ c
    → total w (first ∷ (as' ++ (bs ++ cs))) ≡ d +ℤ (a +ℤ (b +ℤ c))
three-asked w first as' bs cs d a b c hd ha hb hc =
    rw (total-append w as' (bs ++ cs), total-append w bs cs, hd, ha, hb, hc) refl

-- The lines of a paycheck debit what they credit: the gross and the employer's taxes.
paycheck_lines-asked :
    (accounts : PayrollAccounts) (bank : Text) (gross : Cents) (p : PaycheckDraft)
    → IsPaycheck gross p
    → pos 0 ≤ℤ withheld_from p
    → (asked_debits (paycheck_lines accounts bank p) ≡ p.gross +ℤ employer_taxes p)
      × (asked_credits (paycheck_lines accounts bank p) ≡ p.gross +ℤ employer_taxes p)
unfolding paycheck_lines
paycheck_lines-asked accounts bank gross p good nonneg =
    let name = some (employee_ref p.worker_id) in
    let employer = employer_taxes p in
    let owed = withheld_from p +ℤ employer in
    let owed_nonneg : pos 0 ≤ℤ owed = omega (int_laws, nonneg, good.employer_nonneg) in
    let taxes = debit_line accounts.employer_taxes_id employer name none p.tags in
    let liability = credit_line accounts.liabilities_id owed name none none in
    let pay = credit_line bank p.net name none none in
    let debits =
      three-asked (λ i. asked i.debit) (debit_line accounts.wages_id p.gross name none p.tags)
        (if_positive employer taxes) (if_positive owed liability) (if_positive p.net pay) p.gross
        employer (pos 0) (pos 0) refl
        (if_positive-asked (λ i. asked i.debit) employer employer taxes good.employer_nonneg refl
          (λ e. e))
        (if_positive-asked (λ i. asked i.debit) owed (pos 0) liability owed_nonneg refl (λ _. refl))
        (if_positive-asked (λ i. asked i.debit) p.net (pos 0) pay good.net_nonneg refl
          (λ _. refl)) in
    let credits =
      three-asked (λ i. asked i.credit) (debit_line accounts.wages_id p.gross name none p.tags)
        (if_positive employer taxes) (if_positive owed liability) (if_positive p.net pay) (pos 0)
        (pos 0) owed p.net refl
        (if_positive-asked (λ i. asked i.credit) employer (pos 0) taxes good.employer_nonneg refl
          (λ _. refl))
        (if_positive-asked (λ i. asked i.credit) owed owed liability owed_nonneg refl (λ e. e))
        (if_positive-asked (λ i. asked i.credit) p.net p.net pay good.net_nonneg refl (λ e. e)) in
    (debits ∙ omega int_laws, credits ∙ omega (int_laws, parts_eq _ _ good.adds_up))

-- With other tags a paycheck is still one.
tags-IsPaycheck :
    (gross : Cents) (p : PaycheckDraft) (tags : Option Tags)
    → IsPaycheck gross p
    → IsPaycheck gross (record p { tags = tags })
unfolding withheld_from employer_taxes
tags-IsPaycheck gross p tags good = record {
  gross_same = good.gross_same;
  gross_nonneg = good.gross_nonneg;
  net_nonneg = good.net_nonneg;
  adds_up = good.adds_up;
  employer_nonneg = good.employer_nonneg;
}

module _ (compute_tax : TaxQuestion → TaxAnswer) where
  -- Where what the tax engine has withheld is not negative, the entry of a paycheck of a preview has
  -- equal debits and credits: the gross and the employer's taxes.
  pub preview_line-balanced :
      (payroll : Payroll) (pay_date : IsoDate) (seen : List Text) (line : PayLine)
      (p : PaycheckDraft) (accounts : PayrollAccounts) (bank : Text)
      → preview_line compute_tax payroll pay_date seen line ≡ ok p
      → pos 0 ≤ℤ withheld_from p
      → (asked_debits (paycheck_lines accounts bank p) ≡ p.gross +ℤ employer_taxes p)
        × (asked_credits (paycheck_lines accounts bank p) ≡ p.gross +ℤ employer_taxes p)
  unfolding preview_line
  preview_line-balanced payroll pay_date seen line p accounts bank e nonneg =
      let (worker, _, e1) = >>=-eq-ok (find_worker payroll line.worker_id) _ e in
      let (_, _, e2) = >>=-eq-ok (fail_if (not worker.active) _) _ e1 in
      let (_, _, e3) = >>=-eq-ok (fail_if (any (λ id. text_eq id worker.id) seen) _) _ e2 in
      let (gross, _, e4) = >>=-eq-ok (gross_for worker line.hours) _ e3 in
      let (ytd, _, e5) = >>=-eq-ok (year_to_date payroll worker.id pay_date none) _ e4 in
      let (made, hm, e6) =
        >>=-eq-ok (compute_paycheck compute_tax worker gross ytd line.hours) _ e5 in
      let (tags, _, e7) = >>=-eq-ok (clean_tags by_tag line.tags) _ e6 in
      let good =
        tags-IsPaycheck gross made tags
          (compute_paycheck-IsPaycheck compute_tax worker gross ytd line.hours made hm) in
      paycheck_lines-asked accounts bank gross p
        (subst (IsPaycheck gross) (ok-injective (record made { tags = tags }) p e7) good) nonneg

-- ===== src/Payroll/Paychecks/Bounds.antt =====
-- packages/payroll/src/payroll.ts: a paycheck adds up, and Social Security stays below its maximum.
use pnw.Base.{ℕ, ◌≤◌, ◌≡◌, refl, subst, Option, arith, Bool-cases, inl, inr, ltb→lt}
use pnw.Data.Int.{pos, ◌≤ℤ◌, ◌+ℤ◌, ◌-ℤ◌, ltb_ℤ, int_laws}
use pnw.Data.Result.{ok, fail_if, >>=-eq-ok, ok-injective}
use pnw.Ledger.Money.{Cents}
use pnw.Sales.Invoices.{tax_on}
use pnw.Sales.Invoices.Bounds.{tax_on-IsNear}
use pnw.Payroll.State.{Worker, Hours, PaycheckDraft}
use pnw.Payroll.Paychecks.{
  pct, ss_bp, medicare_bp, ss_wage_base, ss_annual_max, YearToDate, withheld_from, employer_taxes,
  TaxQuestion, TaxAnswer, cap_ss, ss_wages, compute_paycheck, question_of,
}

pct-nonneg : (c : Cents) (bp : ℕ) → pos 0 ≤ℤ c → bp ≤ 10_000 → pos 0 ≤ℤ pct c bp
unfolding pct tax_on
pct-nonneg c bp h small = (tax_on-IsNear c bp h small).0

cap_ss-nonneg : (amount paid : Cents) → pos 0 ≤ℤ amount → pos 0 ≤ℤ cap_ss amount paid
unfolding cap_ss
cap_ss-nonneg amount paid h = elim (Bool-cases (ltb_ℤ amount (ss_annual_max -ℤ paid))) [
  | inl below ↦ rw below h
  | inr above ↦ rw above (elim (Bool-cases (ltb_ℤ (pos 0) (ss_annual_max -ℤ paid))) [
    | inl room ↦ rw room (ground arith)
    | inr full ↦ rw full (omega arith)
  ])
]

cap_ss-below :
    (amount paid : Cents) → paid ≤ℤ ss_annual_max → paid +ℤ cap_ss amount paid ≤ℤ ss_annual_max
unfolding cap_ss
cap_ss-below amount paid h = elim (Bool-cases (ltb_ℤ amount (ss_annual_max -ℤ paid))) [
  | inl below ↦ rw below (omega (int_laws, ltb→lt _ _ below))
  | inr above ↦ rw above (elim (Bool-cases (ltb_ℤ (pos 0) (ss_annual_max -ℤ paid))) [
    | inl room ↦ rw room (omega int_laws)
    | inr full ↦ rw full (omega (int_laws, h))
  ])
]

ss_wages-nonneg : (gross ytd : Cents) → pos 0 ≤ℤ gross → pos 0 ≤ℤ ss_wages gross ytd
unfolding ss_wages
ss_wages-nonneg gross ytd h = elim (Bool-cases (ltb_ℤ (pos 0) (ss_wage_base -ℤ ytd))) [
  | inl left ↦ rw left (elim (Bool-cases (ltb_ℤ gross (ss_wage_base -ℤ ytd))) [
    | inl small ↦ rw small h
    | inr large ↦ rw large (ground arith)
  ])
  | inr over ↦ rw over (elim (Bool-cases (ltb_ℤ gross (pos 0))) [
    | inl small ↦ rw small h
    | inr large ↦ rw large (omega arith)
  ])
]

-- What holds of a paycheck of `gross`: it adds up, and nothing of it that has to be paid is negative.
pub record IsPaycheck (gross : Cents) (p : PaycheckDraft) : Type 0 where
  pub gross_same : p.gross ≡ gross
  pub gross_nonneg : pos 0 ≤ℤ p.gross
  pub net_nonneg : pos 0 ≤ℤ p.net
  pub adds_up : p.net +ℤ withheld_from p ≡ p.gross
  pub employer_nonneg : pos 0 ≤ℤ employer_taxes p

-- Neither side pays more Social Security in a year than the annual maximum.
pub record IsBelowMax (ytd : YearToDate) (p : PaycheckDraft) : Type 0 where
  pub worker_side : ytd.social_security +ℤ p.social_security ≤ℤ ss_annual_max
  pub employer_side : ytd.employer_social_security +ℤ p.employer_social_security ≤ℤ ss_annual_max

module _ (compute_tax : TaxQuestion → TaxAnswer) where
  pub compute_paycheck-IsPaycheck :
      (worker : Worker) (gross : Cents) (ytd : YearToDate) (hours : Option Hours)
      (p : PaycheckDraft)
      → compute_paycheck compute_tax worker gross ytd hours ≡ ok p
      → IsPaycheck gross p
  unfolding compute_paycheck withheld_from employer_taxes
  compute_paycheck-IsPaycheck worker gross ytd hours p e =
      let (_, g1, e1) = >>=-eq-ok (fail_if (ltb_ℤ gross (pos 0)) _) _ e in
      let t = compute_tax (question_of compute_tax worker gross ytd) in
      let social_security = cap_ss t.social_security_tax ytd.social_security in
      let net =
        gross -ℤ t.federal_income_tax -ℤ social_security -ℤ t.medicare_tax
        -ℤ t.additional_medicare_tax in
      let (_, g2, e2) = >>=-eq-ok (fail_if (ltb_ℤ net (pos 0)) _) _ e1 in
      let nonneg : pos 0 ≤ℤ gross = ground arith in
      let employer =
        cap_ss-nonneg (pct (ss_wages gross ytd.gross) ss_bp) ytd.employer_social_security (
          pct-nonneg (ss_wages gross ytd.gross) ss_bp (ss_wages-nonneg gross ytd.gross nonneg)
            (omega arith)) in
      let medicare = pct-nonneg gross medicare_bp nonneg (omega arith) in
      subst (IsPaycheck gross) (ok-injective _ p e2) (record {
        gross_same = refl;
        gross_nonneg = nonneg;
        net_nonneg = ground arith;
        adds_up = omega int_laws;
        employer_nonneg = omega (int_laws, employer, medicare);
      })

  -- A paycheck of a year in which neither side has paid more Social Security than the annual maximum,
  -- which is computed for a gross: the net and what is withheld add up to the gross, neither the net nor
  -- the employer's taxes are negative, and neither side has paid more than the maximum afterwards.
  pub compute_paycheck-IsBelowMax :
      (worker : Worker) (gross : Cents) (ytd : YearToDate) (hours : Option Hours)
      (p : PaycheckDraft)
      → ytd.social_security ≤ℤ ss_annual_max
      → ytd.employer_social_security ≤ℤ ss_annual_max
      → compute_paycheck compute_tax worker gross ytd hours ≡ ok p
      → IsPaycheck gross p × IsBelowMax ytd p
  unfolding compute_paycheck
  compute_paycheck-IsBelowMax worker gross ytd hours p below_worker below_employer e =
      let (_, _, e1) = >>=-eq-ok (fail_if (ltb_ℤ gross (pos 0)) _) _ e in
      let t = compute_tax (question_of compute_tax worker gross ytd) in
      let social_security = cap_ss t.social_security_tax ytd.social_security in
      let net =
        gross -ℤ t.federal_income_tax -ℤ social_security -ℤ t.medicare_tax
        -ℤ t.additional_medicare_tax in
      let (_, _, e2) = >>=-eq-ok (fail_if (ltb_ℤ net (pos 0)) _) _ e1 in
      (
        compute_paycheck-IsPaycheck worker gross ytd hours p e,
        subst (IsBelowMax ytd) (ok-injective _ p e2) (record {
          worker_side = cap_ss-below t.social_security_tax ytd.social_security below_worker;
          employer_side =
              cap_ss-below (pct (ss_wages gross ytd.gross) ss_bp) ytd.employer_social_security
                below_employer;
        }),
      )

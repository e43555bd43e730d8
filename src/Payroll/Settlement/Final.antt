-- ===== src/Payroll/Settlement/Final.antt =====
-- packages/payroll/src/payroll.ts: a paycheck that is settled stays settled.
use pnw.Base.{
  ◌≡◌, ◌≢◌, refl, sym, ap, ◌∙◌, subst, Bool, true, not, some, List, [], ◌∷◌, map, find, arith, All,
  All-find, Bool-cases, inl, inr, if◌then◌else◌,
}
use pnw.Data.Result.{ok, ◌>>=◌, fail_if, or_fail, >>=-eq-ok, ok-injective, or_fail-eq-ok}
use pnw.Data.Text.{Text, text_eq, is_truthy}
use pnw.Payroll.Errors.{refused_by_payroll, no_run, not_in_run}
use pnw.Payroll.State.{settled, Settlement, Paycheck, PayRun, Payroll}
use pnw.Payroll.Settlement.{
  find_run, find_paycheck, is_bad_height, is_bad_fee, is_allowed, change_paycheck, set_paychecks,
  mark_paycheck_settlement,
}

-- What stands under an id after every such element was changed and kept its id.
find-changed :
    {A : Type 0} (test : A → Bool) (f : A → A) (x : A) (xs : List A)
    → test (f x) ≡ true
    → find test xs ≡ some x
    → find test (map (λ y. if test y then f y else y) xs) ≡ some (f x)
find-changed test f x [] kept found = cc
find-changed test f x (y ∷ ys) kept found = elim (Bool-cases (test y)) [
  | inl here ↦ let same : y ≡ x = ground (arith, found, here) in rw (here, same, kept) refl
  | inr other ↦ rw (other, other) (find-changed test f x ys kept (ground (arith, found, other)))
]

find-test :
    {A : Type 0} (test : A → Bool) (x : A) (xs : List A) → find test xs ≡ some x → test x ≡ true
find-test test x xs found = (All-find (λ _. Unit {0}) test xs x (all_units xs) found).1
  where
    all_units : {A : Type 0} (xs : List A) → All (λ _. Unit {0}) xs
    all_units [] = tt
    all_units (_ ∷ xs) = (tt, all_units xs)

-- A paycheck that is settled takes no mark.
settled-takes-none :
    (payroll after : Payroll) (run_id worker_id : Text) (next : Settlement) (run : PayRun)
    (p : Paycheck)
    → find_run payroll run_id ≡ ok run
    → find_paycheck run worker_id ≡ ok p
    → p.settlement.status ≡ settled
    → mark_paycheck_settlement payroll run_id worker_id next ≢ ok after
unfolding mark_paycheck_settlement is_allowed
settled-takes-none payroll after run_id worker_id next run p hr hp status e =
    let (run', hr', e1) = >>=-eq-ok (find_run payroll run_id) _ e in
    let (p', hp', e2) = >>=-eq-ok (find_paycheck run' worker_id) _ e1 in
    let (_, _, e3) = >>=-eq-ok (fail_if (is_bad_height next.height) _) _ e2 in
    let (_, _, e4) = >>=-eq-ok (fail_if (is_bad_fee next.fee_microcredits) _) _ e3 in
    let (_, allowed, _) =
      >>=-eq-ok
        (fail_if (not (is_allowed p'.settlement.status next.status (is_truthy next.reference))) _) _
        e4 in
    let same_run : run' ≡ run = ok-injective run' run (sym hr' ∙ hr) in
    let same_p : p' ≡ p =
      ok-injective p' p (sym hp' ∙ ap (λ r. find_paycheck r worker_id) same_run ∙ hp) in
    let status' : p'.settlement.status ≡ settled =
      ap (λ (p : Paycheck). p.settlement.status) same_p ∙ status in
    ground (arith, allowed, status')

-- Once a paycheck is marked as settled, the mark stands, and no mark on it succeeds any more.
pub settled-IsFinal :
    (payroll payroll' : Payroll) (run_id worker_id : Text) (s : Settlement)
    → mark_paycheck_settlement payroll run_id worker_id s ≡ ok payroll'
    → s.status ≡ settled
    → ((find_run payroll' run_id >>= λ r. find_paycheck r worker_id >>= λ p. ok p.settlement)
        ≡ ok s)
      × ((next : Settlement) (after : Payroll)
          → mark_paycheck_settlement payroll' run_id worker_id next ≢ ok after)
unfolding mark_paycheck_settlement find_run find_paycheck
settled-IsFinal payroll payroll' run_id worker_id s e status =
    let (run, hr, e1) = >>=-eq-ok (find_run payroll run_id) _ e in
    let (p, hp, e2) = >>=-eq-ok (find_paycheck run worker_id) _ e1 in
    let (_, _, e3) = >>=-eq-ok (fail_if (is_bad_height s.height) _) _ e2 in
    let (_, _, e4) = >>=-eq-ok (fail_if (is_bad_fee s.fee_microcredits) _) _ e3 in
    let (_, _, e5) =
      >>=-eq-ok (fail_if (not (is_allowed p.settlement.status s.status (is_truthy s.reference))) _)
        _ e4 in
    let marked = change_paycheck worker_id (λ p. record p { settlement = s }) run.paychecks in
    let same : set_paychecks payroll run_id marked ≡ payroll' = ok-injective _ payroll' e5 in
    let named = find-test (λ r. text_eq r.id run_id) run payroll.runs (or_fail-eq-ok _ _ run hr) in
    let after = set_paychecks payroll run_id marked in
    let found_run : find_run after run_id ≡ ok (record run { paychecks = marked }) =
      ap (λ o. or_fail o (refused_by_payroll no_run))
        (find-changed (λ r. text_eq r.id run_id) (λ r. record r { paychecks = marked }) run
          payroll.runs named (or_fail-eq-ok _ _ run hr)) in
    let named_p =
      find-test (λ p. text_eq p.worker_id worker_id) p run.paychecks (or_fail-eq-ok _ _ p hp) in
    let found_p : find_paycheck (record run { paychecks = marked }) worker_id
        ≡ ok (record p { settlement = s }) =
      ap (λ o. or_fail o (refused_by_payroll not_in_run))
        (find-changed (λ p. text_eq p.worker_id worker_id) (λ p. record p { settlement = s }) p
          run.paychecks named_p (or_fail-eq-ok _ _ p hp)) in
    subst
      (λ q.
        ((find_run q run_id >>= λ r. find_paycheck r worker_id >>= λ p. ok p.settlement) ≡ ok s)
        × ((next : Settlement) (later : Payroll)
            → mark_paycheck_settlement q run_id worker_id next ≢ ok later))
      same
      (
        rw (found_run, found_p) refl,
        λ next later.
            settled-takes-none after later run_id worker_id next (record run { paychecks = marked })
              (record p { settlement = s }) found_run found_p status,
      )

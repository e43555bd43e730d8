-- ===== src/Payroll/Settlement.antt =====
-- packages/payroll/src/payroll.ts: where the payment of a paycheck stands, and its paystub's delivery.
pub mod Final
use pnw.Base.{
  ℕ, ◌+◌, Bool, true, false, not, ◌&&◌, ◌||◌, Option, none, some, List, [], ◌∷◌, map, find, all,
  length, leb, ltb, ◌==◌, if◌then◌else◌,
}
use pnw.Data.Int.{ℤ, pos, negsuc, ltb_ℤ, Number, integer, not_integer}
use pnw.Data.Result.{ok, err, ◌>>=◌, ◌>>◌, fail_if, or_fail}
use pnw.Data.Text.{Text, text_eq, is_digit, is_truthy}
use pnw.Ledger.Books.State.{Amount, bigint, not_bigint}
use pnw.Payroll.Errors.{
  Checked, refused_by_payroll, no_run, not_in_run, bad_height, negative_fee, bad_move, not_settled,
  bad_slot, bad_lookup, bad_sent_at, earlier_slot, bad_received_at,
}
use pnw.Payroll.State.{
  SettlementStatus, pending, settled, failed, Settlement, PaycheckDelivery, Paycheck, PayRun,
  Payroll,
}

unfoldable pub find_run : Payroll → Text → Checked PayRun
find_run payroll id = or_fail (find (λ r. text_eq r.id id) payroll.runs) (refused_by_payroll no_run)

unfoldable pub find_paycheck : PayRun → Text → Checked Paycheck
find_paycheck run worker_id =
    or_fail (find (λ p. text_eq p.worker_id worker_id) run.paychecks)
      (refused_by_payroll not_in_run)

abbrev pub run_and_paycheck : Payroll → Text → Text → Checked (PayRun × Paycheck)
run_and_paycheck payroll run_id worker_id = do
  run ← find_run payroll run_id
  paycheck ← find_paycheck run worker_id
  ok (run, paycheck)

abbrev pub is_bad_height : Option Number → Bool
is_bad_height none = false
is_bad_height (some not_integer) = true
is_bad_height (some (integer h)) = ltb_ℤ h (pos 0)

abbrev pub is_bad_fee : Option Amount → Bool
is_bad_fee none = false
is_bad_fee (some not_bigint) = true
is_bad_fee (some (bigint c)) = ltb_ℤ c (pos 0)

-- The moves that the queue may make; pending to pending only with the payment's id.
unfoldable pub is_allowed : SettlementStatus → SettlementStatus → Bool → Bool
is_allowed pending pending has_reference = has_reference
is_allowed pending settled has_reference = true
is_allowed pending failed has_reference = true
is_allowed failed pending has_reference = true
is_allowed failed settled has_reference = false
is_allowed failed failed has_reference = false
is_allowed settled to has_reference = false

-- `paychecks.map((p) => (p.workerId === workerId ? f(p) : p))`
abbrev pub change_paycheck : Text → (Paycheck → Paycheck) → List Paycheck → List Paycheck
change_paycheck worker_id f = map (λ p. if text_eq p.worker_id worker_id then f p else p)

-- The run that was found, with its paychecks changed, in place of every run of its id.
abbrev pub set_paychecks : Payroll → Text → List Paycheck → Payroll
set_paychecks payroll run_id paychecks = record payroll {
  runs =
      map (λ r. if text_eq r.id run_id then record r { paychecks = paychecks } else r) payroll.runs;
}

unfoldable pub mark_paycheck_settlement : Payroll → Text → Text → Settlement → Checked Payroll
mark_paycheck_settlement payroll run_id worker_id settlement = do
  run ← find_run payroll run_id
  paycheck ← find_paycheck run worker_id
  fail_if (is_bad_height settlement.height) (refused_by_payroll bad_height)
  fail_if (is_bad_fee settlement.fee_microcredits) (refused_by_payroll negative_fee)
  fail_if
      (not
        (is_allowed paycheck.settlement.status settlement.status (is_truthy settlement.reference)))
      (refused_by_payroll bad_move)
  ok (
      set_paychecks payroll run_id
        (change_paycheck worker_id (λ p. record p { settlement = settlement }) run.paychecks))

abbrev pub is_settled : SettlementStatus → Bool
is_settled pending = false
is_settled settled = true
is_settled failed = false

-- LOOKUP = /^[0-9a-f]{64}$/
abbrev pub is_lookup : Text → Bool
is_lookup s = all (λ c. is_digit c || leb b'a' c && leb c b'f') s && (length s == 64)

-- A delivery as it comes in: its slot is a number that should be an integer.
pub record DeliveryInput : Type 0 where
  pub seq : Number
  pub lookup : Text
  pub sent_at : Text

abbrev pub checked_slot : Number → Checked ℕ
checked_slot not_integer = err (refused_by_payroll bad_slot)
checked_slot (integer (negsuc n)) = err (refused_by_payroll bad_slot)
checked_slot (integer (pos n)) =
    if ltb 0xffff_ffff n then err (refused_by_payroll bad_slot) else ok n

abbrev pub is_earlier : ℕ → Option PaycheckDelivery → Bool
is_earlier seq none = false
is_earlier seq (some d) = ltb seq d.seq

-- Whether a receipt for slot `seq` is one that was waited for.
abbrev pub awaits : ℕ → Option PaycheckDelivery → Bool
awaits seq none = false
awaits seq (some d) = d.seq == seq && not (is_truthy d.received_at)

abbrev pub with_receipt : Text → Option PaycheckDelivery → Option PaycheckDelivery
with_receipt at none = none
with_receipt at (some d) = some (record d { received_at = some at })

-- `is_time`: `Date.parse` reads the text.
module _ (is_time : Text → Bool) where
  unfoldable pub mark_paycheck_delivery : Payroll → Text → Text → DeliveryInput → Checked Payroll
  mark_paycheck_delivery payroll run_id worker_id delivery = do
    run ← find_run payroll run_id
    paycheck ← find_paycheck run worker_id
    fail_if (not (is_settled paycheck.settlement.status)) (refused_by_payroll not_settled)
    seq ← checked_slot delivery.seq
    fail_if (not (is_lookup delivery.lookup)) (refused_by_payroll bad_lookup)
    fail_if (not (is_time delivery.sent_at)) (refused_by_payroll bad_sent_at)
    fail_if (is_earlier seq paycheck.delivery) (refused_by_payroll earlier_slot)
    let clean : PaycheckDelivery = record {
      seq = seq;
      lookup = delivery.lookup;
      sent_at = delivery.sent_at;
      received_at = none;
    }
    ok (
        set_paychecks payroll run_id
          (change_paycheck worker_id (λ p. record p { delivery = some clean }) run.paychecks))

  -- A receipt that nothing waits for changes nothing.
  unfoldable pub mark_paystub_received : Payroll → Text → Text → ℕ → Text → Checked Payroll
  mark_paystub_received payroll run_id worker_id seq received_at = do
    fail_if (not (is_time received_at)) (refused_by_payroll bad_received_at)
    elim (run_and_paycheck payroll run_id worker_id) [
      | err _ ↦ ok payroll
      | ok (run, paycheck) ↦
          if not (awaits seq paycheck.delivery)
          then ok payroll
          else ok (
              set_paychecks payroll run_id (
                change_paycheck worker_id
                  (λ p. record p { delivery = with_receipt received_at paycheck.delivery })
                  run.paychecks))
    ]

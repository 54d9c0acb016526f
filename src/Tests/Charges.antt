-- ===== src/Tests/Charges.antt =====
-- An attempt that starts, is abandoned, is charged, and then succeeds after all.
use byos_service_ts.Prelude.{◌≡◌, refl, true, false, none, some, to_lower}
use byos_service_ts.Domain.Collateral.{non_settlement_debit}
use byos_service_ts.Attempts.{
  Attempt, AbandonmentKind, NotificationKind, is_eligible, new_attempt, record_evidence,
  execute_penalty,
}
use byos_service_ts.Attempts.Eligible.{IsSound, AttemptStep, AttemptReach, attempt-IsSound}
use byos_service_ts.Attempts.Charged.{charged_once}
use byos_service_ts.Tests.Data.{tx_one}

abbrev fresh : Attempt
fresh = new_attempt 1 (some 500) none false false

abbrev started : Attempt
started = record_evidence fresh none NotificationKind.settlement_started false 10

abbrev pub given_up : Attempt
given_up =
    record_evidence started none (NotificationKind.abandoned AbandonmentKind.expired) false 20

abbrev charged : Attempt
charged = execute_penalty given_up (some tx_one) none

abbrev corrected : Attempt
corrected = record_evidence charged none NotificationKind.success true 30

attempt-IsSound_example : IsSound corrected
attempt-IsSound_example = attempt-IsSound 1 (some 500) none false false corrected (
    AttemptReach.next
      (AttemptReach.next
        (AttemptReach.next
          (AttemptReach.next AttemptReach.here
            (AttemptStep.evidence fresh none NotificationKind.settlement_started false 10))
          (AttemptStep.evidence started none (NotificationKind.abandoned AbandonmentKind.expired)
            false 20))
        (AttemptStep.execute given_up (some tx_one) none))
      (AttemptStep.evidence charged none NotificationKind.success true 30))

charged_once_example :
    (corrected.penalty_tx_hash ≡ some (to_lower tx_one)) × (is_eligible corrected.status ≡ false)
charged_once_example =
    charged_once given_up corrected tx_one none
      (unfold new_attempt record_evidence non_settlement_debit in refl)
      (AttemptReach.next AttemptReach.here
        (AttemptStep.evidence charged none NotificationKind.success true 30))

-- ===== src/Attempts/Charged.antt =====
-- An attempt of apps/byos/src/infra/settlement-attempts.ts is charged at most once.
use byos_service_ts.Prelude.{
  ℕ, ◌≡◌, refl, Bool, true, false, ◌&&◌, ◌||◌, Option, some, Text, to_lower, is_some, arith,
  if◌then◌else◌,
}
use byos_service_ts.Debit.{DebitOperation, DebitStatus}
use byos_service_ts.Attempts.{
  Attempt, AttemptStatus, NotificationKind, ReconciliationReason, is_eligible, is_awaiting, or_else,
  starts, when_some, abandonment_of, outcome_of, has_bytes, status_after, record_evidence,
  record_conflict, execute_penalty, may_resume, resume_attempt,
}
use byos_service_ts.Attempts.Eligible.{AttemptStep, AttemptReach, is_chargeable_state}

-- Charged with this transaction, and not to be charged again.
abbrev IsPaid : Text → Attempt → Type 0
IsPaid hash a =
    (a.penalty_tx_hash ≡ some hash)
    × ((is_chargeable_state a.status a.reconciliation_reason ≡ false)
        × (is_awaiting a.status ≡ false))

paid_status :
    (out complete : Bool) (amount : Option ℕ) (status : AttemptStatus)
    (reason : Option ReconciliationReason)
    → is_chargeable_state status reason ≡ false
    → is_awaiting status ≡ false
    → (is_chargeable_state
          (status_after out true complete amount status)
          (if out && true then some ReconciliationReason.outcome_conflict else reason)
        ≡ false)
      × (is_awaiting (status_after out true complete amount status) ≡ false)
paid_status true complete amount status reason h w = (refl, refl)
paid_status false complete amount status reason h w = rw w (h, w)

charged_by :
    (hash : Text) (bytes : Bool) (tx : Option Text) → tx ≡ some hash → (bytes || is_some tx) ≡ true
charged_by hash true tx h = refl
charged_by hash false tx h = rw h refl

evidence-IsPaid :
    (hash : Text) (a : Attempt) (operation : Option DebitOperation) (kind : NotificationKind)
    (has_tx : Bool) (now : ℕ)
    → IsPaid hash a
    → IsPaid hash (record_evidence a operation kind has_tx now)
unfolding record_evidence
evidence-IsPaid hash a operation kind has_tx now p = (
  p.0,
  rw (charged_by hash (has_bytes operation) a.penalty_tx_hash p.0) (
      paid_status (is_some (outcome_of kind has_tx a.outcome))
        (is_some (or_else a.started_at (starts kind now))
          && is_some (or_else a.abandoned_at (when_some (abandonment_of kind) now)))
        a.amount a.status a.reconciliation_reason p.1.0 p.1.1),
)

not_eligible :
    (status : AttemptStatus) (reason : Option ReconciliationReason)
    → is_chargeable_state status reason ≡ false
    → is_eligible status ≡ false
not_eligible status reason h = ground arith

not_resumed :
    (a : Attempt) (n : ℕ)
    → is_chargeable_state a.status a.reconciliation_reason ≡ false
    → may_resume a n ≡ false
not_resumed a n h = ground arith

step-IsPaid : (hash : Text) {a b : Attempt} → AttemptStep a b → IsPaid hash a → IsPaid hash b
unfolding record_conflict execute_penalty resume_attempt
step-IsPaid hash (AttemptStep.evidence a operation kind has_tx now) p =
    evidence-IsPaid hash a operation kind has_tx now p
step-IsPaid hash (AttemptStep.conflict a) p = (p.0, (refl, refl))
step-IsPaid hash (AttemptStep.execute a landed operation) p =
    rw (not_eligible a.status a.reconciliation_reason p.1.0) p
step-IsPaid hash (AttemptStep.resume a n) p = rw (not_resumed a n p.1.0) p

reach-IsPaid : (hash : Text) {a b : Attempt} → IsPaid hash a → AttemptReach a b → IsPaid hash b
reach-IsPaid hash p AttemptReach.here = p
reach-IsPaid hash p (AttemptReach.next r st) = step-IsPaid hash st (reach-IsPaid hash p r)

debited_now :
    (a : Attempt) (hash : Text) (operation : Option DebitStatus)
    → is_eligible a.status ≡ true
    → IsPaid (to_lower hash) (execute_penalty a (some hash) operation)
unfolding execute_penalty
debited_now a hash operation e = rw e (refl, (refl, refl))

-- Once a debit has landed for an eligible attempt, whatever follows (notifications, conflicts,
-- further executions, resumptions), the attempt keeps that transaction's hash and is never
-- eligible again.
pub charged_once :
    (a b : Attempt) (hash : Text) (operation : Option DebitStatus)
    → is_eligible a.status ≡ true
    → AttemptReach (execute_penalty a (some hash) operation) b
    → (b.penalty_tx_hash ≡ some (to_lower hash)) × (is_eligible b.status ≡ false)
charged_once a b hash operation e r =
    let paid = reach-IsPaid (to_lower hash) (debited_now a hash operation e) r in
    (paid.0, not_eligible b.status b.reconciliation_reason paid.1.0)

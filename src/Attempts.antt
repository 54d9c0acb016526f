-- ===== src/Attempts.antt =====
-- apps/byos/src/infra/settlement-attempts.ts: the state of one settlement attempt, from the
-- notifications that give evidence on it to the abandonment penalty that it may be charged.
pub mod Eligible
pub mod Charged
use byos_service_ts.Prelude.{
  ℕ, Bool, true, false, not, ◌&&◌, ◌||◌, Option, none, some, Text, codes, to_lower, is_some, ltb,
  ◌==◌, if◌then◌else◌,
}
use byos_service_ts.Domain.Collateral.{non_settlement_debit}
use byos_service_ts.Debit.{DebitOperation, DebitStatus}

pub data AbandonmentKind : Type 0 where
  cancelled expired fail : AbandonmentKind

pub data NotificationKind : Type 0 where
  settlement_started success revert other : NotificationKind
  abandoned : AbandonmentKind → NotificationKind

-- `abandonmentKinds.has(kind) ? kind : null`
abbrev pub abandonment_of : NotificationKind → Option AbandonmentKind
abandonment_of (NotificationKind.abandoned k) = some k
abandonment_of _ = none

pub data AttemptStatus : Type 0 where
  awaiting_evidence eligible debited cancelled needs_reconciliation : AttemptStatus

pub data ReconciliationReason : Type 0 where
  retries_exhausted conflicting_membership legacy_debit merged_settlement missing_cap
        outcome_conflict :
      ReconciliationReason

pub data Outcome : Type 0 where
  success revert : Outcome

pub record Attempt : Type 0 where
  pub id : ℕ
  pub penalty_cap : Option ℕ
  pub amount : Option ℕ
  pub started_at : Option ℕ
  pub abandoned_at : Option ℕ
  pub abandonment_kind : Option AbandonmentKind
  pub outcome : Option Outcome
  pub status : AttemptStatus
  pub reconciliation_reason : Option ReconciliationReason
  pub penalty_tx_hash : Option Text

abbrev pub is_eligible : AttemptStatus → Bool
is_eligible AttemptStatus.eligible = true
is_eligible _ = false

abbrev pub in_review : AttemptStatus → Bool
in_review AttemptStatus.needs_reconciliation = true
in_review _ = false

abbrev pub is_awaiting : AttemptStatus → Bool
is_awaiting AttemptStatus.awaiting_evidence = true
is_awaiting _ = false

abbrev pub amount_of : Option ℕ → Option ℕ
amount_of none = none
amount_of (some cap) = some (non_settlement_debit cap)

-- Why a new attempt is reviewed from the start, if it is.
abbrev pub first_reason : Bool → Bool → Option ℕ → Option ReconciliationReason
first_reason true merged cap = some ReconciliationReason.legacy_debit
first_reason false true cap = some ReconciliationReason.merged_settlement
first_reason false false none = some ReconciliationReason.missing_cap
first_reason false false (some cap) = none

abbrev pub first_status : Option ReconciliationReason → AttemptStatus
first_status none = AttemptStatus.awaiting_evidence
first_status (some r) = AttemptStatus.needs_reconciliation

-- The row that the first notification inserts: `cap` and `penalty_tx` are its first proposal's,
-- `legacy_charge` and `merged` what the other tables say of it.
unfoldable pub new_attempt : ℕ → Option ℕ → Option Text → Bool → Bool → Attempt
new_attempt id cap penalty_tx legacy_charge merged = record {
  id = id;
  penalty_cap = cap;
  amount = amount_of cap;
  started_at = none;
  abandoned_at = none;
  abandonment_kind = none;
  outcome = none;
  status = first_status (first_reason legacy_charge merged cap);
  reconciliation_reason = first_reason legacy_charge merged cap;
  penalty_tx_hash = penalty_tx;
}

-- `old ?? fresh`
abbrev pub or_else {ℓ} : {A : Type ℓ} → Option A → Option A → Option A
or_else none fresh = fresh
or_else (some a) fresh = some a

abbrev pub starts : NotificationKind → ℕ → Option ℕ
starts NotificationKind.settlement_started now = some now
starts _ now = none

abbrev pub when_some : Option AbandonmentKind → ℕ → Option ℕ
when_some none now = none
when_some (some k) now = some now

-- A success or revert counts only with its transaction.
abbrev pub outcome_of : NotificationKind → Bool → Option Outcome → Option Outcome
outcome_of NotificationKind.success true old = some Outcome.success
outcome_of NotificationKind.revert true old = some Outcome.revert
outcome_of _ has_tx old = old

abbrev pub has_bytes : Option DebitOperation → Bool
has_bytes none = false
has_bytes (some o) = is_some o.raw_transaction

abbrev pub is_positive : Option ℕ → Bool
is_positive none = false
is_positive (some n) = ltb 0 n

-- `awaiting_evidence` with both times and an amount is decided.
abbrev pub decide : Bool → Option ℕ → AttemptStatus → AttemptStatus
decide false amount status = status
decide true none status = status
decide true (some n) status = if ltb 0 n then AttemptStatus.eligible else AttemptStatus.cancelled

abbrev pub status_after : Bool → Bool → Bool → Option ℕ → AttemptStatus → AttemptStatus
status_after true true complete amount status = AttemptStatus.needs_reconciliation
status_after true false complete amount status =
    if in_review status then status else AttemptStatus.cancelled
status_after false charged complete amount status =
    decide (is_awaiting status && complete) amount status

-- The evidence of one notification on an attempt: `operation` is the attempt's debit operation.
unfoldable pub record_evidence :
    Attempt → Option DebitOperation → NotificationKind → Bool → ℕ → Attempt
record_evidence a operation kind has_tx now =
    let started = or_else a.started_at (starts kind now) in
    let ended = or_else a.abandoned_at (when_some (abandonment_of kind) now) in
    let outcome = outcome_of kind has_tx a.outcome in
    let charged = has_bytes operation || is_some a.penalty_tx_hash in
    record a {
      started_at = started;
      abandoned_at = ended;
      abandonment_kind = or_else a.abandonment_kind (abandonment_of kind);
      outcome = outcome;
      status =
          status_after (is_some outcome) charged (is_some started && is_some ended) a.amount
            a.status;
      reconciliation_reason =
          if is_some outcome && charged
          then some ReconciliationReason.outcome_conflict
          else a.reconciliation_reason;
    }

abbrev pub is_completed : DebitStatus → Bool
is_completed DebitStatus.completed = true
is_completed _ = false

-- The same notification on the attempt's debit operation, by the attempt's outcome after it.
unfoldable pub supersede_operation : Option Outcome → DebitOperation → DebitOperation
supersede_operation none o = o
supersede_operation (some outcome) o = if is_completed o.status then o else record o {
  status =
      if is_some o.raw_transaction then DebitStatus.needs_reconciliation else DebitStatus.cancelled;
  last_error = some (codes "Settlement outcome superseded abandonment");
  lease_owner = none;
  lease_expires_at = none;
}

-- A notification for another set of solutions that shares a member.
unfoldable pub record_conflict : Attempt → Attempt
record_conflict a = record a {
  status = AttemptStatus.needs_reconciliation;
  reconciliation_reason = some ReconciliationReason.conflicting_membership;
}

abbrev pub is_parked : Option DebitStatus → Bool
is_parked (some DebitStatus.needs_reconciliation) = true
is_parked _ = false

abbrev pub charge : Attempt → Option Text → Option DebitStatus → Attempt
charge a (some hash) parked = record a {
  status = AttemptStatus.debited;
  penalty_tx_hash = some (to_lower hash);
}
charge a none operation =
    if is_parked operation
    then record a {
      status = AttemptStatus.needs_reconciliation;
      reconciliation_reason = some ReconciliationReason.retries_exhausted;
    }
    else a

-- `executeNonSettlementPenalty` on the attempt's row: `landed` is what the debit returns, and
-- `operation` the status of the debit operation after it.
unfoldable pub execute_penalty : Attempt → Option Text → Option DebitStatus → Attempt
execute_penalty a landed operation = if is_eligible a.status then charge a landed operation else a

abbrev pub same_amount : Option ℕ → ℕ → Bool
same_amount none n = false
same_amount (some m) n = m == n

abbrev pub retries_exhausted_is : Option ReconciliationReason → Bool
retries_exhausted_is (some ReconciliationReason.retries_exhausted) = true
retries_exhausted_is _ = false

abbrev pub may_resume : Attempt → ℕ → Bool
may_resume a operation_amount =
    in_review a.status
    && (retries_exhausted_is a.reconciliation_reason
        && (not (is_some a.outcome)
            && (is_some a.started_at
                && (is_some a.abandoned_at && same_amount a.amount operation_amount))))

-- `resumeDebitOperation` on the row of the attempt that its operation charges.
unfoldable pub resume_attempt : Attempt → ℕ → Attempt
resume_attempt a operation_amount =
    if may_resume a operation_amount
    then record a { status = AttemptStatus.eligible; reconciliation_reason = none }
    else a

-- ===== src/Api/Notify.antt =====
-- apps/byos/src/infra/api/notify.ts: what the driver's notification of a settlement does to the
-- proposals that it names.
pub mod Late
use byos_service_ts.Prelude.{
  ℕ, Bool, true, false, not, Option, none, some, List, [], ◌∷◌, ◌++◌, Text, map, includes, ◌==◌,
  if◌then◌else◌,
}
use byos_service_ts.Domain.Status.{Status, status_code}
use byos_service_ts.Domain.Proposal.{Proposal, SettlementOutcome}
use byos_service_ts.Domain.Audit.{AuditKind, AuditEvent}
use byos_service_ts.Store.Rows.{Tables}
use byos_service_ts.Store.Reads.{get_including_log}
use byos_service_ts.Store.Outcome.{OutcomeResult, apply_settlement_outcome, subject_of}
use byos_service_ts.Store.Outcome.Writes.{LateOutcome, WriteResult, apply_late_lost_correction}
use byos_service_ts.Attempts.{NotificationKind, AbandonmentKind}
use byos_service_ts.Api.Ingestion.{Service, emit}

-- `name` is the kind as the driver writes it; a transaction that is an empty string is none.
pub record Notification : Type 0 where
  pub kind : NotificationKind
  pub name : Text
  pub transaction : Option Text
  pub solution_ids : List ℕ

abbrev pub succeeded_by : Option Text → Option SettlementOutcome
succeeded_by none = none
succeeded_by (some h) = some (SettlementOutcome.succeeded h)

abbrev pub reverted_by : Option Text → Option SettlementOutcome
reverted_by none = none
reverted_by (some h) = some (SettlementOutcome.reverted h)

abbrev pub settlement_outcome_of : NotificationKind → Option Text → Option SettlementOutcome
settlement_outcome_of NotificationKind.settlement_started tx = some SettlementOutcome.started
settlement_outcome_of NotificationKind.success tx = succeeded_by tx
settlement_outcome_of NotificationKind.revert tx = reverted_by tx
settlement_outcome_of (NotificationKind.abandoned k) tx = some SettlementOutcome.abandoned
settlement_outcome_of NotificationKind.other tx = none

-- `[...new Set(ids)]`
abbrev pub distinct_onto : List ℕ → List ℕ → List ℕ
distinct_onto [] seen = []
distinct_onto (i ∷ ids) seen =
    if includes seen i then distinct_onto ids seen else i ∷ distinct_onto ids (i ∷ seen)

abbrev pub found_onto : Option Proposal → List Proposal → List Proposal
found_onto none ps = ps
found_onto (some p) ps = p ∷ ps

abbrev pub proposals_of : Tables → List ℕ → List Proposal
proposals_of db [] = []
proposals_of db (i ∷ ids) = found_onto (get_including_log i db) (proposals_of db ids)

abbrev pub driver_notified : ℕ → Text → Proposal → AuditEvent
driver_notified now name p = record {
  occurred_at = now;
  kind = AuditKind.driver_notified (subject_of p) name;
}

abbrev pub emit_all : List AuditEvent → Service → Service
emit_all [] s = s
emit_all (e ∷ es) s = emit_all es (emit e s)

abbrev pub late_outcome_of : SettlementOutcome → Option LateOutcome
late_outcome_of (SettlementOutcome.succeeded h) = some (LateOutcome.succeeded h)
late_outcome_of (SettlementOutcome.reverted h) = some (LateOutcome.reverted h)
late_outcome_of SettlementOutcome.started = none
late_outcome_of SettlementOutcome.abandoned = none

abbrev pub with_result : WriteResult → Service → Service
with_result (WriteResult.done event) s = emit event s
with_result (WriteResult.failed e) s = s

abbrev pub correct_late : ℕ → ℕ → LateOutcome → Service → Service
correct_late i now o s =
    let (result, tables) = apply_late_lost_correction i o now s.tables in
    with_result result (record s { tables = tables })

-- The retry after a row that is gone since the request read it.
abbrev pub retry_late : ℕ → ℕ → Option LateOutcome → Service → Service
retry_late i now none s = s
retry_late i now (some o) s = correct_late i now o s

abbrev pub after_outcome :
    ℕ → Text → Proposal → SettlementOutcome → OutcomeResult → Service → Service
after_outcome now name p o (OutcomeResult.missing i) s = retry_late p.id now (late_outcome_of o) s
after_outcome now name p o OutcomeResult.ignored s = emit (driver_notified now name p) s
after_outcome now name p o (OutcomeResult.applied event cancelled) s =
    emit_all cancelled (emit event s)

abbrev pub apply_now : ℕ → Text → Proposal → SettlementOutcome → Service → Service
apply_now now name p o s =
    let (result, tables) = apply_settlement_outcome p o now s.tables in
    after_outcome now name p o result (record s { tables = tables })

abbrev pub apply_or_correct :
    ℕ → Text → Proposal → SettlementOutcome → Bool → Option LateOutcome → Service → Service
apply_or_correct now name p o true (some late) s = correct_late p.id now late s
apply_or_correct now name p o true none s = apply_now now name p o s
apply_or_correct now name p o false late s = apply_now now name p o s

-- The loop's body, for one proposal as it was read.
unfoldable pub handle_outcome : ℕ → Text → SettlementOutcome → Proposal → Service → Service
handle_outcome now name o p s =
    apply_or_correct now name p o (status_code p.status == status_code Status.lost)
      (late_outcome_of o) s

unfoldable pub handle_all : ℕ → Text → SettlementOutcome → List Proposal → Service → Service
handle_all now name o [] s = s
handle_all now name o (p ∷ ps) s = handle_all now name o ps (handle_outcome now name o p s)

abbrev pub with_outcome : ℕ → Text → List Proposal → Option SettlementOutcome → Service → Service
with_outcome now name ps none s = emit_all (map (driver_notified now name) ps) s
with_outcome now name ps (some o) s = handle_all now name o ps s

-- `recorded` is what recordSettlementNotification answers: whether the proposals may change.
unfoldable pub notify : (recorded : Bool) → ℕ → Notification → Service → Service
notify recorded now n s =
    if recorded
    then with_outcome now n.name (proposals_of s.tables (distinct_onto n.solution_ids []))
        (settlement_outcome_of n.kind n.transaction) s
    else s

-- ===== src/Store/Outcome/Writes.antt =====
-- apps/byos/src/infra/storage.ts: the outcome worker's and the penalty worker's writes, and the
-- writes that create rows.
use byos_service_ts.Prelude.{
  ℕ, Bool, not, ◌&&◌, Option, none, some, List, [], ◌∷◌, Text, to_lower, map, filter, ◌==◌,
  if◌then◌else◌, is_some,
}
use byos_service_ts.Domain.Status.{Status, RejectionReason}
use byos_service_ts.Domain.Proposal.{Proposal}
use byos_service_ts.Domain.Audit.{AuditKind, AuditEvent}
use byos_service_ts.Store.Table.{order_by}
use byos_service_ts.Store.Rows.{
  ProposalRow, row_id, Tables, find_row, has_status, update_proposals, update_log, delete_proposal,
}
use byos_service_ts.Store.Outcome.{StoreError, changed, subject_of}

pub data LostResult : Type 0 where
  ok : AuditEvent → LostResult
  not_found : (id : ℕ) → LostResult
  stale_transition : (id : ℕ) → LostResult

abbrev pub lose_row : RejectionReason → ℕ → ProposalRow → ProposalRow
lose_row reason now r = record r {
  proposal = record (r.proposal) {
    status = Status.lost;
    rejection_reason = some reason;
    status_changed_at = now;
  };
}

abbrev lose_locked : ℕ → RejectionReason → ℕ → Tables → Option ProposalRow → LostResult × Tables
lose_locked i reason now db none = (LostResult.not_found i, db)
lose_locked i reason now db (some locked) =
    if has_status Status.submitted locked
    then (
      LostResult.ok (
          changed now
            (record {
              proposal_id = i;
              sub_solver = locked.sub_solver;
              order_uid = locked.order_uid;
            })
            Status.submitted Status.lost (some reason) none),
      delete_proposal i (update_proposals (λ r. r.id == i) (lose_row reason now) db),
    )
    else (LostResult.stale_transition i, db)

unfoldable pub apply_lost_outcome : ℕ → RejectionReason → ℕ → Tables → LostResult × Tables
apply_lost_outcome i reason now db = lose_locked i reason now db (find_row i db.proposals)

-- The two outcomes that a late notification can carry.
pub data LateOutcome : Type 0 where
  succeeded reverted : (tx_hash : Text) → LateOutcome

abbrev pub late_status : LateOutcome → Status
late_status (LateOutcome.succeeded h) = Status.settled
late_status (LateOutcome.reverted h) = Status.settle_failed

abbrev pub late_hash : LateOutcome → Text
late_hash (LateOutcome.succeeded h) = h
late_hash (LateOutcome.reverted h) = h

abbrev pub is_lost : ℕ → ProposalRow → Bool
is_lost i l = l.id == i && has_status Status.lost l

abbrev pub correct_row : LateOutcome → ℕ → ProposalRow → ProposalRow
correct_row outcome now l = record l {
  proposal = record (l.proposal) {
    status = late_status outcome;
    settlement_tx_hash = some (to_lower (late_hash outcome));
    status_changed_at = now;
  };
}

-- An error or the event, and the tables after the call.
pub data WriteResult : Type 0 where
  done : AuditEvent → WriteResult
  failed : StoreError → WriteResult

abbrev late_result : ℕ → LateOutcome → ℕ → List ProposalRow → WriteResult
late_result i outcome now [] = WriteResult.failed (StoreError.stale_transition i Status.lost none)
late_result i outcome now (l ∷ rest) = WriteResult.done (
    changed now (record { proposal_id = i; sub_solver = l.sub_solver; order_uid = l.order_uid })
      Status.lost (late_status outcome) none (some (late_hash outcome)))

unfoldable pub apply_late_lost_correction : ℕ → LateOutcome → ℕ → Tables → WriteResult × Tables
apply_late_lost_correction i outcome now db = (
  late_result i outcome now (filter (is_lost i) db.proposals_log),
  update_log (is_lost i) (correct_row outcome now) db,
)

abbrev pub awaits_penalty : ℕ → ProposalRow → Bool
awaits_penalty i l =
    l.id == i && (has_status Status.settle_failed l && not (is_some l.penalty_tx_hash))

abbrev pub penalize_row : Text → ProposalRow → ProposalRow
penalize_row tx l = record l {
  proposal = record (l.proposal) { penalty_tx_hash = some (to_lower tx) };
}

abbrev penalty_result : Proposal → ℕ → Text → ℕ → List ProposalRow → WriteResult
penalty_result p amount tx now [] =
    WriteResult.failed (StoreError.stale_transition p.id Status.settle_failed none)
penalty_result p amount tx now (l ∷ rest) = WriteResult.done (record {
  occurred_at = now;
  kind = AuditKind.penalized (subject_of p) amount p.settlement_tx_hash tx;
})

unfoldable pub record_penalty : Proposal → ℕ → Text → ℕ → Tables → WriteResult × Tables
record_penalty p amount tx now db = (
  penalty_result p amount tx now (filter (awaits_penalty p.id) db.proposals_log),
  update_log (awaits_penalty p.id) (penalize_row tx) db,
)

-- The penalty worker's view of the log. `in_review` says of a proposal that one of its settlement
-- attempts needs reconciliation, which the source reads from two other tables.
unfoldable pub snapshot_settle_failed_from_log : (ℕ → Bool) → Tables → List Proposal
snapshot_settle_failed_from_log in_review db =
    map (λ l. l.proposal)
      (order_by row_id (
        filter
          (λ l.
            has_status Status.settle_failed l
            && (not (is_some l.penalty_tx_hash) && not (in_review l.id)))
          db.proposals_log))

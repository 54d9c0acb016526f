-- ===== src/Store/Once.antt =====
-- The guarded writes of apps/byos/src/infra/storage.ts take effect once: a retry finds the row
-- spent, reports a stale transition, and changes nothing.
use byos_service_ts.Prelude.{ℕ, none, ◌≡◌, true, false, Text, arith}
use byos_service_ts.Domain.Status.{Status}
use byos_service_ts.Domain.Proposal.{Proposal}
use byos_service_ts.Store.Table.{filter-update_where, update_where_twice}
use byos_service_ts.Store.Rows.{ProposalRow, Tables, update_log}
use byos_service_ts.Store.Outcome.{StoreError}
use byos_service_ts.Store.Outcome.Writes.{
  WriteResult, LateOutcome, apply_late_lost_correction, record_penalty, is_lost, correct_row,
  awaits_penalty, penalize_row,
}

penalized_row : (i : ℕ) (tx : Text) (l : ProposalRow) → awaits_penalty i (penalize_row tx l) ≡ false
penalized_row i tx l = ground arith

corrected_row :
    (i : ℕ) (o : LateOutcome) (now : ℕ) (l : ProposalRow) → is_lost i (correct_row o now l) ≡ false
corrected_row i (LateOutcome.succeeded h) now l = ground arith
corrected_row i (LateOutcome.reverted h) now l = ground arith

-- A penalty is recorded at most once: after any call for a proposal, a second call, with whatever
-- amount and hash, fails as stale and leaves the first hash in place.
pub record_penalty_once :
    (p : Proposal) (amount amount' : ℕ) (tx tx' : Text) (now now' : ℕ) (db : Tables)
    → let after = (record_penalty p amount tx now db).1 in
      record_penalty p amount' tx' now' after
      ≡ (WriteResult.failed (StoreError.stale_transition p.id Status.settle_failed none), after)
unfolding record_penalty update_log
record_penalty_once p amount amount' tx tx' now now' db =
    let spent = λ (l : ProposalRow) (h : awaits_penalty p.id l ≡ true). penalized_row p.id tx l in
    rw (
      filter-update_where (awaits_penalty p.id) (penalize_row tx) spent db.proposals_log,
      update_where_twice (awaits_penalty p.id) (penalize_row tx) spent (penalize_row tx')
          db.proposals_log,
    )

-- A late correction is applied at most once: after any call for a proposal, a second one, whatever
-- outcome it reports, fails as stale and changes nothing.
pub apply_late_lost_correction_once :
    (i : ℕ) (o o' : LateOutcome) (now now' : ℕ) (db : Tables)
    → let after = (apply_late_lost_correction i o now db).1 in
      apply_late_lost_correction i o' now' after
      ≡ (WriteResult.failed (StoreError.stale_transition i Status.lost none), after)
unfolding apply_late_lost_correction update_log
apply_late_lost_correction_once i o o' now now' db =
    let spent = λ (l : ProposalRow) (h : is_lost i l ≡ true). corrected_row i o now l in
    rw (
      filter-update_where (is_lost i) (correct_row o now) spent db.proposals_log,
      update_where_twice (is_lost i) (correct_row o now) spent (correct_row o' now')
          db.proposals_log,
    )

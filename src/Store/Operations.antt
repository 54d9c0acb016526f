-- ===== src/Store/Operations.antt =====
-- The writes of apps/byos/src/infra/storage.ts that move a proposal to another status keep the
-- tables valid.
use byos_service_ts.Prelude.{
  ℕ, refl, none, some, arith, ◌==◌, Bool-cases, Option-cases, inl, inr, Text,
}
use byos_service_ts.Domain.Status.{Status, RejectionReason}
use byos_service_ts.Domain.Proposal.{Proposal, SettlementOutcome}
use byos_service_ts.Store.Rows.{ProposalRow, Tables, find_row, has_status, update_proposals}
use byos_service_ts.Store.Outcome.{
  resolve_row, resolve_own, is_sibling, cancel_row, resolve, resolve_tables,
  apply_settlement_outcome, target_of,
}
use byos_service_ts.Store.Outcome.Writes.{
  LateOutcome, is_lost, correct_row, lose_row, awaits_penalty, penalize_row, apply_lost_outcome,
  apply_late_lost_correction, record_penalty,
}
use byos_service_ts.Store.Validity.{
  IsValid, update_proposals-IsValid, retire-IsValid, correct-IsValid,
}

cancel_siblings-IsValid :
    (locked : ProposalRow) (i now : ℕ) (db : Tables)
    → IsValid db
    → IsValid (update_proposals (is_sibling locked i) (cancel_row now) db)
cancel_siblings-IsValid locked i now db v =
    update_proposals-IsValid (is_sibling locked i) (cancel_row now) db (λ r. refl) (λ r h c. refl)
      (λ r h. ground arith) v

pub settle-IsValid :
    (p : Proposal) (h : Text) (now : ℕ) (db : Tables)
    → IsValid db
    → IsValid (resolve_own p (SettlementOutcome.succeeded h) Status.settled (some h) now db)
settle-IsValid p h now db v =
    update_proposals-IsValid (λ r. r.id == p.id)
      (resolve_row p (SettlementOutcome.succeeded h) Status.settled (some h) now) db (λ r. refl)
      (λ r e c. refl) (λ r e. ground arith) v

succeeded-IsValid :
    (p : Proposal) (h : Text) (locked : ProposalRow) (now : ℕ) (db : Tables)
    → IsValid db
    → IsValid
        (resolve_tables p (SettlementOutcome.succeeded h) locked Status.settled (some h) now db)
unfolding resolve_tables
succeeded-IsValid p h locked now db v =
    cancel_siblings-IsValid locked p.id now
      (resolve_own p (SettlementOutcome.succeeded h) Status.settled (some h) now db)
      (settle-IsValid p h now db v)

reverted-IsValid :
    (p : Proposal) (h : Text) (locked : ProposalRow) (now : ℕ) (db : Tables)
    → IsValid db
    → IsValid (
        resolve_tables p (SettlementOutcome.reverted h) locked Status.settle_failed (some h) now db)
unfolding resolve_tables
reverted-IsValid p h locked now db v =
    retire-IsValid (resolve_row p (SettlementOutcome.reverted h) Status.settle_failed (some h) now)
      p.id db (λ r. refl) (λ r c. refl) v

abandoned-IsValid :
    (p : Proposal) (locked : ProposalRow) (now : ℕ) (db : Tables)
    → IsValid db
    → IsValid (resolve_tables p SettlementOutcome.abandoned locked Status.lost none now db)
unfolding resolve_tables
abandoned-IsValid p locked now db v =
    retire-IsValid (resolve_row p SettlementOutcome.abandoned Status.lost none now) p.id db
      (λ r. refl) (λ r c. refl) v

-- On a row that is still submitted.
submitted-IsValid :
    (p : Proposal) (o : SettlementOutcome) (locked : ProposalRow) (now : ℕ) (db : Tables)
    → IsValid db
    → IsValid (resolve p o locked now db (target_of o)).1
submitted-IsValid p SettlementOutcome.started locked now db v = v
submitted-IsValid p (SettlementOutcome.succeeded h) locked now db v =
    succeeded-IsValid p h locked now db v
submitted-IsValid p (SettlementOutcome.reverted h) locked now db v =
    reverted-IsValid p h locked now db v
submitted-IsValid p SettlementOutcome.abandoned locked now db v =
    abandoned-IsValid p locked now db v

-- A settlement outcome keeps the tables valid, whatever it is and whatever state its proposal is in.
pub apply_settlement_outcome-IsValid :
    (p : Proposal) (o : SettlementOutcome) (now : ℕ) (db : Tables)
    → IsValid db
    → IsValid (apply_settlement_outcome p o now db).1
unfolding apply_settlement_outcome
apply_settlement_outcome-IsValid p o now db v = elim (Option-cases (find_row p.id db.proposals)) [
  | inl gone ↦ rw gone v
  | inr (locked, e) ↦ rw e (elim (Bool-cases (has_status Status.submitted locked)) [
    | inl open_row ↦ rw open_row (submitted-IsValid p o locked now db v)
    | inr closed_row ↦ rw closed_row v
  ])
]

-- Losing a proposal keeps the tables valid.
pub apply_lost_outcome-IsValid :
    (i : ℕ) (reason : RejectionReason) (now : ℕ) (db : Tables)
    → IsValid db
    → IsValid (apply_lost_outcome i reason now db).1
unfolding apply_lost_outcome
apply_lost_outcome-IsValid i reason now db v = elim (Option-cases (find_row i db.proposals)) [
  | inl gone ↦ rw gone v
  | inr (locked, e) ↦ rw e (elim (Bool-cases (has_status Status.submitted locked)) [
    | inl open_row ↦
        rw open_row (retire-IsValid (lose_row reason now) i db (λ r. refl) (λ r c. refl) v)
    | inr closed_row ↦ rw closed_row v
  ])
]

-- A late correction keeps the tables valid: it only touches lost rows, and no live row is lost.
pub apply_late_lost_correction-IsValid :
    (i : ℕ) (o : LateOutcome) (now : ℕ) (db : Tables)
    → IsValid db
    → IsValid (apply_late_lost_correction i o now db).1
unfolding apply_late_lost_correction
apply_late_lost_correction-IsValid i o now db v =
    correct-IsValid (is_lost i) (correct_row o now) db (λ r. refl) (λ l h c. ground arith)
      (λ l h. ground arith) v

-- A recorded penalty keeps the tables valid.
pub record_penalty-IsValid :
    (p : Proposal) (amount : ℕ) (tx : Text) (now : ℕ) (db : Tables)
    → IsValid db
    → IsValid (record_penalty p amount tx now db).1
unfolding record_penalty
record_penalty-IsValid p amount tx now db v =
    correct-IsValid (awaits_penalty p.id) (penalize_row tx) db (λ r. refl) (λ l h c. c)
      (λ l h. ground arith) v

-- ===== src/Store/Behaviour.antt =====
-- What the settlement writes of apps/byos/src/infra/storage.ts do to one proposal and its siblings.
pub mod Rivals
use byos_service_ts.Prelude.{
  ℕ, ◌≡◌, ◌≢◌, refl, sym, ap, ◌∙◌, ◌&&◌, Bool, true, false, Option, none, some, Text, to_lower,
  arith, ◌==◌, if◌then◌else◌, Option-cases, Bool-cases, ==_iff, ◌⊎◌, inl, inr, text_eq, text_eq→eq,
  text_eq_refl,
}
use byos_service_ts.Domain.Status.{Status, RejectionReason, status_code}
use byos_service_ts.Domain.Proposal.{Proposal, SettlementOutcome}
use byos_service_ts.Store.Table.{KeepsKey, find-key}
use byos_service_ts.Store.Rows.{
  ProposalRow, row_id, Tables, find_row, mirror, update_proposals, delete_proposal,
}
use byos_service_ts.Store.Rows.Trigger.{
  updated, find_log-update_proposals, find_live-update_proposals, find_live-delete_proposal,
}
use byos_service_ts.Store.Invariant.{MirroredAt}
use byos_service_ts.Store.Validity.{IsValid}
use byos_service_ts.Store.Outcome.{
  OutcomeResult, apply_settlement_outcome, resolve_own, resolve_row, resolve_tables, is_sibling,
  cancel_row,
}

open_code : (s : Status) → s ≡ Status.submitted → (status_code s == 0) ≡ true
open_code s e = rw e

other_id : (a b : ℕ) → a ≢ b → (a == b) ≡ false
other_id a b n = ground arith

closed_code : (s : Status) → s ≢ Status.submitted → (status_code s == 0) ≡ false
closed_code Status.submitted n = absurd (n refl)
closed_code _ n = refl

no_mirror :
    (lo lg : Option ProposalRow) {r : ProposalRow} → MirroredAt lo lg → lo ≡ some r → lg ≡ none → ⊥
no_mirror none lg m e n = cc
no_mirror (some r) none m e n = m
no_mirror (some r) (some l) m e n = cc

-- A row that is updated and deleted in one transaction lives on in the log only.
module _ (f : ProposalRow → ProposalRow) (k : ℕ) (db : Tables) (r : ProposalRow) where
  pub retired :
      KeepsKey row_id f
      → IsValid db
      → find_row k db.proposals ≡ some r
      → let after = delete_proposal k (update_proposals (λ x. x.id == k) f db) in
        (find_row k after.proposals ≡ none)
        × ((l : ProposalRow) × (find_row k after.proposals_log ≡ some (mirror (f r) l)))
  unfolding delete_proposal
  retired kf v e = (
    rw (find_live-delete_proposal (update_proposals (λ x. x.id == k) f db) k k) (ground arith),
    elim (Option-cases (find_row k db.proposals_log)) [
      | inl n ↦ absurd (
          no_mirror (find_row k db.proposals) (find_row k db.proposals_log) (v.consistent.mirrors k)
            e n)
      | inr (l, g) ↦ (
        l,
        rw (find_log-update_proposals db (λ x. x.id == k) f kf v.consistent.live_unique k, e, g)
            (ground (arith, find-key row_id k db.proposals r e)),
      )
    ],
  )

-- A second outcome for a proposal that is no longer submitted changes nothing and is ignored.
pub apply_settlement_outcome-closed :
    (p : Proposal) (o : SettlementOutcome) (now : ℕ) (db : Tables) (r : ProposalRow)
    → find_row p.id db.proposals ≡ some r
    → r.status ≢ Status.submitted
    → apply_settlement_outcome p o now db ≡ (OutcomeResult.ignored, db)
unfolding apply_settlement_outcome
apply_settlement_outcome-closed p o now db r e n = rw e (rw (closed_code r.status n) refl)

-- A revert of a submitted proposal: the live row is gone, and the log row is failed, names the
-- transaction in lower case, and carries the cap that the caller read.
pub apply_settlement_outcome-reverted :
    (p : Proposal) (h : Text) (now : ℕ) (db : Tables) (r : ProposalRow)
    → IsValid db
    → find_row p.id db.proposals ≡ some r
    → r.status ≡ Status.submitted
    → let after = (apply_settlement_outcome p (SettlementOutcome.reverted h) now db).1 in
      (find_row p.id after.proposals ≡ none)
      × ((l : ProposalRow) × (find_row p.id after.proposals_log ≡ some l)
          × (l.status ≡ Status.settle_failed)
          × (l.settlement_tx_hash ≡ some (to_lower h))
          × (l.settlement_penalty_cap ≡ p.settlement_penalty_cap)
          × (l.penalty_tx_hash ≡ r.penalty_tx_hash))
unfolding apply_settlement_outcome resolve_tables
apply_settlement_outcome-reverted p h now db r v e s =
    let (gone, entry) =
      retired (resolve_row p (SettlementOutcome.reverted h) Status.settle_failed (some h) now) p.id
        db r (λ x. refl) v e in
    rw e (
      rw (open_code r.status s) (
        gone,
        (
          mirror (resolve_row p (SettlementOutcome.reverted h) Status.settle_failed (some h) now r)
              entry.0,
          entry.1,
          refl,
          refl,
          refl,
          refl,
        ),
      ))

-- In valid tables, an abandonment of a submitted proposal removes its live row, and its log row
-- is then lost with an unknown output, and keeps the transaction hash and the cap it had.
pub apply_settlement_outcome-abandoned :
    (p : Proposal) (now : ℕ) (db : Tables) (r : ProposalRow)
    → IsValid db
    → find_row p.id db.proposals ≡ some r
    → r.status ≡ Status.submitted
    → let after = (apply_settlement_outcome p SettlementOutcome.abandoned now db).1 in
      (find_row p.id after.proposals ≡ none)
      × ((l : ProposalRow) × (find_row p.id after.proposals_log ≡ some l)
          × (l.status ≡ Status.lost)
          × (l.rejection_reason ≡ some RejectionReason.unknown_output)
          × (l.settlement_tx_hash ≡ r.settlement_tx_hash)
          × (l.settlement_penalty_cap ≡ r.settlement_penalty_cap))
unfolding apply_settlement_outcome resolve_tables
apply_settlement_outcome-abandoned p now db r v e s =
    let lost = resolve_row p SettlementOutcome.abandoned Status.lost none now in
    let (gone, entry) = retired lost p.id db r (λ x. refl) v e in
    rw e
      (rw (open_code r.status s) (gone, (mirror (lost r) entry.0, entry.1, refl, refl, refl, refl)))

-- ===== src/Tests/Lifecycle.antt =====
-- Two proposals of one sub-solver for one order: selection, settlement, revert and penalty.
use byos_service_ts.Prelude.{◌≡◌, refl, none, some, [], ◌∷◌, codes, to_lower}
use byos_service_ts.Domain.Status.{Status}
use byos_service_ts.Domain.Proposal.{SettlementOutcome}
use byos_service_ts.Store.Rows.{ProposalRow, Tables, find_row, sync_insert}
use byos_service_ts.Store.Validity.{IsValid}
use byos_service_ts.Store.Creation.{insert_as_submitted}
use byos_service_ts.Store.Outcome.{StoreError, apply_settlement_outcome}
use byos_service_ts.Store.Outcome.Writes.{WriteResult, record_penalty}
use byos_service_ts.Store.History.{Step, Reach, Kept, Reach-IsValid}
use byos_service_ts.Store.History.Kept.{Reach-Kept}
use byos_service_ts.Store.Behaviour.Rivals.{AfterSuccess, apply_settlement_outcome-succeeded}
use byos_service_ts.Store.Behaviour.{apply_settlement_outcome-reverted}
use byos_service_ts.Store.Once.{record_penalty_once}
use byos_service_ts.Tests.Data.{
  candidate, prices, row, proposal, no_tables, two_live, tx_one, no_tables-IsValid,
}

abbrev reverted : SettlementOutcome
reverted = SettlementOutcome.reverted tx_one

abbrev pub failed : Tables
failed = (apply_settlement_outcome (proposal 7) reverted 3 two_live).1

abbrev one_live : Tables
one_live = record { proposals = row 7 ∷ []; proposals_log = row 7 ∷ [] }

selected : Reach no_tables two_live
unfolding insert_as_submitted sync_insert
selected =
    Reach.next
      (Reach.next Reach.here
        (Step.select (candidate 7) 11 prices (some 50) 2 no_tables one_live refl refl))
      (Step.select (candidate 8) 11 prices (some 50) 2 one_live two_live refl refl)

pub two_live-IsValid : IsValid two_live
two_live-IsValid = Reach-IsValid no_tables-IsValid selected

penalized : Reach no_tables (record_penalty (proposal 7) 40 tx_one 4 failed).1
penalized =
    Reach.next (Reach.next selected (Step.outcome (proposal 7) reverted 3 two_live))
      (Step.penalize (proposal 7) 40 tx_one 4 failed)

Reach-IsValid_example : IsValid (record_penalty (proposal 7) 40 tx_one 4 failed).1
Reach-IsValid_example = Reach-IsValid no_tables-IsValid penalized

penalized_again :
    Reach
      (record_penalty (proposal 7) 40 tx_one 4 failed).1
      (record_penalty
        (proposal 7)
        30
        (codes "0xf2")
        5
        (record_penalty (proposal 7) 40 tx_one 4 failed).1).1
penalized_again = Reach.next Reach.here (
    Step.penalize (proposal 7) 30 (codes "0xf2") 5
      (record_penalty (proposal 7) 40 tx_one 4 failed).1)

Reach-Kept_example :
    Kept (find_row 7 (record_penalty (proposal 7) 40 tx_one 4 failed).1.proposals_log) (
      find_row 7
        (record_penalty
          (proposal 7)
          30
          (codes "0xf2")
          5
          (record_penalty (proposal 7) 40 tx_one 4 failed).1).1.proposals_log)
Reach-Kept_example = Reach-Kept 7 (Reach-IsValid no_tables-IsValid penalized) penalized_again

abbrev cancelled_row : ProposalRow
cancelled_row = record (row 7) { proposal = record (proposal 7) { status = Status.cancelled } }

abbrev one_cancelled : Tables
one_cancelled = record { proposals = cancelled_row ∷ []; proposals_log = cancelled_row ∷ [] }

apply_settlement_outcome-reverted_example :
    (find_row 7 failed.proposals ≡ none)
    × ((l : ProposalRow) × (find_row 7 failed.proposals_log ≡ some l)
        × (l.status ≡ Status.settle_failed)
        × (l.settlement_tx_hash ≡ some (to_lower tx_one))
        × (l.settlement_penalty_cap ≡ some 50)
        × (l.penalty_tx_hash ≡ none))
apply_settlement_outcome-reverted_example =
    apply_settlement_outcome-reverted (proposal 7) tx_one 3 two_live (row 7) two_live-IsValid refl
      refl

apply_settlement_outcome-succeeded_example :
    (q' : ProposalRow) × (find_row 8
        (apply_settlement_outcome
          (proposal 7)
          (SettlementOutcome.succeeded tx_one)
          3
          two_live).1.proposals
      ≡ some q')
    × AfterSuccess (row 7) 7 8 tx_one (row 8) q'
apply_settlement_outcome-succeeded_example =
    apply_settlement_outcome-succeeded (proposal 7) tx_one 3 two_live (row 7) 8 (row 8) refl refl
      refl

record_penalty_once_example :
    let after = (record_penalty (proposal 7) 40 tx_one 4 failed).1 in
    record_penalty (proposal 7) 30 (codes "0xf2") 5 after
    ≡ (WriteResult.failed (StoreError.stale_transition 7 Status.settle_failed none), after)
record_penalty_once_example =
    record_penalty_once (proposal 7) 40 30 tx_one (codes "0xf2") 4 5 failed

abbrev pub lost_row : ProposalRow
lost_row = record (row 7) { proposal = record (proposal 7) { status = Status.lost } }

abbrev pub one_lost : Tables
one_lost = record { proposals = []; proposals_log = lost_row ∷ [] }

-- ===== src/Jobs/Reverts/Charged.antt =====
-- What a tick of runRevertDebits (apps/byos/src/infra/jobs/penalty.ts) may write.
use byos_service_ts.Prelude.{ℕ, ◌≡◌, ◌⊎◌, Option, none, some, Text, codes, get_or, ◌+◌, true}
use byos_service_ts.Domain.Proposal.{Proposal}
use byos_service_ts.Store.Outcome.Writes.{record_penalty}
use byos_service_ts.Debit.{DebitOperation, Operations, find_source}
use byos_service_ts.Debit.Charges.{IsDebited}
use byos_service_ts.Debit.Payload as Payload
use byos_service_ts.Debit.Worker.{Answer, LandedDebit, durable_debit}
use byos_service_ts.Debit.Worker.Landed.{IsConfirmed}
use byos_service_ts.Jobs.Reverts.{Books, RevertReads, emit_result, debit_input, gives_up}

-- What an item costs: the settlement's cost, and the proposal's cap or else the minimum collateral.
abbrev pub cost_and_cap : RevertReads → Proposal → ℕ → ℕ
cost_and_cap reads p cost = cost + get_or p.settlement_penalty_cap reads.min_collateral

abbrev pub debit_at : RevertReads → Proposal → Operations → Option DebitOperation
debit_at reads p t = find_source (codes "revert") (reads.source_id p.id) t

-- A landed debit of the proposal is recorded: the operator has confirmed its transaction, its
-- operation charges what the item costs unless it stood there before with an amount of its own, and
-- the penalty with that transaction is in the tables and in the audit trail with what it costs.
abbrev pub IsCharged :
    RevertReads → Proposal → Books → Books → (tx : Text) (cost : ℕ) → LandedDebit → Type 0
IsCharged reads p b c tx cost l =
    (p.settlement_tx_hash ≡ some tx)
    × (reads.settlement_cost tx ≡ some cost)
    × IsConfirmed (reads.operator p.id) reads.worker_id l
    × IsDebited (debit_at reads p b.operations) (debit_at reads p c.operations)
        (cost_and_cap reads p cost)
    × (c.tables ≡ (record_penalty p (cost_and_cap reads p cost) l.hash reads.now b.tables).1)
    × (c.audit
        ≡ emit_result (record_penalty p (cost_and_cap reads p cost) l.hash reads.now b.tables).0
            b.audit)

-- The run of the debit of a proposal whose settlement has this transaction and this cost.
abbrev pub run_of :
    RevertReads
    → Proposal
    → Books
    → (tx : Text) (cost : ℕ) → Answer (Option LandedDebit) × Operations
run_of reads p b tx cost =
    durable_debit (reads.operator p.id) reads.worker_id (reads.next_operation b.operations)
      (debit_input reads p (cost_and_cap reads p cost) tx) reads.now b.operations

-- Why an item records no penalty.
pub data NotCharged (reads : RevertReads) (p : Proposal) (b : Books) : Type 0 where
  gave_up : gives_up p.id b.counts ≡ true → NotCharged reads p b
  not_settled : p.settlement_tx_hash ≡ none → NotCharged reads p b
  no_cost :
      (tx : Text)
      → p.settlement_tx_hash ≡ some tx
      → reads.settlement_cost tx ≡ none
      → NotCharged reads p b
  failed :
      (tx : Text) (cost : ℕ) (message : Text)
      → (run_of reads p b tx cost).0 ≡ Answer.threw message
      → NotCharged reads p b
  pending :
      (tx : Text) (cost : ℕ)
      → (run_of reads p b tx cost).0 ≡ Answer.returned none
      → NotCharged reads p b
  not_written : reads.recording_fails p.id ≡ true → NotCharged reads p b

-- The tables and the audit trail are as before for one of these reasons, or a debit is recorded.
abbrev pub ChargedOrKept : RevertReads → Proposal → Books → Books → Type 0
ChargedOrKept reads p b c =
    (NotCharged reads p b × (c.tables ≡ b.tables) × (c.audit ≡ b.audit))
    ⊎ ((tx : Text) × ((cost : ℕ) × ((l : LandedDebit) × IsCharged reads p b c tx cost l)))

-- ===== src/Jobs/Reverts.antt =====
-- runRevertDebits of apps/byos/src/infra/jobs/penalty.ts: a debit for each failed settlement. What
-- the chain and the database's sequence answer are parameters.
pub mod Charged
pub mod Ticks
use byos_service_ts.Prelude.{
  ℕ, suc, ◌+◌, Bool, true, false, Option, none, some, List, [], ◌∷◌, ◌++◌, Text, codes, leb, ◌==◌,
  if◌then◌else◌, get_or,
}
use byos_service_ts.Domain.Proposal.{Proposal}
use byos_service_ts.Domain.Audit.{AuditEvent}
use byos_service_ts.Domain.Collateral.{revert_debit}
use byos_service_ts.Store.Rows.{Tables}
use byos_service_ts.Store.Outcome.Writes.{
  WriteResult, record_penalty, snapshot_settle_failed_from_log,
}
use byos_service_ts.Debit.{DebitOperationInput, Operations, complete_debit_operation}
use byos_service_ts.Debit.Worker.{Answer, Operator, LandedDebit, durable_debit}

-- The failed calls of each item since the worker's start.
abbrev pub RetryCounts : Type 0
RetryCounts = List (ℕ × ℕ)

abbrev pub failures : ℕ → RetryCounts → ℕ
failures key [] = 0
failures key (e ∷ counts) = if e.0 == key then e.1 else failures key counts

abbrev pub set_failures : ℕ → ℕ → RetryCounts → RetryCounts
set_failures key n [] = (key, n) ∷ []
set_failures key n (e ∷ counts) =
    if e.0 == key then (key, n) ∷ counts else e ∷ set_failures key n counts

abbrev pub forget_failures : ℕ → RetryCounts → RetryCounts
forget_failures key [] = []
forget_failures key (e ∷ counts) =
    let rest = forget_failures key counts in if e.0 == key then rest else e ∷ rest

unfoldable pub note_debit_failure : ℕ → RetryCounts → RetryCounts
note_debit_failure key counts = set_failures key (failures key counts + 1) counts

abbrev pub max_debit_attempts : ℕ
max_debit_attempts = 10

abbrev pub gives_up : ℕ → RetryCounts → Bool
gives_up key counts = leb max_debit_attempts (failures key counts)

-- The tables, the debit operations, the retry counts and the audit events, the latest first.
pub record Books : Type 0 where
  pub tables : Tables
  pub operations : Operations
  pub counts : RetryCounts
  pub audit : List AuditEvent

-- `source_id` is the text `proposal:<id>`; `next_operation` the sequence's next value for a table;
-- `recording_fails` says of a proposal that the database throws when its penalty is recorded.
pub record RevertReads : Type 0 where
  pub settlement_cost : Text → Option ℕ
  pub operator : ℕ → Operator
  pub source_id : ℕ → Text
  pub next_operation : Operations → ℕ
  pub recording_fails : ℕ → Bool
  pub worker_id : Text
  pub min_collateral : ℕ
  pub now : ℕ

-- One item is done, or the tick ends by an exception.
pub data Progress : Type 0 where
  onward : Books → Progress
  aborted : Books → Progress

abbrev pub books_of : Progress → Books
books_of (Progress.onward b) = b
books_of (Progress.aborted b) = b

abbrev pub emit_result : WriteResult → List AuditEvent → List AuditEvent
emit_result (WriteResult.done event) audit = event ∷ audit
emit_result (WriteResult.failed e) audit = audit

-- Both branches on the result complete the operation.
abbrev pub record_landed : RevertReads → Proposal → ℕ → LandedDebit → Books → Books
record_landed reads p amount l b =
    let (result, tables) = record_penalty p amount l.hash reads.now b.tables in
    record b {
      tables = tables;
      operations = (complete_debit_operation l.operation_id l.owner reads.now b.operations).1;
      audit = emit_result result b.audit;
    }

abbrev pub after_debit : RevertReads → Proposal → ℕ → Answer (Option LandedDebit) → Books → Progress
after_debit reads p amount (Answer.threw message) b = Progress.aborted b
after_debit reads p amount (Answer.returned none) b = Progress.onward b
after_debit reads p amount (Answer.returned (some l)) b =
    let retried = record b { counts = forget_failures p.id b.counts } in
    Progress.onward
      (if reads.recording_fails p.id then retried else record_landed reads p amount l retried)

abbrev pub debit_input : RevertReads → Proposal → ℕ → Text → DebitOperationInput
debit_input reads p amount tx = record {
  source_kind = codes "revert";
  source_id = reads.source_id p.id;
  sub_solver = p.sub_solver;
  amount = amount;
  reason = tx;
}

abbrev pub charge_amount : RevertReads → Proposal → ℕ → ℕ
charge_amount reads p cost =
    revert_debit cost (get_or p.settlement_penalty_cap reads.min_collateral)

abbrev pub debit_now : RevertReads → Proposal → Text → ℕ → Books → Progress
debit_now reads p tx amount b =
    let (answer, operations) =
      durable_debit (reads.operator p.id) reads.worker_id (reads.next_operation b.operations)
        (debit_input reads p amount tx) reads.now b.operations in
    after_debit reads p amount answer (record b { operations = operations })

abbrev pub with_cost : RevertReads → Proposal → Text → Option ℕ → Books → Progress
with_cost reads p tx none b =
    Progress.onward (record b { counts = note_debit_failure p.id b.counts })
with_cost reads p tx (some cost) b = debit_now reads p tx (charge_amount reads p cost) b

abbrev pub with_tx : RevertReads → Proposal → Option Text → Books → Progress
with_tx reads p none b = Progress.onward b
with_tx reads p (some tx) b = with_cost reads p tx (reads.settlement_cost tx) b

-- The loop's body.
unfoldable pub revert_one : RevertReads → Proposal → Books → Progress
revert_one reads p b =
    if gives_up p.id b.counts then Progress.onward b else with_tx reads p p.settlement_tx_hash b

-- The loop. An exception of durableDebit itself ends the tick.
abbrev pub then_go : (Books → Progress) → Progress → Progress
then_go next (Progress.onward b) = next b
then_go next (Progress.aborted b) = Progress.aborted b

unfoldable pub revert_all : RevertReads → List Proposal → Books → Progress
revert_all reads [] b = Progress.onward b
revert_all reads (p ∷ ps) b = then_go (revert_all reads ps) (revert_one reads p b)

unfoldable pub run_revert_debits : RevertReads → (in_review : ℕ → Bool) → Books → Progress
run_revert_debits reads in_review b =
    revert_all reads (snapshot_settle_failed_from_log in_review b.tables) b

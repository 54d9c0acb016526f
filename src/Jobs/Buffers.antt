-- ===== src/Jobs/Buffers.antt =====
-- runBufferDebits of apps/byos/src/infra/jobs/penalty.ts: the ledger entries of settled proposals,
-- and the debits of the balances that exceed a fifth of the minimum collateral.
pub mod Emptied
use byos_service_ts.Prelude.{
  ℕ, ◌+◌, ◌/◌, ◌<◌, Bool, true, false, not, Option, none, some, List, [], ◌∷◌, ◌++◌, Text, codes,
  to_lower, ℤ, pos, negsuc, pos_part, neg_part, sub_ℕ, leb_ℤ, map, filter, any, ltb, ◌==◌,
  if◌then◌else◌, text_eq,
}
use byos_service_ts.Domain.Status.{Status}
use byos_service_ts.Domain.Proposal.{Proposal}
use byos_service_ts.Domain.Audit.{AuditKind, AuditEvent}
use byos_service_ts.Domain.Collateral.{buffer_debit}
use byos_service_ts.Store.Rows.{Tables}
use byos_service_ts.Store.Reads.{snapshot_by_statuses}
use byos_service_ts.Buffer.{
  BufferEntry, Entries, NewEntry, buffer_entry_exists_for_proposal, insert_buffer_entry, add_once,
  uncleared_buffer_sub_solvers, outstanding_buffer_balance, uncleared_buffer_entries,
  mark_buffer_entries_in_flight, finalize_buffer_entries,
}
use byos_service_ts.Debit.{
  DebitOperation, DebitOperationInput, Operations, create_debit_operation, complete_debit_operation,
  open_debit_operations,
}
use byos_service_ts.Debit.Worker.{Answer, Operator, LandedDebit, durable_debit}
use byos_service_ts.Jobs.Reverts.{RetryCounts, forget_failures, note_debit_failure, gives_up}
use byos_service_ts.Jobs.Sources.{BufferBatch, buffer_source_id, buffer_batch_from_source_id}

-- The ledger, the debit operations, the retry counts and the audit events, the latest first.
pub record BufferBooks : Type 0 where
  pub entries : Entries
  pub operations : Operations
  pub counts : RetryCounts
  pub audit : List AuditEvent

-- `finalizing_fails` says of a sub-solver that the database throws when its batch is finalized;
-- `reason_of` is a hash of the address.
pub record BufferReads : Type 0 where
  pub read_executed_delta : Text → Text → Option ℕ
  pub operator : Text → Operator
  pub next_operation : Operations → ℕ
  pub next_entry : Entries → ℕ
  pub finalizing_fails : Text → Bool
  pub reason_of : Text → Text
  pub worker_id : Text
  pub min_collateral : ℕ
  pub now : ℕ

-- What an item yields: the books, or an exception that ends the tick.
pub data Progress : Type 0 where
  onward : BufferBooks → Progress
  aborted : BufferBooks → Progress

abbrev pub books_of : Progress → BufferBooks
books_of (Progress.onward b) = b
books_of (Progress.aborted b) = b

abbrev pub then_go : (BufferBooks → Progress) → Progress → Progress
then_go next (Progress.onward b) = next b
then_go next (Progress.aborted b) = Progress.aborted b

abbrev pub absolute : ℤ → ℕ
absolute z = pos_part z + neg_part z

abbrev pub is_negative : ℤ → Bool
is_negative (pos n) = false
is_negative (negsuc n) = true

-- Positive for an under-delivery, negative for an over-delivery.
abbrev pub signed_native : ℤ → ℕ → ℤ
signed_native gap price =
    let amount = buffer_debit (pos (absolute gap)) price in
    if is_negative gap then sub_ℕ (neg_part amount) (pos_part amount) else amount

abbrev pub new_entry : Proposal → ℕ → ℕ → NewEntry
new_entry p delta price = record {
  sub_solver = p.sub_solver;
  proposal_id = p.id;
  order_uid = p.order_uid;
  buy_token = p.buy_token;
  delta = pos delta;
  gap = sub_ℕ p.quote_buy_amount delta;
  native_token_amount = signed_native (sub_ℕ p.quote_buy_amount delta) price;
}

abbrev pub insert_entry : BufferReads → Proposal → ℕ → ℕ → BufferBooks → BufferBooks
insert_entry reads p delta price b = record b {
  entries =
      (insert_buffer_entry (reads.next_entry b.entries) (new_entry p delta price) reads.now
        b.entries).1;
  counts = forget_failures p.id b.counts;
}

-- A reference price that is missing or 0 is given up on.
abbrev pub with_price : BufferReads → Proposal → ℕ → Option ℕ → BufferBooks → BufferBooks
with_price reads p delta none b = record b { counts = forget_failures p.id b.counts }
with_price reads p delta (some price) b =
    if price == 0
    then record b { counts = forget_failures p.id b.counts }
    else insert_entry reads p delta price b

abbrev pub with_delta : BufferReads → Proposal → Option ℕ → BufferBooks → BufferBooks
with_delta reads p none b = record b { counts = note_debit_failure p.id b.counts }
with_delta reads p (some delta) b = with_price reads p delta p.buy_token_ref_price b

abbrev pub with_settlement : BufferReads → Proposal → Option Text → BufferBooks → BufferBooks
with_settlement reads p none b = b
with_settlement reads p (some tx) b =
    with_delta reads p (reads.read_executed_delta tx p.order_uid_hash) b

-- Step 2, for one proposal.
unfoldable pub record_entry : BufferReads → Proposal → BufferBooks → BufferBooks
record_entry reads p b =
    if gives_up p.id b.counts
    then b
    else if buffer_entry_exists_for_proposal p.id b.entries
    then b
    else with_settlement reads p p.settlement_tx_hash b

unfoldable pub record_entries : BufferReads → List Proposal → BufferBooks → BufferBooks
record_entries reads [] b = b
record_entries reads (p ∷ ps) b = record_entries reads ps (record_entry reads p b)

abbrev pub is_loose : Proposal → Bool
is_loose p = ltb p.min_buy_amount p.quote_buy_amount

abbrev pub finalize : BufferReads → Text → List ℕ → LandedDebit → BufferBooks → BufferBooks
finalize reads sub_solver ids l b = record b {
  entries = (finalize_buffer_entries sub_solver ids l.hash b.entries).1;
  operations = (complete_debit_operation l.operation_id l.owner reads.now b.operations).1;
}

abbrev pub mark : Text → List ℕ → BufferBooks → BufferBooks
mark sub_solver ids b = record b {
  entries = (mark_buffer_entries_in_flight sub_solver (some ids) b.entries).1;
}

-- Recovery: an exception while finalizing ends the tick.
abbrev pub after_recovery :
    BufferReads → BufferBatch → Answer (Option LandedDebit) → BufferBooks → Progress
after_recovery reads batch (Answer.threw message) b = Progress.aborted b
after_recovery reads batch (Answer.returned none) b = Progress.onward b
after_recovery reads batch (Answer.returned (some l)) b =
    if reads.finalizing_fails batch.sub_solver
    then Progress.aborted b
    else Progress.onward (finalize reads batch.sub_solver batch.entry_ids l b)

abbrev pub input_of : DebitOperation → DebitOperationInput
input_of o = record {
  source_kind = o.source_kind;
  source_id = o.source_id;
  sub_solver = o.sub_solver;
  amount = o.amount;
  reason = o.reason;
}

abbrev pub debit_of :
    BufferReads → DebitOperationInput → BufferBooks → Answer (Option LandedDebit) × Operations
debit_of reads input b =
    durable_debit (reads.operator input.source_id) reads.worker_id
      (reads.next_operation b.operations) input reads.now b.operations

abbrev pub recover_batch :
    BufferReads → DebitOperation → Option BufferBatch → BufferBooks → Progress
recover_batch reads o none b = Progress.onward b
recover_batch reads o (some batch) b =
    let marked = mark batch.sub_solver batch.entry_ids b in
    let (answer, operations) = debit_of reads (input_of o) marked in
    after_recovery reads batch answer (record marked { operations = operations })

unfoldable pub recover_all : BufferReads → List DebitOperation → BufferBooks → Progress
recover_all reads [] b = Progress.onward b
recover_all reads (o ∷ os) b =
    then_go (recover_all reads os)
      (recover_batch reads o (buffer_batch_from_source_id o.source_id) b)

abbrev pub threshold : BufferReads → ℕ
threshold reads = reads.min_collateral / 5

abbrev pub slash_input : BufferReads → Text → List ℕ → ℤ → DebitOperationInput
slash_input reads sub_solver ids balance = record {
  source_kind = codes "buffer";
  source_id = buffer_source_id sub_solver ids;
  sub_solver = sub_solver;
  amount = pos_part balance;
  reason = reads.reason_of sub_solver;
}

abbrev pub slashed_event : BufferReads → Text → ℕ → Text → ℕ → AuditEvent
slashed_event reads sub_solver amount hash count = record {
  occurred_at = reads.now;
  kind = AuditKind.buffer_debited sub_solver amount hash count;
}

-- A batch that could not be finalized stays in flight.
abbrev pub after_slash :
    BufferReads → Text → List ℕ → ℕ → ℕ → Answer (Option LandedDebit) → BufferBooks → Progress
after_slash reads sub_solver ids amount count (Answer.threw message) b = Progress.aborted b
after_slash reads sub_solver ids amount count (Answer.returned none) b = Progress.onward b
after_slash reads sub_solver ids amount count (Answer.returned (some l)) b =
    let done = finalize reads sub_solver ids l b in
    if reads.finalizing_fails sub_solver
    then Progress.onward b
    else Progress.onward
        (record done { audit = slashed_event reads sub_solver amount l.hash count ∷ done.audit })

abbrev pub slash : BufferReads → Text → List ℕ → ℤ → BufferBooks → Progress
slash reads sub_solver ids balance b =
    let input = slash_input reads sub_solver ids balance in
    let created =
      (create_debit_operation (reads.next_operation b.operations) input reads.now b.operations).1 in
    let count = (mark_buffer_entries_in_flight sub_solver (some ids) b.entries).0 in
    let marked = mark sub_solver ids (record b { operations = created }) in
    let (answer, operations) = debit_of reads input marked in
    after_slash reads sub_solver ids (pos_part balance) count answer
      (record marked { operations = operations })

-- Step 3, for one sub-solver.
unfoldable pub slash_one : BufferReads → Text → BufferBooks → Progress
slash_one reads sub_solver b =
    let balance = outstanding_buffer_balance sub_solver b.entries in
    let ids = map (λ (e : BufferEntry). e.id) (uncleared_buffer_entries sub_solver b.entries) in
    if leb_ℤ balance (pos (threshold reads))
    then Progress.onward b
    else slash reads sub_solver ids balance b

unfoldable pub slash_all : BufferReads → List Text → BufferBooks → Progress
slash_all reads [] b = Progress.onward b
slash_all reads (s ∷ ss) b = then_go (slash_all reads ss) (slash_one reads s b)

-- The sub-solvers of the new entries have uncleared entries, so one read finds all that are affected.
unfoldable pub run_buffer_debits : BufferReads → Tables → BufferBooks → Progress
run_buffer_debits reads db b =
    let recorded =
      record_entries reads (filter is_loose (snapshot_by_statuses (Status.settled ∷ []) db)) b in
    then_go (slash_all reads (uncleared_buffer_sub_solvers recorded.entries))
      (recover_all reads (open_debit_operations (codes "buffer") recorded.operations) recorded)

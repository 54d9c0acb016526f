-- ===== src/Tests/Ticks.antt =====
-- The workers and the driver's notifications, at the tables and debits of the other tests.
use byos_service_ts.Prelude.{
  ◌/◌, ℕ, ◌+◌, ◌≡◌, ◌⊎◌, refl, true, false, some, [], ◌∷◌, Text, codes, to_lower, pos, ◌≤ℤ◌, arith,
}
use byos_service_ts.Domain.Status.{Status}
use byos_service_ts.Domain.Proposal.{SettlementOutcome}
use byos_service_ts.Store.Rows.{ProposalRow, Tables, find_row}
use byos_service_ts.Store.History as History
use byos_service_ts.Store.Outcome.Writes.{LateOutcome}
use byos_service_ts.Buffer.{outstanding_buffer_balance}
use byos_service_ts.Attempts.{NotificationKind}
use byos_service_ts.Debit.{Operations}
use byos_service_ts.Api.Ingestion.{Service}
use byos_service_ts.Api.Notify.{Notification, handle_outcome, notify}
use byos_service_ts.Api.Notify.Late.{handle_outcome-late}
use byos_service_ts.Jobs.Outcomes.{ChainReads, run_outcome_check}
use byos_service_ts.Jobs.Reverts.{Books, RevertReads, books_of}
use byos_service_ts.Jobs.Buffers as Buffers
use byos_service_ts.Jobs.Buffers.{BufferBooks, BufferReads, slash_one}
use byos_service_ts.Jobs.Buffers.Emptied.{slash_one-emptied}
use byos_service_ts.Jobs.Sources.{buffer_source_id, buffer_batch_from_source_id}
use byos_service_ts.Jobs.Sources.RoundTrip.{batch-source_id}
use byos_service_ts.Service.{Event, Run, Run-Reach}
use byos_service_ts.Tests.Data.{alice, proposal, two_live, tx_one}
use byos_service_ts.Tests.Lifecycle.{failed, lost_row, one_lost}
use byos_service_ts.Tests.Debits.{answers}
use byos_service_ts.Tests.Buffers.{both}

abbrev service_of : Tables → Service
service_of db = record { next_id = 9; store = []; tables = db; audit = [] }

handle_outcome-late_example :
    (r : ProposalRow) × (find_row 7
        (handle_outcome 9
          (codes "success")
          (SettlementOutcome.succeeded tx_one)
          (proposal 7)
          (service_of one_lost)).tables.proposals_log
      ≡ some r)
    × ((r.status ≡ Status.settled) × (r.settlement_tx_hash ≡ some (to_lower tx_one)))
    × (r.settlement_penalty_cap ≡ lost_row.settlement_penalty_cap)
    × (r.penalty_tx_hash ≡ lost_row.penalty_tx_hash)
handle_outcome-late_example =
    handle_outcome-late 9 (codes "success") (LateOutcome.succeeded tx_one) (proposal 7)
      (service_of one_lost) lost_row refl refl refl

abbrev chain : ChainReads
chain = record { block_number = some 20; trades = λ from to. some (λ uid. true) }

abbrev success_notice : Notification
success_notice = record {
  kind = NotificationKind.success;
  name = codes "success";
  transaction = some tx_one;
  solution_ids = 7 ∷ [];
}

abbrev noticed : Service
noticed = notify true 9 success_notice (service_of two_live)

Run-Reach_example : History.Reach two_live (run_outcome_check chain 12_000 130_000 noticed).tables
Run-Reach_example = Run-Reach (
    Run.followed
      (Run.followed Run.idle (Event.notified true 9 success_notice (service_of two_live)))
      (Event.swept chain 12_000 130_000 noticed))

-- A number above every operation's id.
abbrev next_id : Operations → ℕ
next_id [] = 1
next_id (o ∷ t) = o.id + next_id t + 1

abbrev revert_reads : RevertReads
revert_reads = record {
  settlement_cost = λ tx. some 30;
  operator = λ i. answers;
  source_id = λ i. codes "proposal:7";
  next_operation = next_id;
  recording_fails = λ i. false;
  worker_id = codes "w";
  min_collateral = 600;
  now = 10;
}

abbrev books : Books
books = record { tables = failed; operations = []; counts = []; audit = [] }

abbrev buffer_reads : BufferReads
buffer_reads = record {
  read_executed_delta = λ tx uid. some 460;
  operator = λ source. answers;
  next_operation = next_id;
  next_entry = λ t. 3;
  finalizing_fails = λ s. false;
  reason_of = λ s. s;
  worker_id = codes "w";
  min_collateral = 20;
  now = 10;
}

abbrev buffer_books : BufferBooks
buffer_books = record { entries = both; operations = []; counts = []; audit = [] }

slash_one-emptied_example :
    (outstanding_buffer_balance alice both ≤ℤ pos (buffer_reads.min_collateral / 5)
      × (slash_one buffer_reads alice buffer_books ≡ Buffers.Progress.onward buffer_books))
    ⊎ ((pos (buffer_reads.min_collateral / 5 + 1) ≤ℤ outstanding_buffer_balance alice both)
        × (outstanding_buffer_balance alice
              (Buffers.books_of (slash_one buffer_reads alice buffer_books)).entries
            ≡ pos 0))
slash_one-emptied_example = slash_one-emptied buffer_reads alice buffer_books

abbrev digits : Text
digits = codes "0123456789abcdef0123456789abcdef01234567"

batch-source_id_example :
    buffer_batch_from_source_id
      (buffer_source_id (codes "0x0123456789ABCDEF0123456789abcdef01234567") (12 ∷ 345 ∷ []))
    ≡ some (record {
      sub_solver = to_lower (codes "0x0123456789ABCDEF0123456789abcdef01234567");
      entry_ids = 12 ∷ 345 ∷ [];
    })
batch-source_id_example =
    batch-source_id (codes "0x0123456789ABCDEF0123456789abcdef01234567") digits 12 (345 ∷ [])
      (unfold to_lower in refl, refl, refl) (omega arith, omega arith)
      ((omega arith, omega arith), tt)

-- ===== src/Tests/Buffers.antt =====
-- The buffer ledger with two entries of one sub-solver.
use byos_service_ts.Prelude.{some, [], ◌∷◌, codes, ℤ, pos, negsuc}
use byos_service_ts.Buffer.{
  Entries, NewEntry, insert_buffer_entry, mark_buffer_entries_in_flight, finalize_buffer_entries,
  revert_in_flight_buffer_entries, clear_buffer_entries,
}
use byos_service_ts.Buffer.Ledger.{
  find_entry, LedgerStep, LedgerReach, FoundKept, LedgerReach-FoundKept,
}
use byos_service_ts.Tests.Data.{alice, tx_one}

abbrev delivery : ℤ → NewEntry
delivery amount = record {
  sub_solver = alice;
  proposal_id = 7;
  order_uid = codes "0x77";
  buy_token = codes "0xB";
  delta = pos 10;
  gap = pos 2;
  native_token_amount = amount;
}

abbrev short : Entries
short = (insert_buffer_entry 1 (delivery (pos 9)) 1 []).1

abbrev pub both : Entries
both = (insert_buffer_entry 2 (delivery (negsuc 2)) 2 short).1

abbrev marked : Entries
marked = (mark_buffer_entries_in_flight alice (some (1 ∷ [])) both).1

abbrev finalized : Entries
finalized = (finalize_buffer_entries alice (1 ∷ []) tx_one marked).1

LedgerReach-FoundKept_example : FoundKept (find_entry 1 finalized) (
    find_entry 1
      (revert_in_flight_buffer_entries alice (clear_buffer_entries alice tx_one finalized).1).1)
LedgerReach-FoundKept_example =
    LedgerReach-FoundKept finalized
      (revert_in_flight_buffer_entries alice (clear_buffer_entries alice tx_one finalized).1).1 1
      (LedgerReach.next
        (LedgerReach.next LedgerReach.here (LedgerStep.clear alice tx_one finalized))
        (LedgerStep.revert alice (clear_buffer_entries alice tx_one finalized).1))

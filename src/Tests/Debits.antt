-- ===== src/Tests/Debits.antt =====
-- A debit operation that is created, claimed, signed, and worked on by a second worker.
use byos_service_ts.Prelude.{refl, none, some, [], Text, codes, to_lower}
use byos_service_ts.Debit.{
  DebitOperation, DebitStatus, DebitOperationInput, Operations, find_op, create_debit_operation,
  claim_debit_operation, record_debit_failure, find_source, persist_signed_debit,
}
use byos_service_ts.Debit.Payload.{Step, Reach, RowKept, Reach-RowKept}
use byos_service_ts.Debit.Worker.{
  DebitOutcome, Answer, Operator, LandedDebit, broadcast_signed, durable_debit,
}
use byos_service_ts.Debit.Charges.{IsDebited, durable_debit-IsDebited}
use byos_service_ts.Debit.Worker.Landed.{IsConfirmed, durable_debit_landed}
use byos_service_ts.Tests.Data.{alice}

abbrev input : DebitOperationInput
input = record {
  source_kind = codes "revert";
  source_id = codes "7";
  sub_solver = alice;
  amount = 40;
  reason = codes "0x1";
}

abbrev pub bob : Text
bob = codes "bob"

abbrev carol : Text
carol = codes "carol"

abbrev created : Operations
created = (create_debit_operation 1 input 10 []).1

abbrev claimed : Operations
claimed = (claim_debit_operation 1 bob 60 10 created).1

abbrev signed : Operations
signed = (persist_signed_debit 1 bob (codes "0xraw") (codes "0xhash") 11 claimed).1

abbrev signed_again : Operations
signed_again = (persist_signed_debit 1 bob (codes "0xother") (codes "0xother") 12 signed).1

history : Reach [] signed
history =
    Reach.next
      (Reach.next (Reach.next Reach.here (Step.create 1 input 10 [] refl))
        (Step.claim 1 bob 60 10 created))
      (Step.persist 1 bob (codes "0xraw") (codes "0xhash") 11 claimed)

Reach-RowKept_example : RowKept (find_op 1 signed) (find_op 1 signed_again)
Reach-RowKept_example =
    Reach-RowKept signed signed_again 1
      (Reach.next Reach.here (Step.persist 1 bob (codes "0xother") (codes "0xother") 12 signed))

abbrev pub held : DebitOperation
held = record {
  id = 1;
  source_kind = codes "revert";
  source_id = codes "7";
  sub_solver = alice;
  amount = 40;
  reason = codes "0x1";
  status = DebitStatus.pending;
  lease_owner = some bob;
  lease_expires_at = some 70;
  attempt_count = 0;
  last_error = none;
  next_retry_at = none;
  raw_transaction = none;
  transaction_hash = none;
  updated_at = 10;
}

-- Bob holds operation 1 until 70; meanwhile carol tries in vain to claim it and to report a failure.
abbrev tried : Operations
tried =
    record_debit_failure 1 carol (codes "late") 30
      (claim_debit_operation 1 carol 60 20 (claim_debit_operation 1 bob 60 10 created).1).1

-- The first answer is that the transaction is unknown; the broadcast lands it.
abbrev pub answers : Operator
answers = record {
  sign_debit = λ sub_solver amount reason.
      Answer.returned (record { raw_transaction = codes "0xraw"; hash = codes "0xhash" });
  outcome_before = λ hash. Answer.returned DebitOutcome.unknown;
  broadcast_signed_debit = λ raw. Answer.returned (codes "0xHash");
  outcome_after = λ hash. Answer.returned DebitOutcome.succeeded;
}

abbrev landed_debit : LandedDebit
landed_debit = record { hash = codes "0xhash"; operation_id = 1; owner = bob }

durable_debit_landed_example : IsConfirmed answers bob landed_debit
durable_debit_landed_example = durable_debit_landed answers bob 1 input 10 [] landed_debit (
    unfold durable_debit create_debit_operation claim_debit_operation persist_signed_debit
      broadcast_signed to_lower in
    refl)

durable_debit-IsDebited_example :
    IsDebited
      (find_source (codes "revert") (codes "7") [])
      (find_source (codes "revert") (codes "7") (durable_debit answers bob 1 input 10 []).1)
      40
durable_debit-IsDebited_example =
    durable_debit-IsDebited answers bob 1 input 10 [] (durable_debit answers bob 1 input 10 []).1
      Reach.here

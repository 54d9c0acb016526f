-- ===== src/Debit/Worker/Runs.antt =====
-- What a run of durableDebit (apps/byos/src/infra/jobs/penalty.ts) does to the table, and what
-- its result says.
use byos_service_ts.Prelude.{ℕ, ◌≡◌, refl, Bool, true, false, Option, none, some, Text}
use byos_service_ts.Debit.{
  DebitOperation, DebitOperationInput, Operations, find_op, create_debit_operation,
  claim_debit_operation, persist_signed_debit,
}
use byos_service_ts.Debit.Payload.{Reach, Step, RowKept, Reach-RowKept}
use byos_service_ts.Debit.Worker.{
  Answer, SignedDebit, Operator, Attempt, persisted, signed_now, sign_and_broadcast, settle_attempt,
  lease_secs, work_claimed, work_created, durable_debit,
}

settled-Reach :
    (start : Operations) (owner : Text) (o : DebitOperation) (now : ℕ) (r : Attempt × Operations)
    → Reach start r.1
    → Reach start (settle_attempt owner o now r).1
settled-Reach start owner o now (Attempt.landed l, t) h = h
settled-Reach start owner o now (Attempt.not_persisted, t) h = h
settled-Reach start owner o now (Attempt.failed m, t) h =
    Reach.next h (Step.fail o.id owner m now t)

persisted-table :
    (op : Operator) (owner : Text) (o : DebitOperation) (signed : SignedDebit)
    (r : Bool × Operations)
    → (persisted op owner o signed r).1 ≡ r.1
persisted-table op owner o signed (true, t) = refl
persisted-table op owner o signed (false, t) = refl

signed-Reach :
    (start : Operations) (op : Operator) (owner : Text) (o : DebitOperation) (now : ℕ)
    (t : Operations) (a : Answer SignedDebit)
    → Reach start t
    → Reach start (signed_now op owner o now t a).1
signed-Reach start op owner o now t (Answer.threw m) h = h
signed-Reach start op owner o now t (Answer.returned s) h =
    rw
      (persisted-table op owner o s
        (persist_signed_debit o.id owner s.raw_transaction s.hash now t))
      (Reach.next h (Step.persist o.id owner s.raw_transaction s.hash now t))

attempt-Reach :
    (start : Operations) (op : Operator) (owner sub_solver : Text) (o : DebitOperation) (now : ℕ)
    (t : Operations) (raw hash : Option Text)
    → Reach start t
    → Reach start (sign_and_broadcast op owner sub_solver o now t raw hash).1
attempt-Reach start op owner sub_solver o now t (some raw) (some hash) h = h
attempt-Reach start op owner sub_solver o now t (some raw) none h =
    signed-Reach start op owner o now t (op.sign_debit sub_solver o.amount o.reason) h
attempt-Reach start op owner sub_solver o now t none hash h =
    signed-Reach start op owner o now t (op.sign_debit sub_solver o.amount o.reason) h

claimed-Reach :
    (start : Operations) (op : Operator) (owner sub_solver : Text) (now : ℕ)
    (r : Option DebitOperation × Operations)
    → Reach start r.1
    → Reach start (work_claimed op owner sub_solver now r).1
claimed-Reach start op owner sub_solver now (none, t) h = h
claimed-Reach start op owner sub_solver now (some o, t) h =
    let tried =
      sign_and_broadcast op owner sub_solver o now t o.raw_transaction o.transaction_hash in
    settled-Reach start owner o now tried
      (attempt-Reach start op owner sub_solver o now t o.raw_transaction o.transaction_hash h)

pub created-Reach :
    (start : Operations) (op : Operator) (owner sub_solver : Text) (now : ℕ)
    (r : Option DebitOperation × Operations)
    → Reach start r.1
    → Reach start (work_created op owner sub_solver now r).1
created-Reach start op owner sub_solver now (none, t) h = h
created-Reach start op owner sub_solver now (some o, t) h =
    claimed-Reach start op owner sub_solver now (claim_debit_operation o.id owner lease_secs now t)
      (Reach.next h (Step.claim o.id owner lease_secs now t))

-- Whatever the operator answers, a run of durable_debit takes the table to one that the
-- statements of workers reach, where the sequence's next value is no operation's id.
pub durable_debit-Reach :
    (op : Operator) (owner : Text) (next_id : ℕ) (input : DebitOperationInput) (now : ℕ)
    (t : Operations)
    → find_op next_id t ≡ none
    → Reach t (durable_debit op owner next_id input now t).1
unfolding durable_debit
durable_debit-Reach op owner next_id input now t fresh =
    created-Reach t op owner input.sub_solver now (create_debit_operation next_id input now t)
      (Reach.next Reach.here (Step.create next_id input now t fresh))

-- Whatever the operator answers, a run of durable_debit keeps every operation's charge, and the
-- raw transaction and hash of each operation that has them, where the sequence's next value is
-- no operation's id.
pub durable_debit-RowKept :
    (op : Operator) (owner : Text) (next_id : ℕ) (input : DebitOperationInput) (now : ℕ)
    (t : Operations) (i : ℕ)
    → find_op next_id t ≡ none
    → RowKept (find_op i t) (find_op i (durable_debit op owner next_id input now t).1)
durable_debit-RowKept op owner next_id input now t i fresh =
    Reach-RowKept t (durable_debit op owner next_id input now t).1 i
      (durable_debit-Reach op owner next_id input now t fresh)

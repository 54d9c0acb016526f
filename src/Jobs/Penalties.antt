-- ===== src/Jobs/Penalties.antt =====
-- runNonSettlementDebits of apps/byos/src/infra/jobs/penalty.ts and executeNonSettlementPenalty of
-- apps/byos/src/infra/settlement-attempts.ts: the charge of abandoned settlements. The operator of
-- each attempt and the hash of an order's UID are parameters.
pub mod Settled
use byos_service_ts.Prelude.{
  ℕ, Bool, true, false, ◌&&◌, Option, none, some, List, [], ◌∷◌, ◌++◌, Text, codes, text_eq,
  to_lower, map, filter, includes, is_some, ◌==◌, if◌then◌else◌,
}
use byos_service_ts.Domain.Audit.{AuditKind, AuditEvent, Subject}
use byos_service_ts.Store.Table.{find, update_where, order_by}
use byos_service_ts.Store.Rows.{ProposalRow, Tables, update_proposals, update_log}
use byos_service_ts.Debit.{
  DebitOperation, DebitOperationInput, DebitStatus, Operations, find_source, found, held_by,
  finish_debit_operation,
}
use byos_service_ts.Debit.Worker.{Answer, Operator, LandedDebit, durable_debit}
use byos_service_ts.Attempts.{Attempt, is_eligible, execute_penalty}
use byos_service_ts.Jobs.Sources.{print_number}

-- A row of settlement_attempts with its members, the ids of its proposals.
pub record AttemptRow : Type 0 where
  pub attempt : Attempt
  pub proposal_id : ℕ
  pub sub_solver : Text
  pub order_uid : Text
  pub members : List ℕ

pub record PenaltyBooks : Type 0 where
  pub attempts : List AttemptRow
  pub tables : Tables
  pub operations : Operations
  pub audit : List AuditEvent

abbrev pub attempt_key : AttemptRow → ℕ
attempt_key r = r.attempt.id

abbrev pub penalty_kind : Text
penalty_kind = codes "non-settlement"

abbrev pub penalty_source_id : ℕ → Text
penalty_source_id i = codes "attempt:" ++ print_number i

abbrev pub status_of : Option DebitOperation → Option DebitStatus
status_of none = none
status_of (some o) = some o.status

-- The update of the attempt's row, by what the debit returned and its operation's status.
abbrev pub charge_row : ℕ → Option Text → Option DebitStatus → List AttemptRow → List AttemptRow
charge_row i landed status rows =
    update_where (λ r. i == attempt_key r)
      (λ r. record r { attempt = execute_penalty r.attempt landed status }) rows

abbrev pub with_penalty : Text → ProposalRow → ProposalRow
with_penalty hash r = record r {
  proposal = record (r.proposal) { penalty_tx_hash = some (to_lower hash) };
}

-- The live rows first, and then the log rows, which the trigger has not changed otherwise.
unfoldable pub penalize_members : List ℕ → Text → Tables → Tables
penalize_members members hash db =
    update_log (λ l. includes members l.id) (with_penalty hash)
      (update_proposals (λ r. includes members r.id) (with_penalty hash) db)

abbrev pub is_leased : LandedDebit → DebitOperation → Bool
is_leased l o = held_by l.operation_id l.owner o

-- An exception takes back what the transaction wrote; the debit's own writes stay.
abbrev pub settle_penalty :
    AttemptRow
    → Answer (Option LandedDebit) × Operations
    → PenaltyBooks
    → Answer (Option LandedDebit) × PenaltyBooks
settle_penalty r (Answer.threw message, t) b = (Answer.threw message, record b { operations = t })
settle_penalty r (Answer.returned none, t) b = (
  Answer.returned none,
  record b {
    operations = t;
    attempts =
        charge_row (attempt_key r) none
          (status_of (find_source penalty_kind (penalty_source_id (attempt_key r)) t)) b.attempts;
  },
)
settle_penalty r (Answer.returned (some l), t) b =
    if found (filter (is_leased l) t)
    then (
      Answer.returned (some l),
      record b {
        attempts = charge_row (attempt_key r) (some l.hash) none b.attempts;
        tables = penalize_members r.members l.hash b.tables;
        operations = finish_debit_operation l.operation_id l.owner t;
      },
    )
    else (
      Answer.threw (codes "Debit operation lease changed before finalization"),
      record b { operations = t },
    )

abbrev pub if_eligible :
    (Operations → Answer (Option LandedDebit) × Operations)
    → Option AttemptRow
    → PenaltyBooks
    → Answer (Option LandedDebit) × PenaltyBooks
if_eligible debit none b = (Answer.returned none, b)
if_eligible debit (some r) b =
    if is_eligible r.attempt.status
    then settle_penalty r (debit b.operations) b
    else (Answer.returned none, b)

unfoldable pub execute_non_settlement_penalty :
    ℕ
    → (debit : Operations → Answer (Option LandedDebit) × Operations) → PenaltyBooks
    → Answer (Option LandedDebit) × PenaltyBooks
execute_non_settlement_penalty i debit b = if_eligible debit (find attempt_key i b.attempts) b

-- What a tick takes from outside: the operator for each attempt, the hash of an order's UID, and
-- the next value of the operations' sequence.
pub record PenaltyReads : Type 0 where
  pub operator : ℕ → Operator
  pub non_settlement_reason : Text → Text
  pub next_operation : Operations → ℕ
  pub worker_id : Text
  pub now : ℕ

pub record PendingPenalty : Type 0 where
  pub id : ℕ
  pub proposal_id : ℕ
  pub sub_solver : Text
  pub order_uid : Text
  pub amount : ℕ

abbrev pub debit_of :
    PenaltyReads → PendingPenalty → Operations → Answer (Option LandedDebit) × Operations
debit_of reads p t =
    durable_debit (reads.operator p.id) reads.worker_id (reads.next_operation t)
      (record {
        source_kind = penalty_kind;
        source_id = penalty_source_id p.id;
        sub_solver = p.sub_solver;
        amount = p.amount;
        reason = reads.non_settlement_reason p.order_uid;
      })
      reads.now t

abbrev pub after_penalty :
    PenaltyReads → PendingPenalty → Answer (Option LandedDebit) × PenaltyBooks → PenaltyBooks
after_penalty reads p (Answer.threw message, b) = b
after_penalty reads p (Answer.returned none, b) = b
after_penalty reads p (Answer.returned (some l), b) = record b {
  audit =
      record {
        occurred_at = reads.now;
        kind =
            AuditKind.non_settlement_debited
              (record {
                proposal_id = p.proposal_id;
                sub_solver = p.sub_solver;
                order_uid = p.order_uid;
              })
              p.amount l.hash;
      }
      ∷ b.audit;
}

-- The loop; its exceptions are caught for each item.
unfoldable pub penalize_all : PenaltyReads → List PendingPenalty → PenaltyBooks → PenaltyBooks
penalize_all reads [] b = b
penalize_all reads (p ∷ ps) b =
    penalize_all reads ps
      (after_penalty reads p (execute_non_settlement_penalty p.id (debit_of reads p) b))

abbrev pub pending_with : AttemptRow → (cap amount : Option ℕ) → Option PendingPenalty
pending_with r none amount = none
pending_with r (some cap) none = none
pending_with r (some cap) (some amount) = some (record {
  id = attempt_key r;
  proposal_id = r.proposal_id;
  sub_solver = r.sub_solver;
  order_uid = r.order_uid;
  amount = amount;
})

abbrev pub pending_onto :
    Option PendingPenalty → Option (List PendingPenalty) → Option (List PendingPenalty)
pending_onto none ps = none
pending_onto (some p) none = none
pending_onto (some p) (some ps) = some (p ∷ ps)

abbrev pub pending_of : List AttemptRow → Option (List PendingPenalty)
pending_of [] = some []
pending_of (r ∷ rows) =
    pending_onto (pending_with r r.attempt.penalty_cap r.attempt.amount) (pending_of rows)

-- `none` is the exception on an eligible attempt without a cap or an amount.
unfoldable pub eligible_non_settlement_penalties : List AttemptRow → Option (List PendingPenalty)
eligible_non_settlement_penalties rows =
    pending_of (order_by attempt_key (filter (λ r. is_eligible r.attempt.status) rows))

abbrev pub penalize_pending :
    PenaltyReads → Option (List PendingPenalty) → PenaltyBooks → PenaltyBooks
penalize_pending reads none b = b
penalize_pending reads (some ps) b = penalize_all reads ps b

unfoldable pub run_non_settlement_debits : PenaltyReads → PenaltyBooks → PenaltyBooks
run_non_settlement_debits reads b =
    penalize_pending reads (eligible_non_settlement_penalties b.attempts) b

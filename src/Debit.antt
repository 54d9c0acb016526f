-- ===== src/Debit.antt =====
-- apps/byos/src/infra/storage.ts, the debit_operations table: one durable operation for each
-- chargeable event, worked on under an expiring lease. `now` is the database's clock in seconds.
pub mod Worker
pub mod Leases
pub mod Payload
pub mod Charges
use byos_service_ts.Prelude.{
  ℕ, ◌+◌, Bool, true, false, not, ◌&&◌, ◌||◌, Option, none, some, List, [], ◌∷◌, Text, text_eq,
  to_lower, map, filter, is_some, ltb, leb, ◌==◌, if◌then◌else◌,
}
use byos_service_ts.Store.Table.{find, update_where}

pub data DebitStatus : Type 0 where
  pending broadcasting completed needs_reconciliation cancelled : DebitStatus

pub record DebitOperation : Type 0 where
  pub id : ℕ
  pub source_kind : Text
  pub source_id : Text
  pub sub_solver : Text
  pub amount : ℕ
  pub reason : Text
  pub status : DebitStatus
  pub lease_owner : Option Text
  pub lease_expires_at : Option ℕ
  pub attempt_count : ℕ
  pub last_error : Option Text
  pub next_retry_at : Option ℕ
  pub raw_transaction : Option Text
  pub transaction_hash : Option Text
  pub updated_at : ℕ

abbrev pub Operations : Type 0
Operations = List DebitOperation

abbrev pub op_id : DebitOperation → ℕ
op_id o = o.id

abbrev pub find_op : ℕ → Operations → Option DebitOperation
find_op = find op_id

abbrev pub is_open : DebitStatus → Bool
is_open DebitStatus.pending = true
is_open DebitStatus.broadcasting = true
is_open _ = false

abbrev pub owner_is : Text → Option Text → Bool
owner_is w none = false
owner_is w (some o) = text_eq o w

-- `id = i AND lease_owner = w`
abbrev pub held_by : ℕ → Text → DebitOperation → Bool
held_by i w o = o.id == i && owner_is w o.lease_owner

abbrev pub found : List DebitOperation → Bool
found [] = false
found (o ∷ t) = true

abbrev pub may_sign : ℕ → Text → DebitOperation → Bool
may_sign i w o = held_by i w o && not (is_some o.raw_transaction)

abbrev pub sign_op : Text → Text → ℕ → DebitOperation → DebitOperation
sign_op raw hash now o = record o {
  raw_transaction = some (to_lower raw);
  transaction_hash = some (to_lower hash);
  status = DebitStatus.broadcasting;
  updated_at = now;
}

unfoldable pub persist_signed_debit : ℕ → Text → Text → Text → ℕ → Operations → Bool × Operations
persist_signed_debit i w raw hash now t =
    (found (filter (may_sign i w) t), update_where (may_sign i w) (sign_op raw hash now) t)

abbrev pub complete_op : ℕ → DebitOperation → DebitOperation
complete_op now o = record o {
  status = DebitStatus.completed;
  lease_owner = none;
  lease_expires_at = none;
  next_retry_at = none;
  updated_at = now;
}

unfoldable pub complete_debit_operation : ℕ → Text → ℕ → Operations → Bool × Operations
complete_debit_operation i w now t =
    (found (filter (held_by i w) t), update_where (held_by i w) (complete_op now) t)

-- What executeNonSettlementPenalty of settlement-attempts.ts makes of a landed operation.
abbrev pub finish_op : DebitOperation → DebitOperation
finish_op o = record o {
  status = DebitStatus.completed;
  lease_owner = none;
  lease_expires_at = none;
  next_retry_at = none;
}

unfoldable pub finish_debit_operation : ℕ → Text → Operations → Operations
finish_debit_operation i w t = update_where (held_by i w) finish_op t

abbrev pub awaits_review : DebitStatus → Bool
awaits_review DebitStatus.needs_reconciliation = true
awaits_review _ = false

abbrev pub resume_op : ℕ → DebitOperation → DebitOperation
resume_op now o = record o {
  status = DebitStatus.pending;
  attempt_count = 0;
  last_error = none;
  next_retry_at = some now;
  lease_owner = none;
  lease_expires_at = none;
  updated_at = now;
}

-- The statement of resumeDebitOperation on the operation, once its evidence allows it.
unfoldable pub resume_operation : ℕ → ℕ → Operations → Operations
resume_operation i now t = update_where (λ o. o.id == i && awaits_review o.status) (resume_op now) t

pub record DebitOperationInput : Type 0 where
  pub source_kind : Text
  pub source_id : Text
  pub sub_solver : Text
  pub amount : ℕ
  pub reason : Text

abbrev pub same_source : Text → Text → DebitOperation → Bool
same_source kind source o = text_eq o.source_kind kind && text_eq o.source_id source

abbrev pub find_source : Text → Text → Operations → Option DebitOperation
find_source kind source [] = none
find_source kind source (o ∷ t) =
    if same_source kind source o then some o else find_source kind source t

abbrev pub new_op : ℕ → DebitOperationInput → ℕ → DebitOperation
new_op i input now = record {
  id = i;
  source_kind = input.source_kind;
  source_id = input.source_id;
  sub_solver = to_lower input.sub_solver;
  amount = input.amount;
  reason = to_lower input.reason;
  status = DebitStatus.pending;
  lease_owner = none;
  lease_expires_at = none;
  attempt_count = 0;
  last_error = none;
  next_retry_at = none;
  raw_transaction = none;
  transaction_hash = none;
  updated_at = now;
}

-- The insert does nothing where the source has its operation already; then the row of the source
-- is read. `next_id` is the sequence's next value.
unfoldable pub create_debit_operation :
    ℕ → DebitOperationInput → ℕ → Operations → Option DebitOperation × Operations
create_debit_operation next_id input now t =
    let after =
      if is_some (find_source input.source_kind input.source_id t)
      then t
      else new_op next_id input now ∷ t in
    (find_source input.source_kind input.source_id after, after)

abbrev pub is_before : Option ℕ → ℕ → Bool
is_before none now = true
is_before (some at) now = ltb at now

-- Open, and with no lease or an expired one.
abbrev pub may_claim : ℕ → ℕ → DebitOperation → Bool
may_claim i now o = o.id == i && (is_open o.status && is_before o.lease_expires_at now)

abbrev pub claim_op : Text → ℕ → ℕ → DebitOperation → DebitOperation
claim_op w lease_secs now o = record o {
  lease_owner = some w;
  lease_expires_at = some (now + lease_secs);
  updated_at = now;
}

-- The row that an update has returned.
abbrev pub first_of :
    (DebitOperation → DebitOperation) → List DebitOperation → Option DebitOperation
first_of f [] = none
first_of f (o ∷ t) = some (f o)

unfoldable pub claim_debit_operation :
    ℕ → Text → ℕ → ℕ → Operations → Option DebitOperation × Operations
claim_debit_operation i w lease_secs now t = (
  first_of (claim_op w lease_secs now) (filter (may_claim i now) t),
  update_where (may_claim i now) (claim_op w lease_secs now) t,
)

abbrev pub max_attempts : ℕ
max_attempts = 10

abbrev pub fail_op : Text → ℕ → DebitOperation → DebitOperation
fail_op error now o = record o {
  attempt_count = o.attempt_count + 1;
  last_error = some error;
  status =
      if leb max_attempts (o.attempt_count + 1)
      then DebitStatus.needs_reconciliation
      else DebitStatus.pending;
  next_retry_at = if leb max_attempts (o.attempt_count + 1) then none else some now;
  lease_owner = none;
  lease_expires_at = none;
  updated_at = now;
}

unfoldable pub record_debit_failure : ℕ → Text → Text → ℕ → Operations → Operations
record_debit_failure i w error now t = update_where (held_by i w) (fail_op error now) t

abbrev status_field : Option DebitOperation → Option DebitStatus
status_field none = none
status_field (some o) = some o.status

pub debit_operation_status : ℕ → Operations → Option DebitStatus
debit_operation_status i t = status_field (find_op i t)

unfoldable pub open_debit_operations : Text → Operations → List DebitOperation
open_debit_operations kind t = filter (λ o. text_eq o.source_kind kind && is_open o.status) t

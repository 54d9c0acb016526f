-- ===== src/Debit/Leases.antt =====
-- Leases of the debit operations (apps/byos/src/infra/storage.ts): who holds an operation.
pub mod Exclusive
use byos_service_ts.Prelude.{
  ◌+◌, ◌≤◌, ◌≡◌, Bool, true, false, Option, none, some, is_some, ltb, text_eq, ◌⊎◌,
}
use byos_service_ts.Store.Table.{KeepsKey, find-key, update_where-IsUnique, find-update_where}
use byos_service_ts.Debit.{
  DebitOperation, DebitOperationInput, find_source, new_op, held_by, may_sign, sign_op, complete_op,
  fail_op, is_before, create_debit_operation, persist_signed_debit, complete_debit_operation,
  record_debit_failure,
}

-- No row that was read satisfies the condition.
abbrev Misses : (DebitOperation → Bool) → Option DebitOperation → Type 0
Misses p none = Unit {0}
Misses p (some o) = p o ≡ false

-- The row that was read satisfies the condition.
abbrev Hits : (DebitOperation → Bool) → Option DebitOperation → Type 0
Hits p none = ⊥
Hits p (some o) = p o ≡ true

-- ===== src/Debit/Leases/Exclusive.antt =====
-- A claimed operation of apps/byos/src/infra/storage.ts while others work on the table.
use byos_service_ts.Prelude.{ℕ, ◌≤◌, ◌≡◌, false, none, some, Text, ◌==◌, text_eq, ◌⊎◌}
use byos_service_ts.Store.Table.{IsUnique}
use byos_service_ts.Debit.{
  DebitOperation, DebitOperationInput, Operations, op_id, find_op, claim_debit_operation,
  create_debit_operation, persist_signed_debit, complete_debit_operation, record_debit_failure,
}

-- Another operation, or another worker.
abbrev pub IsOther : (i : ℕ) (w : Text) (k : ℕ) (w' : Text) → Type 0
IsOther i w k w' = ((i == k) ≡ false) ⊎ (text_eq w w' ≡ false)

-- One statement while worker w holds operation i until then: any worker's claim that is not later,
-- and what others do to their operations.
pub data Meanwhile (i : ℕ) (w : Text) (until : ℕ) : Operations → Operations → Type 0 where
  claim :
      (k : ℕ) (w' : Text) (lease now : ℕ) (t : Operations)
      → now ≤ until
      → Meanwhile i w until t (claim_debit_operation k w' lease now t).1
  create :
      (n : ℕ) (input : DebitOperationInput) (now : ℕ) (t : Operations)
      → find_op n t ≡ none
      → Meanwhile i w until t (create_debit_operation n input now t).1
  persist :
      (k : ℕ) (w' raw hash : Text) (now : ℕ) (t : Operations)
      → IsOther i w k w'
      → Meanwhile i w until t (persist_signed_debit k w' raw hash now t).1
  complete :
      (k : ℕ) (w' : Text) (now : ℕ) (t : Operations)
      → IsOther i w k w'
      → Meanwhile i w until t (complete_debit_operation k w' now t).1
  fail :
      (k : ℕ) (w' error : Text) (now : ℕ) (t : Operations)
      → IsOther i w k w'
      → Meanwhile i w until t (record_debit_failure k w' error now t)

pub data OthersWork (i : ℕ) (w : Text) (until : ℕ) (start : Operations) : Operations → Type 0 where
  here : OthersWork i w until start start
  next :
      {s t : Operations}
      → OthersWork i w until start s
      → Meanwhile i w until s t
      → OthersWork i w until start t

-- Worker w holds operation i until then.
record Held (i : ℕ) (w : Text) (until : ℕ) (t : Operations) : Type 0 where
  pub unique : IsUnique op_id t
  pub row : DebitOperation
  pub is_found : find_op i t ≡ some row
  pub is_owned : row.lease_owner ≡ some w
  pub is_leased : row.lease_expires_at ≡ some until

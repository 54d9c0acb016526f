-- ===== src/Debit/Worker.antt =====
-- durableDebit of apps/byos/src/infra/jobs/penalty.ts: one debit operation from its row to its
-- transaction. What the operator's calls answer is a parameter.
pub mod Runs
pub mod Landed
use byos_service_ts.Prelude.{
  ℕ, Bool, true, false, Option, none, some, ◌++◌, Text, codes, text_eq, to_lower, if◌then◌else◌,
}
use byos_service_ts.Debit.{
  DebitOperation, DebitOperationInput, Operations, create_debit_operation, claim_debit_operation,
  persist_signed_debit, record_debit_failure,
}

pub data DebitOutcome : Type 0 where
  succeeded reverted unknown : DebitOutcome

-- An awaited call that returns, or throws with its message.
pub data Answer (A : Type 0) : Type 0 where
  returned : A → Answer A
  threw : Text → Answer A

pub record SignedDebit : Type 0 where
  pub raw_transaction : Text
  pub hash : Text

-- The operator's answers during one run: debitOutcome is asked before and after the broadcast.
pub record Operator : Type 0 where
  pub sign_debit : Text → ℕ → Text → Answer SignedDebit
  pub outcome_before : Text → Answer DebitOutcome
  pub broadcast_signed_debit : Text → Answer Text
  pub outcome_after : Text → Answer DebitOutcome

pub record LandedDebit : Type 0 where
  pub hash : Text
  pub operation_id : ℕ
  pub owner : Text

-- Where the body of the try block ends.
pub data Attempt : Type 0 where
  landed : LandedDebit → Attempt
  not_persisted : Attempt
  failed : Text → Attempt

abbrev pub tx_reverted : Text → Text
tx_reverted hash = codes "debit tx " ++ (hash ++ codes " reverted")

abbrev pub land_by : Text → DebitOperation → Text → Answer DebitOutcome → Attempt → Attempt
land_by owner o hash (Answer.returned DebitOutcome.succeeded) otherwise =
    Attempt.landed (record { hash = hash; operation_id = o.id; owner = owner })
land_by owner o hash (Answer.returned DebitOutcome.reverted) otherwise =
    Attempt.failed (tx_reverted hash)
land_by owner o hash (Answer.returned DebitOutcome.unknown) otherwise = otherwise
land_by owner o hash (Answer.threw message) otherwise = Attempt.failed message

abbrev pub after_broadcast : Operator → Text → DebitOperation → Text → Answer Text → Attempt
after_broadcast op owner o hash (Answer.threw message) = Attempt.failed message
after_broadcast op owner o hash (Answer.returned sent) =
    if text_eq (to_lower sent) (to_lower hash)
    then land_by owner o hash (op.outcome_after hash)
        (Attempt.failed (codes "debit tx " ++ (hash ++ codes " outcome is not yet known")))
    else Attempt.failed (codes "broadcast returned unexpected debit hash " ++ sent)

-- The transaction is signed and stored: ask, broadcast what is stored, ask again.
unfoldable pub broadcast_signed : Operator → Text → DebitOperation → Text → Text → Attempt
broadcast_signed op owner o raw hash =
    land_by owner o hash (op.outcome_before hash)
      (after_broadcast op owner o hash (op.broadcast_signed_debit raw))

abbrev pub persisted :
    Operator → Text → DebitOperation → SignedDebit → Bool × Operations → Attempt × Operations
persisted op owner o signed (true, t) =
    (broadcast_signed op owner o signed.raw_transaction signed.hash, t)
persisted op owner o signed (false, t) = (Attempt.not_persisted, t)

abbrev pub signed_now :
    Operator → Text → DebitOperation → ℕ → Operations → Answer SignedDebit → Attempt × Operations
signed_now op owner o now t (Answer.threw message) = (Attempt.failed message, t)
signed_now op owner o now t (Answer.returned signed) =
    persisted op owner o signed
      (persist_signed_debit o.id owner signed.raw_transaction signed.hash now t)

abbrev pub sign_and_broadcast :
    Operator
    → Text
    → Text
    → DebitOperation
    → ℕ
    → Operations
    → Option Text
    → Option Text
    → Attempt × Operations
sign_and_broadcast op owner sub_solver o now t (some raw) (some hash) =
    (broadcast_signed op owner o raw hash, t)
sign_and_broadcast op owner sub_solver o now t (some raw) none =
    signed_now op owner o now t (op.sign_debit sub_solver o.amount o.reason)
sign_and_broadcast op owner sub_solver o now t none hash =
    signed_now op owner o now t (op.sign_debit sub_solver o.amount o.reason)

-- The catch block, and the values returned.
abbrev pub settle_attempt :
    Text → DebitOperation → ℕ → Attempt × Operations → Option LandedDebit × Operations
settle_attempt owner o now (Attempt.landed l, t) = (some l, t)
settle_attempt owner o now (Attempt.not_persisted, t) = (none, t)
settle_attempt owner o now (Attempt.failed message, t) =
    (none, record_debit_failure o.id owner message now t)

abbrev pub lease_secs : ℕ
lease_secs = 60

abbrev pub work_claimed :
    Operator
    → Text
    → Text
    → ℕ
    → Option DebitOperation × Operations
    → Option LandedDebit × Operations
work_claimed op owner sub_solver now (none, t) = (none, t)
work_claimed op owner sub_solver now (some o, t) =
    settle_attempt owner o now
      (sign_and_broadcast op owner sub_solver o now t o.raw_transaction o.transaction_hash)

abbrev pub returning : Option LandedDebit × Operations → Answer (Option LandedDebit) × Operations
returning (l, t) = (Answer.returned l, t)

-- A row that is not there after its creation makes createDebitOperation throw.
abbrev pub work_created :
    Operator
    → Text
    → Text
    → ℕ
    → Option DebitOperation × Operations
    → Answer (Option LandedDebit) × Operations
work_created op owner sub_solver now (none, t) =
    (Answer.threw (codes "debit operation disappeared after creation"), t)
work_created op owner sub_solver now (some o, t) =
    returning
      (work_claimed op owner sub_solver now (claim_debit_operation o.id owner lease_secs now t))

-- `now` is the clock of this run's statements; `next_id` the sequence's next value.
unfoldable pub durable_debit :
    Operator
    → Text
    → ℕ
    → DebitOperationInput
    → ℕ
    → Operations
    → Answer (Option LandedDebit) × Operations
durable_debit op owner next_id input now t =
    work_created op owner input.sub_solver now (create_debit_operation next_id input now t)

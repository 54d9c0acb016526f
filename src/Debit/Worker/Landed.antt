-- ===== src/Debit/Worker/Landed.antt =====
-- When durableDebit (apps/byos/src/infra/jobs/penalty.ts) reports a debit as landed.
use byos_service_ts.Prelude.{
  ℕ, ◌≡◌, refl, subst, Bool, true, false, Option, none, some, Text, text_eq, to_lower, Bool-cases,
  ◌⊎◌, inl, inr,
}
use byos_service_ts.Debit.{
  DebitOperation, DebitOperationInput, Operations, create_debit_operation, claim_debit_operation,
  persist_signed_debit,
}
use byos_service_ts.Debit.Worker.{
  DebitOutcome, Answer, SignedDebit, Operator, LandedDebit, Attempt, land_by, after_broadcast,
  broadcast_signed, persisted, signed_now, sign_and_broadcast, settle_attempt, lease_secs,
  work_claimed, work_created, durable_debit,
}

module _ (op : Operator) (owner : Text) where
  -- The operator has reported the transaction as succeeded, and the debit is this worker's.
  abbrev pub IsConfirmed : LandedDebit → Type 0
  IsConfirmed l =
      ((op.outcome_before l.hash ≡ Answer.returned DebitOutcome.succeeded)
        ⊎ (op.outcome_after l.hash ≡ Answer.returned DebitOutcome.succeeded))
      × (l.owner ≡ owner)

  abbrev pub AttemptOk : Attempt → Type 0
  AttemptOk (Attempt.landed l) = IsConfirmed l
  AttemptOk Attempt.not_persisted = Unit {0}
  AttemptOk (Attempt.failed m) = Unit {0}

  before_ok :
      (o : DebitOperation) (hash : Text) (otherwise : Attempt) (a : Answer DebitOutcome)
      → AttemptOk otherwise
      → op.outcome_before hash ≡ a
      → AttemptOk (land_by owner o hash a otherwise)
  before_ok o hash x (Answer.returned DebitOutcome.succeeded) h e = (inl e, refl)
  before_ok o hash x (Answer.returned DebitOutcome.reverted) h e = tt
  before_ok o hash x (Answer.returned DebitOutcome.unknown) h e = h
  before_ok o hash x (Answer.threw m) h e = tt

  after_ok :
      (o : DebitOperation) (hash m : Text) (a : Answer DebitOutcome)
      → op.outcome_after hash ≡ a
      → AttemptOk (land_by owner o hash a (Attempt.failed m))
  after_ok o hash x (Answer.returned DebitOutcome.succeeded) e = (inr e, refl)
  after_ok o hash x (Answer.returned DebitOutcome.reverted) e = tt
  after_ok o hash x (Answer.returned DebitOutcome.unknown) e = tt
  after_ok o hash x (Answer.threw m) e = tt

  broadcast_ok :
      (o : DebitOperation) (hash : Text) (a : Answer Text)
      → AttemptOk (after_broadcast op owner o hash a)
  broadcast_ok o hash (Answer.threw m) = tt
  broadcast_ok o hash (Answer.returned sent) =
      elim (Bool-cases (text_eq (to_lower sent) (to_lower hash))) [
        | inl same ↦ rw same (after_ok o hash _ (op.outcome_after hash) refl)
        | inr other ↦ rw other tt
      ]

  signed_ok :
      (o : DebitOperation) (raw hash : Text) → AttemptOk (broadcast_signed op owner o raw hash)
  unfolding broadcast_signed
  signed_ok o raw hash =
      before_ok o hash (after_broadcast op owner o hash (op.broadcast_signed_debit raw))
        (op.outcome_before hash) (broadcast_ok o hash (op.broadcast_signed_debit raw)) refl

  persisted_ok :
      (o : DebitOperation) (s : SignedDebit) (r : Bool × Operations)
      → AttemptOk (persisted op owner o s r).0
  persisted_ok o s (true, t) = signed_ok o s.raw_transaction s.hash
  persisted_ok o s (false, t) = tt

  now_ok :
      (o : DebitOperation) (now : ℕ) (t : Operations) (a : Answer SignedDebit)
      → AttemptOk (signed_now op owner o now t a).0
  now_ok o now t (Answer.threw m) = tt
  now_ok o now t (Answer.returned s) =
      persisted_ok o s (persist_signed_debit o.id owner s.raw_transaction s.hash now t)

  attempt_ok :
      (sub_solver : Text) (o : DebitOperation) (now : ℕ) (t : Operations) (raw hash : Option Text)
      → AttemptOk (sign_and_broadcast op owner sub_solver o now t raw hash).0
  attempt_ok u o now t (some raw) (some hash) = signed_ok o raw hash
  attempt_ok u o now t (some raw) none = now_ok o now t (op.sign_debit u o.amount o.reason)
  attempt_ok u o now t none hash = now_ok o now t (op.sign_debit u o.amount o.reason)

  abbrev pub ResultOk : Option LandedDebit → Type 0
  ResultOk none = Unit {0}
  ResultOk (some l) = IsConfirmed l

  settled_ok :
      (o : DebitOperation) (now : ℕ) (r : Attempt × Operations)
      → AttemptOk r.0
      → ResultOk (settle_attempt owner o now r).0
  settled_ok o now (Attempt.landed l, t) h = h
  settled_ok o now (Attempt.not_persisted, t) h = tt
  settled_ok o now (Attempt.failed m, t) h = tt

  claimed_ok :
      (sub_solver : Text) (now : ℕ) (r : Option DebitOperation × Operations)
      → ResultOk (work_claimed op owner sub_solver now r).0
  claimed_ok u now (none, t) = tt
  claimed_ok u now (some o, t) =
      settled_ok o now (sign_and_broadcast op owner u o now t o.raw_transaction o.transaction_hash)
        (attempt_ok u o now t o.raw_transaction o.transaction_hash)

  abbrev pub RunOk : Answer (Option LandedDebit) → Type 0
  RunOk (Answer.returned l) = ResultOk l
  RunOk (Answer.threw m) = Unit {0}

  created_ok :
      (sub_solver : Text) (now : ℕ) (r : Option DebitOperation × Operations)
      → RunOk (work_created op owner sub_solver now r).0
  created_ok u now (none, t) = tt
  created_ok u now (some o, t) =
      claimed_ok u now (claim_debit_operation o.id owner lease_secs now t)

-- A run that reports a debit as landed names the worker, and a transaction hash for which the
-- operator has answered that it succeeded, before or after the broadcast.
pub durable_debit_landed :
    (op : Operator) (owner : Text) (next_id : ℕ) (input : DebitOperationInput) (now : ℕ)
    (t : Operations) (l : LandedDebit)
    → (durable_debit op owner next_id input now t).0 ≡ Answer.returned (some l)
    → IsConfirmed op owner l
unfolding durable_debit
durable_debit_landed op owner next_id input now t l h =
    subst (RunOk op owner) h
      (created_ok op owner input.sub_solver now (create_debit_operation next_id input now t))

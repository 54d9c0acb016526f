-- ===== src/Attempts/Eligible.antt =====
-- When an attempt of apps/byos/src/infra/settlement-attempts.ts may be charged.
use byos_service_ts.Domain.Collateral.{non_settlement_debit}
use byos_service_ts.Prelude.{
  ℕ, ◌/◌, ◌≡◌, refl, Bool, true, false, not, ◌&&◌, ◌||◌, Option, none, some, Text, is_some, arith,
  if◌then◌else◌, Bool-cases, inl, inr,
}
use byos_service_ts.Debit.{DebitOperation, DebitStatus}
use byos_service_ts.Attempts.{
  Attempt, AttemptStatus, AbandonmentKind, NotificationKind, Outcome, ReconciliationReason,
  abandonment_of, amount_of, is_eligible, in_review, is_positive, retries_exhausted_is, new_attempt,
  or_else, starts, when_some, outcome_of, has_bytes, status_after, record_evidence, record_conflict,
  is_parked, charge, execute_penalty, may_resume, resume_attempt,
}

-- The attempt is eligible, or a resumption can make it eligible again.
abbrev pub is_chargeable_state : AttemptStatus → Option ReconciliationReason → Bool
is_chargeable_state status reason =
    is_eligible status || (in_review status && retries_exhausted_is reason)

-- Both times and a positive amount.
abbrev pub is_complete : Attempt → Bool
is_complete a = is_some a.started_at && (is_some a.abandoned_at && is_positive a.amount)

-- The penalty of an abandonment: a tenth of the cap, rounded down.
abbrev pub tenth_of : Option ℕ → Option ℕ
tenth_of none = none
tenth_of (some cap) = some (cap / 10)

-- The conditions of the check `settlement_attempt_eligibility` of apps/byos/src/db/schema.ts, and
-- what keeps them.
pub record IsSound (a : Attempt) : Type 0 where
  pub priced : a.amount ≡ tenth_of a.penalty_cap
  pub kinded : is_some a.abandoned_at ≡ is_some a.abandonment_kind
  pub complete :
      (not (is_chargeable_state a.status a.reconciliation_reason) || is_complete a) ≡ true
  pub undecided : (not (is_eligible a.status) || not (is_some a.outcome)) ≡ true

-- One change of an attempt.
pub data AttemptStep : Attempt → Attempt → Type 0 where
  evidence :
      (a : Attempt) (operation : Option DebitOperation) (kind : NotificationKind) (has_tx : Bool)
      (now : ℕ)
      → AttemptStep a (record_evidence a operation kind has_tx now)
  conflict : (a : Attempt) → AttemptStep a (record_conflict a)
  execute :
      (a : Attempt) (landed : Option Text) (operation : Option DebitStatus)
      → AttemptStep a (execute_penalty a landed operation)
  resume : (a : Attempt) (operation_amount : ℕ) → AttemptStep a (resume_attempt a operation_amount)

pub data AttemptReach (start : Attempt) : Attempt → Type 0 where
  here : AttemptReach start start
  next : {a b : Attempt} → AttemptReach start a → AttemptStep a b → AttemptReach start b

priced_lem : (cap : Option ℕ) → amount_of cap ≡ tenth_of cap
unfolding non_settlement_debit
priced_lem none = refl
priced_lem (some cap) = refl

new_attempt-IsSound :
    (id : ℕ) (cap : Option ℕ) (tx : Option Text) (legacy merged : Bool)
    → IsSound (new_attempt id cap tx legacy merged)
unfolding new_attempt
new_attempt-IsSound id cap tx legacy merged = record {
  priced = priced_lem cap;
  kinded = refl;
  complete = ground arith;
  undecided = ground arith;
}

conflict-IsSound : (a : Attempt) → IsSound a → IsSound (record_conflict a)
unfolding record_conflict
conflict-IsSound a v = record {
  priced = v.priced;
  kinded = v.kinded;
  complete = refl;
  undecided = refl;
}

resume-IsSound : (a : Attempt) (n : ℕ) → IsSound a → IsSound (resume_attempt a n)
unfolding resume_attempt
resume-IsSound a n v = elim (Bool-cases (may_resume a n)) [
  | inl may ↦ rw may (record {
    priced = v.priced;
    kinded = v.kinded;
    complete = ground (arith, v.complete);
    undecided = ground arith;
  })
  | inr not_now ↦ rw not_now v
]

eligible_complete :
    (status : AttemptStatus) (reason : Option ReconciliationReason) (done : Bool)
    → is_eligible status ≡ true
    → (not (is_chargeable_state status reason) || done) ≡ true
    → done ≡ true
eligible_complete status reason done e h = ground arith

charge-IsSound :
    (a : Attempt) (landed : Option Text) (operation : Option DebitStatus)
    → is_eligible a.status ≡ true
    → IsSound a
    → IsSound (charge a landed operation)
charge-IsSound a (some hash) operation may v = record {
  priced = v.priced;
  kinded = v.kinded;
  complete = refl;
  undecided = refl;
}
charge-IsSound a none operation may v = elim (Bool-cases (is_parked operation)) [
  | inl parked ↦ rw parked (record {
    priced = v.priced;
    kinded = v.kinded;
    complete = eligible_complete a.status a.reconciliation_reason (is_complete a) may v.complete;
    undecided = refl;
  })
  | inr open_still ↦ rw open_still v
]

execute-IsSound :
    (a : Attempt) (landed : Option Text) (operation : Option DebitStatus)
    → IsSound a
    → IsSound (execute_penalty a landed operation)
unfolding execute_penalty
execute-IsSound a landed operation v = elim (Bool-cases (is_eligible a.status)) [
  | inl may ↦ rw may (charge-IsSound a landed operation may v)
  | inr not_now ↦ rw not_now v
]

-- An attempt with an outcome does not become eligible.
decided_not_eligible :
    (outcome : Option Outcome) (charged complete : Bool) (amount : Option ℕ)
    (status : AttemptStatus)
    → (not (is_eligible (status_after (is_some outcome) charged complete amount status))
        || not (is_some outcome))
      ≡ true
decided_not_eligible none charged complete amount status = ground arith
decided_not_eligible (some o) true complete amount status = refl
decided_not_eligible (some o) false complete amount status = ground arith

both_kept :
    (at fresh : Option ℕ) (kind fresh_kind : Option AbandonmentKind)
    → is_some at ≡ is_some kind
    → is_some fresh ≡ is_some fresh_kind
    → is_some (or_else at fresh) ≡ is_some (or_else kind fresh_kind)
both_kept none fresh none fresh_kind h k = k
both_kept (some a) fresh (some b) fresh_kind h k = refl
both_kept none fresh (some b) fresh_kind h k = absurd cc
both_kept (some a) fresh none fresh_kind h k = absurd cc

is_some-when_some : (k : Option AbandonmentKind) (now : ℕ) → is_some (when_some k now) ≡ is_some k
is_some-when_some none now = refl
is_some-when_some (some k) now = refl

or_else_keeps {ℓ} :
    {A : Type ℓ} (old fresh : Option A) → (not (is_some old) || is_some (or_else old fresh)) ≡ true
or_else_keeps none fresh = refl
or_else_keeps (some a) fresh = refl

-- What makes an attempt chargeable is there, before or after the notification.
chargeable_complete :
    (out charged s0 s1 e0 e1 : Bool) (amount : Option ℕ) (status : AttemptStatus)
    (reason : Option ReconciliationReason)
    → (not s0 || s1) ≡ true
    → (not e0 || e1) ≡ true
    → (not (is_chargeable_state status reason) || (s0 && (e0 && is_positive amount))) ≡ true
    → (not (
          is_chargeable_state
            (status_after out charged (s1 && e1) amount status)
            (if out && charged then some ReconciliationReason.outcome_conflict else reason))
        || (s1 && (e1 && is_positive amount)))
      ≡ true
chargeable_complete true true s0 s1 e0 e1 amount status reason hs he h = refl
chargeable_complete true false s0 s1 e0 e1 amount status reason hs he h = ground arith
chargeable_complete false charged s0 s1 e0 e1 amount status reason hs he h = ground arith

evidence-IsSound :
    (a : Attempt) (operation : Option DebitOperation) (kind : NotificationKind) (has_tx : Bool)
    (now : ℕ)
    → IsSound a
    → IsSound (record_evidence a operation kind has_tx now)
unfolding record_evidence
evidence-IsSound a operation kind has_tx now v = record {
  priced = v.priced;
  kinded =
      both_kept a.abandoned_at (when_some (abandonment_of kind) now) a.abandonment_kind
        (abandonment_of kind) v.kinded (is_some-when_some (abandonment_of kind) now);
  complete =
      chargeable_complete (is_some (outcome_of kind has_tx a.outcome))
        (has_bytes operation || is_some a.penalty_tx_hash) (is_some a.started_at)
        (is_some (or_else a.started_at (starts kind now))) (is_some a.abandoned_at)
        (is_some (or_else a.abandoned_at (when_some (abandonment_of kind) now))) a.amount a.status
        a.reconciliation_reason (or_else_keeps a.started_at (starts kind now))
        (or_else_keeps a.abandoned_at (when_some (abandonment_of kind) now)) v.complete;
  undecided =
      decided_not_eligible (outcome_of kind has_tx a.outcome)
        (has_bytes operation || is_some a.penalty_tx_hash)
        (is_some (or_else a.started_at (starts kind now))
          && is_some (or_else a.abandoned_at (when_some (abandonment_of kind) now)))
        a.amount a.status;
}

step-IsSound : {a b : Attempt} → AttemptStep a b → IsSound a → IsSound b
step-IsSound (AttemptStep.evidence a operation kind has_tx now) v =
    evidence-IsSound a operation kind has_tx now v
step-IsSound (AttemptStep.conflict a) v = conflict-IsSound a v
step-IsSound (AttemptStep.execute a landed operation) v = execute-IsSound a landed operation v
step-IsSound (AttemptStep.resume a n) v = resume-IsSound a n v

reach-IsSound : {a b : Attempt} → IsSound a → AttemptReach a b → IsSound b
reach-IsSound v AttemptReach.here = v
reach-IsSound v (AttemptReach.next r st) = step-IsSound st (reach-IsSound v r)

-- Whatever an attempt goes through after its insertion, it stays sound: its amount is the tenth
-- of its cap, it has a kind of abandonment exactly when it has a time of it, and it is eligible
-- only with both times, a positive amount and no outcome.
pub attempt-IsSound :
    (id : ℕ) (cap : Option ℕ) (tx : Option Text) (legacy merged : Bool) (a : Attempt)
    → AttemptReach (new_attempt id cap tx legacy merged) a
    → IsSound a
attempt-IsSound id cap tx legacy merged a r =
    reach-IsSound (new_attempt-IsSound id cap tx legacy merged) r

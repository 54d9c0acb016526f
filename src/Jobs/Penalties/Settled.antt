-- ===== src/Jobs/Penalties/Settled.antt =====
-- An attempt that executeNonSettlementPenalty has charged is not charged again.
use byos_service_ts.Prelude.{
  ℕ, ◌≡◌, refl, true, false, Option, none, some, List, Text, filter, arith, Bool-cases, inl, inr,
  ◌==◌,
}
use byos_service_ts.Store.Table.{find, find-key, find-update_where}
use byos_service_ts.Debit.{DebitStatus, Operations, found}
use byos_service_ts.Debit.Worker.{Answer, LandedDebit}
use byos_service_ts.Attempts.{Attempt, is_eligible, execute_penalty}
use byos_service_ts.Jobs.Penalties.{
  AttemptRow, PenaltyBooks, attempt_key, charge_row, is_leased, settle_penalty, if_eligible,
  execute_non_settlement_penalty,
}

-- What a second execution finds.
IsSettled : ℕ → List AttemptRow → Type 0
IsSettled i rows =
    (r : AttemptRow) × (find attempt_key i rows ≡ some r) × (is_eligible r.attempt.status ≡ false)

execute_penalty-id :
    (a : Attempt) (landed : Option Text) (status : Option DebitStatus)
    → (execute_penalty a landed status).id ≡ a.id
unfolding execute_penalty
execute_penalty-id a none status = ground arith
execute_penalty-id a (some hash) status = ground arith

charge_row-IsSettled :
    (i : ℕ) (r : AttemptRow) (hash : Text) (status : Option DebitStatus) (rows : List AttemptRow)
    → find attempt_key i rows ≡ some r
    → is_eligible r.attempt.status ≡ true
    → IsSettled i (charge_row (attempt_key r) (some hash) status rows)
unfolding IsSettled execute_penalty
charge_row-IsSettled i r hash status rows e open_ =
    let own : (i == attempt_key r) ≡ true = ground (arith, find-key attempt_key i rows r e) in
    let mine : (attempt_key r == attempt_key r) ≡ true = ground arith in
    (
      record r { attempt = execute_penalty r.attempt (some hash) status },
      rw
          (
            find-update_where attempt_key (λ x. attempt_key r == attempt_key x)
                (λ x. record x { attempt = execute_penalty x.attempt (some hash) status })
                (λ x. execute_penalty-id x.attempt (some hash) status) i rows,
            e,
            mine,
          )
          refl,
      rw open_ refl,
    )

settle_penalty-IsSettled :
    (i : ℕ) (r : AttemptRow) (answer : Answer (Option LandedDebit)) (t : Operations)
    (b : PenaltyBooks) (l : LandedDebit)
    → find attempt_key i b.attempts ≡ some r
    → is_eligible r.attempt.status ≡ true
    → (settle_penalty r (answer, t) b).0 ≡ Answer.returned (some l)
    → IsSettled i (settle_penalty r (answer, t) b).1.attempts
settle_penalty-IsSettled i r (Answer.threw message) t b l e open_ h = absurd cc
settle_penalty-IsSettled i r (Answer.returned none) t b l e open_ h = absurd cc
settle_penalty-IsSettled i r (Answer.returned (some m)) t b l e open_ h =
    elim (Bool-cases (found (filter (is_leased m) t))) [
      | inl leased ↦ rw leased (charge_row-IsSettled i r m.hash none b.attempts e open_)
      | inr lost ↦ absurd (let no : Answer.threw _ ≡ Answer.returned (some l) = rw lost at h in cc)
    ]

if_eligible-IsSettled :
    (i : ℕ) (debit : Operations → Answer (Option LandedDebit) × Operations) (b : PenaltyBooks)
    (l : LandedDebit) (o : Option AttemptRow)
    → find attempt_key i b.attempts ≡ o
    → (if_eligible debit o b).0 ≡ Answer.returned (some l)
    → IsSettled i (if_eligible debit o b).1.attempts
if_eligible-IsSettled i debit b l none e h = absurd cc
if_eligible-IsSettled i debit b l (some r) e h = elim (Bool-cases (is_eligible r.attempt.status)) [
  | inl open_ ↦
      let landed : (settle_penalty r (debit b.operations) b).0 ≡ Answer.returned (some l) =
        rw open_ at h in
      rw open_ (
        settle_penalty-IsSettled i r (debit b.operations).0 (debit b.operations).1 b l e open_
          landed)
  | inr closed ↦
      absurd (let no : Answer.returned none ≡ Answer.returned (some l) = rw closed at h in cc)
]

landed-IsSettled :
    (i : ℕ) (debit : Operations → Answer (Option LandedDebit) × Operations) (b : PenaltyBooks)
    (l : LandedDebit)
    → (execute_non_settlement_penalty i debit b).0 ≡ Answer.returned (some l)
    → IsSettled i (execute_non_settlement_penalty i debit b).1.attempts
unfolding execute_non_settlement_penalty
landed-IsSettled i debit b l h = if_eligible-IsSettled i debit b l _ refl h

settled_lem :
    (i : ℕ) (debit : Operations → Answer (Option LandedDebit) × Operations) (b : PenaltyBooks)
    → IsSettled i b.attempts
    → execute_non_settlement_penalty i debit b ≡ (Answer.returned none, b)
unfolding IsSettled execute_non_settlement_penalty
settled_lem i debit b (r, e, closed) = rw (e, closed) refl

-- After an execution that has landed a debit for an attempt, executing its penalty again changes
-- nothing and lands nothing, whatever the debit would do by then.
pub execute_non_settlement_penalty_once :
    (i : ℕ) (debit again : Operations → Answer (Option LandedDebit) × Operations) (b : PenaltyBooks)
    (l : LandedDebit)
    → (execute_non_settlement_penalty i debit b).0 ≡ Answer.returned (some l)
    → execute_non_settlement_penalty i again (execute_non_settlement_penalty i debit b).1
      ≡ (Answer.returned none, (execute_non_settlement_penalty i debit b).1)
execute_non_settlement_penalty_once i debit again b l h =
    settled_lem i again (execute_non_settlement_penalty i debit b).1
      (landed-IsSettled i debit b l h)

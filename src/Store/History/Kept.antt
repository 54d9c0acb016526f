-- ===== src/Store/History/Kept.antt =====
-- What no write of apps/byos/src/infra/storage.ts does to a log row.
use byos_service_ts.Prelude.{
  ℕ, ◌≡◌, refl, subst, true, false, Option, none, some, Text, arith, is_some, ◌==◌, if◌then◌else◌,
  Bool-cases, Option-cases, inl, inr,
}
use byos_service_ts.Domain.Status.{Status, RejectionReason}
use byos_service_ts.Domain.Proposal.{Proposal, SettlementOutcome}
use byos_service_ts.Store.Rows.{
  ProposalRow, Tables, find_row, has_status, update_proposals, delete_proposal,
}
use byos_service_ts.Store.Validity.{IsValid}
use byos_service_ts.Store.Outcome.{
  apply_settlement_outcome, resolve, resolve_own, resolve_row, resolve_tables, is_sibling,
  cancel_row, target_of,
}
use byos_service_ts.Store.Outcome.Writes.{
  LateOutcome, apply_lost_outcome, apply_late_lost_correction, record_penalty, is_lost, correct_row,
  lose_row, awaits_penalty, penalize_row,
}
use byos_service_ts.Store.Creation.{
  log_row, write_to_log, submitted_row, insert_live, insert_as_submitted, is_redactable, redact_row,
  redact_old_log_entries,
}
use byos_service_ts.Store.Creation.Valid.{find-insert_or_keep, find-sync_insert, insert_result}
use byos_service_ts.Store.Operations.{settle-IsValid}
use byos_service_ts.Store.Creation.Valid.{kept, synced}
use byos_service_ts.Store.History.{
  Step, Reach, outcome, lose, correct, penalize, log, select, redact, here, next, HashKept, Kept,
  unpenalized, Reach-IsValid,
}
use byos_service_ts.Store.History.Changes.{
  HashKept-refl, Kept-refl, LogKept, update_proposals-LogKept, update_log-LogKept, LogKept-refl,
  LogKept-trans,
}

delete-LogKept : (s : Tables) (k : ℕ) (t : Tables) → LogKept s t → LogKept s (delete_proposal k t)
unfolding LogKept delete_proposal
delete-LogKept s k t h i = h i

own-LogKept :
    (p : Proposal) (o : SettlementOutcome) (to : Status) (tx : Option Text) (now : ℕ) (db : Tables)
    → IsValid db
    → LogKept db (resolve_own p o to tx now db)
own-LogKept p o to tx now db v =
    update_proposals-LogKept (λ r. r.id == p.id) (resolve_row p o to tx now) db (λ r. refl)
      (λ r. refl) v

submitted-LogKept :
    (p : Proposal) (o : SettlementOutcome) (locked : ProposalRow) (now : ℕ) (db : Tables)
    → IsValid db
    → LogKept db (resolve p o locked now db (target_of o)).1
unfolding resolve_tables
submitted-LogKept p SettlementOutcome.started locked now db v = LogKept-refl db
submitted-LogKept p (SettlementOutcome.succeeded h) locked now db v =
    let settled = resolve_own p (SettlementOutcome.succeeded h) Status.settled (some h) now db in
    LogKept-trans db settled (update_proposals (is_sibling locked p.id) (cancel_row now) settled)
      (own-LogKept p (SettlementOutcome.succeeded h) Status.settled (some h) now db v)
      (update_proposals-LogKept (is_sibling locked p.id) (cancel_row now) settled (λ r. refl)
        (λ r. refl) (settle-IsValid p h now db v))
submitted-LogKept p (SettlementOutcome.reverted h) locked now db v =
    delete-LogKept db p.id
      (resolve_own p (SettlementOutcome.reverted h) Status.settle_failed (some h) now db)
      (own-LogKept p (SettlementOutcome.reverted h) Status.settle_failed (some h) now db v)
submitted-LogKept p SettlementOutcome.abandoned locked now db v =
    delete-LogKept db p.id (resolve_own p SettlementOutcome.abandoned Status.lost none now db)
      (own-LogKept p SettlementOutcome.abandoned Status.lost none now db v)

outcome-LogKept :
    (p : Proposal) (o : SettlementOutcome) (now : ℕ) (db : Tables)
    → IsValid db
    → LogKept db (apply_settlement_outcome p o now db).1
unfolding apply_settlement_outcome
outcome-LogKept p o now db v = elim (Option-cases (find_row p.id db.proposals)) [
  | inl gone ↦ rw gone (LogKept-refl db)
  | inr (locked, e) ↦ rw e (elim (Bool-cases (has_status Status.submitted locked)) [
    | inl open_row ↦ rw open_row (submitted-LogKept p o locked now db v)
    | inr closed_row ↦ rw closed_row (LogKept-refl db)
  ])
]

lose-LogKept :
    (i : ℕ) (reason : RejectionReason) (now : ℕ) (db : Tables)
    → IsValid db
    → LogKept db (apply_lost_outcome i reason now db).1
unfolding apply_lost_outcome
lose-LogKept i reason now db v = elim (Option-cases (find_row i db.proposals)) [
  | inl gone ↦ rw gone (LogKept-refl db)
  | inr (locked, e) ↦ rw e (elim (Bool-cases (has_status Status.submitted locked)) [
    | inl open_row ↦ rw open_row (
        delete-LogKept db i (update_proposals (λ r. r.id == i) (lose_row reason now) db) (
          update_proposals-LogKept (λ r. r.id == i) (lose_row reason now) db (λ r. refl) (λ r. refl)
            v))
    | inr closed_row ↦ rw closed_row (LogKept-refl db)
  ])
]

correct-LogKept :
    (i : ℕ) (o : LateOutcome) (now : ℕ) (db : Tables)
    → LogKept db (apply_late_lost_correction i o now db).1
unfolding apply_late_lost_correction
correct-LogKept i o now db =
    update_log-LogKept (is_lost i) (correct_row o now) db (λ r. refl)
      (λ l h. (refl, HashKept-refl l.penalty_tx_hash))

unset_kept : (h after : Option Text) → is_some h ≡ false → HashKept h after
unset_kept none after e = tt
unset_kept (some h) after e = cc

penalize-LogKept :
    (p : Proposal) (amount : ℕ) (tx : Text) (now : ℕ) (db : Tables)
    → LogKept db (record_penalty p amount tx now db).1
unfolding record_penalty
penalize-LogKept p amount tx now db =
    update_log-LogKept (awaits_penalty p.id) (penalize_row tx) db (λ r. refl)
      (λ l h.
        (refl, unset_kept l.penalty_tx_hash (penalize_row tx l).penalty_tx_hash (ground arith)))

redact-LogKept : (older now : ℕ) (db : Tables) → LogKept db (redact_old_log_entries older now db).1
unfolding redact_old_log_entries
redact-LogKept older now db =
    update_log-LogKept (is_redactable older now) redact_row db (λ r. refl)
      (λ l h. (refl, HashKept-refl l.penalty_tx_hash))

log_kept_at :
    (i : ℕ) (r : ProposalRow) (lg : Option ProposalRow)
    → Kept lg (if i == r.id then kept r lg else lg)
log_kept_at i r none = tt
log_kept_at i r (some l) = elim (Bool-cases (i == r.id)) [
  | inl e ↦ rw e (Kept-refl (some l))
  | inr e ↦ rw e (Kept-refl (some l))
]

log-LogKept :
    (i : ℕ) (p : Proposal) (status : Status) (reason : Option RejectionReason)
    (params : Option Text) (now : ℕ) (db : Tables)
    → LogKept db (write_to_log i p status reason params now db)
unfolding LogKept write_to_log
log-LogKept i p status reason params now db k =
    rw (find-insert_or_keep k (log_row i p status reason params now) db.proposals_log)
      (log_kept_at k (log_row i p status reason params now) (find_row k db.proposals_log))

select-Kept_at :
    (i : ℕ) (r : ProposalRow) (lg : Option ProposalRow)
    → (i ≡ r.id → unpenalized lg ≡ true)
    → Kept lg (if i == r.id then synced r lg else lg)
select-Kept_at i r none u = tt
select-Kept_at i r (some l) u = elim (Bool-cases (i == r.id)) [
  | inl e ↦
      rw e (refl, unset_kept l.penalty_tx_hash r.penalty_tx_hash (ground (arith, u (ground arith))))
  | inr e ↦ rw e (Kept-refl (some l))
]

select-LogKept :
    (r : ProposalRow) (db : Tables)
    → unpenalized (find_row r.id db.proposals_log) ≡ true
    → LogKept db (insert_live r db)
unfolding LogKept
select-LogKept r db u k =
    rw (find-sync_insert k r db.proposals_log)
      (select-Kept_at k r (find_row k db.proposals_log) (λ e. rw e u))

Step-LogKept : {s t : Tables} → Step s t → IsValid s → LogKept s t
unfolding insert_as_submitted
Step-LogKept (outcome p o now db) v = outcome-LogKept p o now db v
Step-LogKept (lose i reason now db) v = lose-LogKept i reason now db v
Step-LogKept (correct i o now db) v = correct-LogKept i o now db
Step-LogKept (penalize p amount tx now db) v = penalize-LogKept p amount tx now db
Step-LogKept (log i p status reason params now db c) v = log-LogKept i p status reason params now db
Step-LogKept (select c price prices cap now db after u e) v =
    let row = submitted_row c price prices cap now in
    subst (LogKept db) (insert_result (find_row c.id db.proposals) (insert_live row db) after e).1
      (select-LogKept row db u)
Step-LogKept (redact older now db) v = redact-LogKept older now db

Reach-LogKept : {s t : Tables} → IsValid s → Reach s t → LogKept s t
Reach-LogKept {s} v here = LogKept-refl s
Reach-LogKept {s} v (next {s = u} {t = t} r st) =
    LogKept-trans s u t (Reach-LogKept v r) (Step-LogKept st (Reach-IsValid v r))

-- The log is permanent: from valid tables, over any sequence of the steps of Step (writeToLog with
-- no settled or failed status, insertions of candidates whose id has no penalty in the log), a log
-- row never disappears; its sub-solver, order UID and hash of it, amounts, interactions hash, expiry,
-- nonce and signature never change (its tokens and interactions may); and a penalty hash that it
-- once carries stays.
pub Reach-Kept :
    {s t : Tables} (i : ℕ)
    → IsValid s
    → Reach s t
    → Kept (find_row i s.proposals_log) (find_row i t.proposals_log)
unfolding LogKept
Reach-Kept i v r = Reach-LogKept v r i

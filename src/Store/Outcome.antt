-- ===== src/Store/Outcome.antt =====
-- apps/byos/src/infra/storage.ts, the writes on proposals and proposals_log that change a status
-- or record a penalty. `now` is the database's and the process's clock.
pub mod Writes
use byos_service_ts.Prelude.{
  ℕ, Bool, true, false, not, ◌&&◌, Option, none, some, List, [], ◌∷◌, Text, text_eq, to_lower, map,
  filter, ◌==◌, if◌then◌else◌, is_some,
}
use byos_service_ts.Domain.Status.{Status, RejectionReason}
use byos_service_ts.Domain.Proposal.{Proposal, SettlementOutcome}
use byos_service_ts.Domain.Audit.{AuditKind, AuditEvent, Subject}
use byos_service_ts.Store.Table.{find, on_row, update_where}
use byos_service_ts.Store.Rows.{
  ProposalRow, Tables, find_row, has_status, update_proposals, update_log, delete_proposal,
}

pub data StoreError : Type 0 where
  not_found : (id : ℕ) → StoreError
  not_owner : (id : ℕ) (owner : Text) → StoreError
  stale_transition : (id : ℕ) (expected : Status) (actual : Option Status) → StoreError
  database : StoreError
  corrupt_row : (table column detail : Text) → StoreError

pub should_retry : StoreError → Bool
should_retry StoreError.database = true
should_retry _ = false

abbrev pub subject_of : Proposal → Subject
subject_of p = record { proposal_id = p.id; sub_solver = p.sub_solver; order_uid = p.order_uid }

abbrev pub changed :
    ℕ → Subject → Status → Status → Option RejectionReason → Option Text → AuditEvent
changed now s from to reason tx = record {
  occurred_at = now;
  kind =
      AuditKind.status_changed s
        (record { from = from; to = to; rejection_reason = reason; settlement_tx_hash = tx });
}

-- `transition`: a compare-and-swap on the status that the caller read.
unfoldable pub transition :
    Proposal → Status → ℕ → Tables → (Option StoreError × Option AuditEvent) × Tables
transition p to now db =
    let at = λ (r : ProposalRow). r.id == p.id && has_status p.status r in
    elim (filter at db.proposals) [
      | [] ↦ ((some (StoreError.stale_transition p.id p.status none), none), db)
      | r ∷ rest ↦ (
        (none, some (changed now (subject_of p) p.status to none none)),
        update_proposals at
            (λ row. record row {
              proposal = record (row.proposal) { status = to; status_changed_at = now };
            })
            db,
      )
    ]

-- The status that an outcome leads to, and the transaction that it cites; only a submitted
-- proposal moves.
abbrev pub target_of : SettlementOutcome → Option (Status × Option Text)
target_of SettlementOutcome.started = none
target_of (SettlementOutcome.succeeded h) = some (Status.settled, some h)
target_of (SettlementOutcome.reverted h) = some (Status.settle_failed, some h)
target_of SettlementOutcome.abandoned = some (Status.lost, none)

-- The columns that are set only for some outcomes.
abbrev pub cap_after : SettlementOutcome → Option ℕ → Option ℕ → Option ℕ
cap_after (SettlementOutcome.reverted h) given old = given
cap_after _ given old = old

abbrev pub reason_after : SettlementOutcome → Option RejectionReason → Option RejectionReason
reason_after SettlementOutcome.abandoned old = some RejectionReason.unknown_output
reason_after _ old = old

abbrev pub hash_after : Option Text → Option Text → Option Text
hash_after none old = old
hash_after (some h) old = some (to_lower h)

abbrev pub resolve_row :
    Proposal → SettlementOutcome → Status → Option Text → ℕ → ProposalRow → ProposalRow
resolve_row p outcome to tx now r = record r {
  proposal = record (r.proposal) {
    status = to;
    settlement_tx_hash = hash_after tx r.settlement_tx_hash;
    settlement_penalty_cap = cap_after outcome p.settlement_penalty_cap r.settlement_penalty_cap;
    rejection_reason = reason_after outcome r.rejection_reason;
    status_changed_at = now;
  };
}

-- The other submitted proposals of the same sub-solver for the same order.
abbrev pub is_sibling : ProposalRow → ℕ → ProposalRow → Bool
is_sibling locked i r =
    text_eq r.sub_solver locked.sub_solver
    && (text_eq r.order_uid locked.order_uid && (not (r.id == i) && has_status Status.submitted r))

abbrev pub cancel_row : ℕ → ProposalRow → ProposalRow
cancel_row now r = record r {
  proposal = record (r.proposal) { status = Status.cancelled; status_changed_at = now };
}

abbrev pub cancels_siblings : SettlementOutcome → Bool
cancels_siblings (SettlementOutcome.succeeded h) = true
cancels_siblings _ = false

abbrev pub siblings : SettlementOutcome → ProposalRow → ℕ → Tables → List ProposalRow
siblings outcome locked i db =
    if cancels_siblings outcome then filter (is_sibling locked i) db.proposals else []

-- Rows that are done with leave the live table; a settled row stays for the buffer accounting.
abbrev pub leaves_live : Status → Bool
leaves_live Status.lost = true
leaves_live Status.settle_failed = true
leaves_live _ = false

pub data OutcomeResult : Type 0 where
  missing : (id : ℕ) → OutcomeResult
  ignored : OutcomeResult
  applied : AuditEvent → List AuditEvent → OutcomeResult

-- The statement on the row itself.
abbrev pub resolve_own : Proposal → SettlementOutcome → Status → Option Text → ℕ → Tables → Tables
resolve_own p outcome to tx now db =
    update_proposals (λ r. r.id == p.id) (resolve_row p outcome to tx now) db

-- The three statements after the status is known: the row itself, its siblings, the deletion.
unfoldable pub resolve_tables :
    Proposal → SettlementOutcome → ProposalRow → Status → Option Text → ℕ → Tables → Tables
resolve_tables p outcome locked to tx now db =
    let resolved = resolve_own p outcome to tx now db in
    let swept =
      if cancels_siblings outcome
      then update_proposals (is_sibling locked p.id) (cancel_row now) resolved
      else resolved in
    if leaves_live to then delete_proposal p.id swept else swept

abbrev pub cancelled_event : ℕ → ProposalRow → ProposalRow → AuditEvent
cancelled_event now locked s =
    changed now
      (record { proposal_id = s.id; sub_solver = locked.sub_solver; order_uid = locked.order_uid })
      s.status Status.cancelled none none

abbrev pub resolve :
    Proposal
    → SettlementOutcome
    → ProposalRow
    → ℕ
    → Tables
    → Option (Status × Option Text)
    → OutcomeResult × Tables
resolve p outcome locked now db none = (OutcomeResult.ignored, db)
resolve p outcome locked now db (some (to, tx)) = (
  OutcomeResult.applied (changed now (subject_of p) locked.status to none tx) (
      map (cancelled_event now locked)
        (siblings outcome locked p.id (resolve_own p outcome to tx now db))),
  resolve_tables p outcome locked to tx now db,
)

abbrev resolve_locked :
    Proposal → SettlementOutcome → ℕ → Tables → Option ProposalRow → OutcomeResult × Tables
resolve_locked p outcome now db none = (OutcomeResult.missing p.id, db)
resolve_locked p outcome now db (some locked) =
    resolve p outcome locked now db
      (if has_status Status.submitted locked then target_of outcome else none)

unfoldable pub apply_settlement_outcome :
    Proposal → SettlementOutcome → ℕ → Tables → OutcomeResult × Tables
apply_settlement_outcome p outcome now db =
    resolve_locked p outcome now db (find_row p.id db.proposals)

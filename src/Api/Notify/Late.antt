-- ===== src/Api/Notify/Late.antt =====
-- A settlement's outcome that arrives late, and all writes of one notification
-- (apps/byos/src/infra/api/notify.ts).
use byos_service_ts.Prelude.{
  ℕ, ◌≡◌, refl, Bool, true, false, Option, none, some, List, [], ◌∷◌, map, Text, to_lower, arith,
}
use byos_service_ts.Domain.Status.{Status}
use byos_service_ts.Domain.Audit.{AuditEvent}
use byos_service_ts.Domain.Proposal.{Proposal, SettlementOutcome}
use byos_service_ts.Store.Table.{find-key}
use byos_service_ts.Store.Rows.{ProposalRow, row_id, Tables, find_row, has_status}
use byos_service_ts.Store.Rows.Trigger.{find_log-update_log}
use byos_service_ts.Store.Outcome.{OutcomeResult, apply_settlement_outcome}
use byos_service_ts.Store.Outcome.Writes.{
  LateOutcome, WriteResult, apply_late_lost_correction, is_lost, correct_row,
}
use byos_service_ts.Store.History.{Reach, here, next, outcome, correct, Reach-trans}
use byos_service_ts.Api.Ingestion.{Service, emit}
use byos_service_ts.Api.Notify.{
  Notification, proposals_of, distinct_onto, driver_notified, handle_outcome, handle_all, notify,
  emit_all, correct_late, after_outcome, apply_now, apply_or_correct, with_outcome, with_result,
  late_outcome_of, settlement_outcome_of,
}

abbrev pub as_outcome : LateOutcome → SettlementOutcome
as_outcome (LateOutcome.succeeded h) = SettlementOutcome.succeeded h
as_outcome (LateOutcome.reverted h) = SettlementOutcome.reverted h

corrected :
    (i now : ℕ) (o : LateOutcome) (db : Tables) (l : ProposalRow)
    → find_row i db.proposals_log ≡ some l
    → has_status Status.lost l ≡ true
    → find_row i (apply_late_lost_correction i o now db).1.proposals_log
      ≡ some (correct_row o now l)
unfolding apply_late_lost_correction
corrected i now o db l e lost =
    let same : i ≡ l.id = find-key row_id i db.proposals_log l e in
    let hit : is_lost i l ≡ true = ground arith in
    rw (find_log-update_log db (is_lost i) (correct_row o now) (λ r. refl) i, e, hit) refl

with_result-tables : (w : WriteResult) (s : Service) → (with_result w s).tables ≡ s.tables
with_result-tables (WriteResult.done event) s = refl
with_result-tables (WriteResult.failed e) s = refl

emit_all-tables : (es : List AuditEvent) (s : Service) → (emit_all es s).tables ≡ s.tables
emit_all-tables [] s = refl
emit_all-tables (e ∷ es) s = emit_all-tables es (emit e s)

correct_late-tables :
    (i now : ℕ) (o : LateOutcome) (s : Service)
    → (correct_late i now o s).tables ≡ (apply_late_lost_correction i o now s.tables).1
correct_late-tables i now o s =
    with_result-tables _ (record s { tables = (apply_late_lost_correction i o now s.tables).1 })

after_outcome-tables :
    (now : ℕ) (name : Text) (p : Proposal) (o : SettlementOutcome) (result : OutcomeResult)
    (s : Service)
    → Reach s.tables (after_outcome now name p o result s).tables
after_outcome-tables now name p (SettlementOutcome.succeeded h) (OutcomeResult.missing i) s =
    rw (correct_late-tables p.id now (LateOutcome.succeeded h) s)
      (next here (correct p.id (LateOutcome.succeeded h) now s.tables))
after_outcome-tables now name p (SettlementOutcome.reverted h) (OutcomeResult.missing i) s =
    rw (correct_late-tables p.id now (LateOutcome.reverted h) s)
      (next here (correct p.id (LateOutcome.reverted h) now s.tables))
after_outcome-tables now name p SettlementOutcome.started (OutcomeResult.missing i) s = here
after_outcome-tables now name p SettlementOutcome.abandoned (OutcomeResult.missing i) s = here
after_outcome-tables now name p o OutcomeResult.ignored s = here
after_outcome-tables now name p o (OutcomeResult.applied event cancelled) s =
    rw (emit_all-tables cancelled (emit event s)) here

apply_now-Reach :
    (now : ℕ) (name : Text) (p : Proposal) (o : SettlementOutcome) (s : Service)
    → Reach s.tables (apply_now now name p o s).tables
apply_now-Reach now name p o s =
    let (result, tables) = apply_settlement_outcome p o now s.tables in
    Reach-trans (next here (outcome p o now s.tables))
      (after_outcome-tables now name p o result (record s { tables = tables }))

apply_or_correct-Reach :
    (now : ℕ) (name : Text) (p : Proposal) (o : SettlementOutcome) (b : Bool)
    (late : Option LateOutcome) (s : Service)
    → Reach s.tables (apply_or_correct now name p o b late s).tables
apply_or_correct-Reach now name p o true (some late) s =
    rw (correct_late-tables p.id now late s) (next here (correct p.id late now s.tables))
apply_or_correct-Reach now name p o true none s = apply_now-Reach now name p o s
apply_or_correct-Reach now name p o false late s = apply_now-Reach now name p o s

handle_all-Reach :
    (now : ℕ) (name : Text) (o : SettlementOutcome) (ps : List Proposal) (s : Service)
    → Reach s.tables (handle_all now name o ps s).tables
unfolding handle_all handle_outcome
handle_all-Reach now name o [] s = here
handle_all-Reach now name o (p ∷ ps) s =
    Reach-trans (apply_or_correct-Reach now name p o _ (late_outcome_of o) s)
      (handle_all-Reach now name o ps (handle_outcome now name o p s))

with_outcome-Reach :
    (now : ℕ) (name : Text) (ps : List Proposal) (o : Option SettlementOutcome) (s : Service)
    → Reach s.tables (with_outcome now name ps o s).tables
with_outcome-Reach now name ps none s =
    rw (emit_all-tables (map (driver_notified now name) ps) s) here
with_outcome-Reach now name ps (some o) s = handle_all-Reach now name o ps s

-- A notification, whatever it says and whichever proposals it names, changes the tables by guarded
-- writes only, so it keeps what every sequence of writes keeps.
pub notify-Reach :
    (recorded : Bool) (now : ℕ) (n : Notification) (s : Service)
    → Reach s.tables (notify recorded now n s).tables
unfolding notify
notify-Reach true now n s =
    with_outcome-Reach now n.name (proposals_of s.tables (distinct_onto n.solution_ids []))
      (settlement_outcome_of n.kind n.transaction) s
notify-Reach false now n s = here

late_lem :
    (now : ℕ) (name : Text) (p : Proposal) (b : Bool) (o : LateOutcome) (s : Service)
    → find_row p.id s.tables.proposals ≡ none
    → (apply_or_correct now name p (as_outcome o) b (late_outcome_of (as_outcome o)) s).tables
      ≡ (apply_late_lost_correction p.id o now s.tables).1
unfolding apply_settlement_outcome
late_lem now name p true (LateOutcome.succeeded h) s gone =
    correct_late-tables p.id now (LateOutcome.succeeded h) s
late_lem now name p true (LateOutcome.reverted h) s gone =
    correct_late-tables p.id now (LateOutcome.reverted h) s
late_lem now name p false (LateOutcome.succeeded h) s gone =
    rw gone (correct_late-tables p.id now (LateOutcome.succeeded h) s)
late_lem now name p false (LateOutcome.reverted h) s gone =
    rw gone (correct_late-tables p.id now (LateOutcome.reverted h) s)

-- What the log says of an outcome: its status, and its transaction in lower case.
abbrev pub Tells : LateOutcome → ProposalRow → Type 0
Tells (LateOutcome.succeeded h) r =
    (r.status ≡ Status.settled) × (r.settlement_tx_hash ≡ some (to_lower h))
Tells (LateOutcome.reverted h) r =
    (r.status ≡ Status.settle_failed) × (r.settlement_tx_hash ≡ some (to_lower h))

correct_row-Tells : (o : LateOutcome) (now : ℕ) (l : ProposalRow) → Tells o (correct_row o now l)
correct_row-Tells (LateOutcome.succeeded h) now l = (refl, refl)
correct_row-Tells (LateOutcome.reverted h) now l = (refl, refl)

-- A success or revert of a proposal that has meanwhile been declared lost is not lost to that race:
-- whatever status the request had read, where the live row is gone and the log row is lost, the log
-- row afterwards is settled for a success and failed for a revert, names the outcome's transaction
-- in lower case, and has the cap and the penalty that it had.
pub handle_outcome-late :
    (now : ℕ) (name : Text) (o : LateOutcome) (p : Proposal) (s : Service) (l : ProposalRow)
    → find_row p.id s.tables.proposals ≡ none
    → find_row p.id s.tables.proposals_log ≡ some l
    → has_status Status.lost l ≡ true
    → (r : ProposalRow) × (find_row p.id
          (handle_outcome now name (as_outcome o) p s).tables.proposals_log
        ≡ some r)
      × Tells o r
      × (r.settlement_penalty_cap ≡ l.settlement_penalty_cap)
      × (r.penalty_tx_hash ≡ l.penalty_tx_hash)
unfolding handle_outcome
handle_outcome-late now name o p s l gone e lost = (
  correct_row o now l,
  rw (late_lem now name p _ o s gone) (corrected p.id now o s.tables l e lost),
  correct_row-Tells o now l,
  refl,
  refl,
)

-- ===== src/Jobs/Outcomes/Swept.antt =====
-- After a tick of apps/byos/src/infra/jobs/outcome-worker.ts no stale proposal is still submitted.
use byos_service_ts.Prelude.{ℕ, ◌≡◌, refl, Bool, true, none, some, Text, to_lower}
use byos_service_ts.Domain.Status.{Status, RejectionReason}
use byos_service_ts.Domain.Proposal.{Proposal}
use byos_service_ts.Store.Rows.{ProposalRow, Tables, find_row, has_status}
use byos_service_ts.Store.Outcome.Writes.{LostResult, apply_lost_outcome}
use byos_service_ts.Api.Ingestion.{Service}
use byos_service_ts.Jobs.Outcomes.{lost_reason, after_lost, lose_one}

-- The live row is gone, and the log row is lost for the reason that the chain gives.
abbrev pub IsSwept : ℕ → RejectionReason → Tables → Type 0
IsSwept i reason db =
    (find_row i db.proposals ≡ none)
    × ((l : ProposalRow) × (find_row i db.proposals_log ≡ some l)
        × (l.status ≡ Status.lost)
        × (l.rejection_reason ≡ some reason))

-- A row that waits for its outcome.
abbrev pub Waits : ProposalRow → Tables → Type 0
Waits r db = (find_row r.id db.proposals ≡ some r) × (has_status Status.submitted r ≡ true)

after_lost-tables : (w : LostResult) (s : Service) → (after_lost w s).tables ≡ s.tables
after_lost-tables (LostResult.ok event) s = refl
after_lost-tables (LostResult.not_found i) s = refl
after_lost-tables (LostResult.stale_transition i) s = refl

pub lose_one-tables :
    (traded : Text → Bool) (now : ℕ) (p : Proposal) (s : Service)
    → (lose_one traded now p s).tables
      ≡ (apply_lost_outcome p.id (lost_reason (traded (to_lower p.order_uid))) now s.tables).1
unfolding lose_one
lose_one-tables traded now p s = after_lost-tables _ _

abbrev pub proposal_id : Proposal → ℕ
proposal_id p = p.id

-- ===== src/Service.antt =====
-- The routes of apps/byos/src/infra/api and the outcome worker of apps/byos/src/infra/jobs, in any
-- order: each is a sequence of the guarded writes of apps/byos/src/infra/storage.ts. A request
-- to create a proposal is one step from its verdict on, so that others may come while it is
-- validated. /solve, which needs the ids of the candidates to be unused, is not among them.
use byos_service_ts.Prelude.{ℕ, refl, Bool, Option, none, some, List, [], ◌∷◌, Text, to_lower}
use byos_service_ts.Domain.Status.{Status}
use byos_service_ts.Domain.Proposal.{Proposal}
use byos_service_ts.Candidates.{Candidate, get_for_owner}
use byos_service_ts.Store.History.{Reach, here, next, log, lose, Reach-trans}
use byos_service_ts.Store.Reads.{fetch_stale_submitted}
use byos_service_ts.Validation.{Verdict}
use byos_service_ts.Api.Ingestion.{Service, allocate_id, conclude}
use byos_service_ts.Api.Ingestion.Logged.{conclude-Reach}
use byos_service_ts.Api.Owner.{cancel_found, cancel_proposal, shown_candidate}
use byos_service_ts.Api.Notify.{Notification, notify}
use byos_service_ts.Api.Notify.Late.{notify-Reach}
use byos_service_ts.Jobs.Outcomes.{
  ChainReads, window_ms, lost_reason, lose_one, lose_all, with_trades, with_block,
  run_outcome_check,
}
use byos_service_ts.Jobs.Outcomes.Swept.{lose_one-tables}

pub data Event : Service → Service → Type 0 where
  allocated : (s : Service) → Event s (allocate_id s)
  concluded :
      (p : Proposal) (auction now : ℕ) (v : Option Verdict) (s : Service)
      → Event s (conclude p auction now v s).1
  cancelled :
      (i : ℕ) (canceller : Text) (now : ℕ) (s : Service)
      → Event s (cancel_proposal i canceller now s).1
  notified :
      (recorded : Bool) (now : ℕ) (n : Notification) (s : Service)
      → Event s (notify recorded now n s)
  swept :
      (chain : ChainReads) (block_duration_ms now : ℕ) (s : Service)
      → Event s (run_outcome_check chain block_duration_ms now s)

pub data Run (first : Service) : Service → Type 0 where
  idle : Run first first
  followed : {s t : Service} → Run first s → Event s t → Run first t

cancel-Reach :
    (i : ℕ) (canceller : Text) (now : ℕ) (s : Service) (o : Option Candidate)
    → Reach s.tables (cancel_found i canceller now s o).1.tables
cancel-Reach i canceller now s none = here
cancel-Reach i canceller now s (some c) = next here (
    log i (record (shown_candidate c) { status = Status.cancelled }) Status.cancelled none none now
      s.tables refl)

lose_all-Reach :
    (traded : Text → Bool) (now : ℕ) (ps : List Proposal) (s : Service)
    → Reach s.tables (lose_all traded now ps s).tables
unfolding lose_all
lose_all-Reach traded now [] s = here
lose_all-Reach traded now (p ∷ ps) s =
    let reason = lost_reason (traded (to_lower p.order_uid)) in
    let first : Reach s.tables (lose_one traded now p s).tables =
      rw (lose_one-tables traded now p s) (next here (lose p.id reason now s.tables)) in
    Reach-trans first (lose_all-Reach traded now ps (lose_one traded now p s))

with_trades-Reach :
    (o : Option (Text → Bool)) (now : ℕ) (ps : List Proposal) (s : Service)
    → Reach s.tables (with_trades o now ps s).tables
with_trades-Reach none now ps s = here
with_trades-Reach (some traded) now ps s = lose_all-Reach traded now ps s

with_block-Reach :
    (chain : ChainReads) (d now : ℕ) (ps : List Proposal) (o : Option ℕ) (s : Service)
    → Reach s.tables (with_block chain d now ps o s).tables
with_block-Reach chain d now ps none s = here
with_block-Reach chain d now ps (some current) s = with_trades-Reach _ now ps s

Event-Reach : {s t : Service} → Event s t → Reach s.tables t.tables
unfolding cancel_proposal run_outcome_check
Event-Reach (Event.allocated s) = here
Event-Reach (Event.concluded p auction now v s) = conclude-Reach p auction now v s
Event-Reach (Event.cancelled i canceller now s) =
    cancel-Reach i canceller now s (get_for_owner i canceller s.store)
Event-Reach (Event.notified recorded now n s) = notify-Reach recorded now n s
Event-Reach (Event.swept chain d now s) =
    with_block-Reach chain d now (fetch_stale_submitted window_ms now s.tables) chain.block_number s

-- However requests, cancellations, notifications and ticks of the outcome worker follow one another,
-- the tables change by a sequence of the guarded writes of the store only, so that everything that
-- holds of those sequences holds of the service's runs.
pub Run-Reach : {s t : Service} → Run s t → Reach s.tables t.tables
Run-Reach Run.idle = here
Run-Reach (Run.followed r e) = Reach-trans (Run-Reach r) (Event-Reach e)

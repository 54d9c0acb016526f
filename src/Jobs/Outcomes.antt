-- ===== src/Jobs/Outcomes.antt =====
-- apps/byos/src/infra/jobs/outcome-worker.ts: submitted proposals whose outcome never came.
pub mod Swept
use byos_service_ts.Prelude.{
  ℕ, ◌+◌, ◌-◌, ◌*◌, ◌/◌, Bool, true, false, Option, none, some, List, [], ◌∷◌, Text, to_lower, ltb,
  if◌then◌else◌,
}
use byos_service_ts.Domain.Status.{RejectionReason}
use byos_service_ts.Domain.Proposal.{Proposal}
use byos_service_ts.Store.Rows.{Tables}
use byos_service_ts.Store.Reads.{fetch_stale_submitted}
use byos_service_ts.Store.Outcome.Writes.{LostResult, apply_lost_outcome}
use byos_service_ts.Api.Ingestion.{Service, emit}

-- Two minutes.
abbrev pub window_ms : ℕ
window_ms = 120_000

-- `Math.ceil(windowMs / blockDurationMs)`, with a duration above 0.
abbrev pub window_blocks : ℕ → ℕ
window_blocks block_duration_ms = (window_ms + (block_duration_ms - 1)) / block_duration_ms

abbrev pub from_block : (current_block block_duration_ms : ℕ) → ℕ
from_block current_block block_duration_ms =
    if ltb (window_blocks block_duration_ms) current_block
    then current_block - window_blocks block_duration_ms
    else 0

-- What the chain answers: the current block, and for a range of blocks whether an order was traded
-- in it; `none` is a call that fails.
pub record ChainReads : Type 0 where
  pub block_number : Option ℕ
  pub trades : (from_block to_block : ℕ) → Option (Text → Bool)

abbrev pub lost_reason : Bool → RejectionReason
lost_reason true = RejectionReason.solver_outbid
lost_reason false = RejectionReason.unknown_output

abbrev pub after_lost : LostResult → Service → Service
after_lost (LostResult.ok event) s = emit event s
after_lost (LostResult.not_found i) s = s
after_lost (LostResult.stale_transition i) s = s

-- The loop's body.
unfoldable pub lose_one : (traded : Text → Bool) → ℕ → Proposal → Service → Service
lose_one traded now p s =
    let (result, tables) =
      apply_lost_outcome p.id (lost_reason (traded (to_lower p.order_uid))) now s.tables in
    after_lost result (record s { tables = tables })

unfoldable pub lose_all : (traded : Text → Bool) → ℕ → List Proposal → Service → Service
lose_all traded now [] s = s
lose_all traded now (p ∷ ps) s = lose_all traded now ps (lose_one traded now p s)

abbrev pub with_trades : Option (Text → Bool) → ℕ → List Proposal → Service → Service
with_trades none now stale s = s
with_trades (some traded) now stale s = lose_all traded now stale s

abbrev pub with_block : ChainReads → ℕ → ℕ → List Proposal → Option ℕ → Service → Service
with_block chain block_duration_ms now stale none s = s
with_block chain block_duration_ms now stale (some current) s =
    with_trades (chain.trades (from_block current block_duration_ms) current) now stale s

unfoldable pub run_outcome_check : ChainReads → (block_duration_ms now : ℕ) → Service → Service
run_outcome_check chain block_duration_ms now s =
    with_block chain block_duration_ms now (fetch_stale_submitted window_ms now s.tables)
      chain.block_number s

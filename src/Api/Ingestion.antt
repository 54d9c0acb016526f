-- ===== src/Api/Ingestion.antt =====
-- POST /proposals in apps/byos/src/infra/api/routes.ts, once a request is admitted: the id, the
-- validation, and what becomes of the proposal.
pub mod Logged
use byos_service_ts.Prelude.{
  ℕ, suc, Bool, true, false, Option, none, some, List, [], ◌∷◌, ◌++◌, Text, text_eq, codes,
  if◌then◌else◌,
}
use byos_service_ts.Domain.Status.{Status, RejectionReason, reason_text}
use byos_service_ts.Domain.Proposal.{Proposal}
use byos_service_ts.Domain.Audit.{AuditKind, AuditEvent}
use byos_service_ts.Candidates.{Candidate, CandidateStore, add}
use byos_service_ts.Store.Rows.{Tables}
use byos_service_ts.Store.Outcome.{changed, subject_of}
use byos_service_ts.Store.Creation.{write_to_log}
use byos_service_ts.Validation.{SimulationOutcome, Verdict}
use byos_service_ts.Api.{Kind, Answer, thrown, app_error}
use byos_service_ts.Api.Request.{ParsedProposal, Admitted}

-- The service as the routes see it: the next id of the sequence, the candidates, the tables, and
-- the audit events so far, the latest first.
pub record Service : Type 0 where
  pub next_id : ℕ
  pub store : CandidateStore
  pub tables : Tables
  pub audit : List AuditEvent

-- The ids of `allocateId` come from a database sequence.
abbrev pub allocate_id : Service → Service
allocate_id s = record s { next_id = suc s.next_id }

abbrev pub proposal_for_validation : ℕ → Admitted → ℕ → Proposal
proposal_for_validation i a now = record {
  id = i;
  sub_solver = a.sub_solver;
  auction_id = some a.auction_id;
  order_uid = a.parsed.order_uid;
  order_uid_hash = a.parsed.order_uid_hash;
  sell_amount = a.parsed.sell_amount;
  min_buy_amount = a.parsed.min_buy_amount;
  quote_buy_amount = a.parsed.quote_buy_amount;
  sell_token = a.parsed.sell_token;
  buy_token = a.parsed.buy_token;
  interactions = a.parsed.interactions;
  interactions_hash = a.parsed.interactions_hash;
  valid_until = a.parsed.valid_until;
  nonce = a.parsed.nonce;
  signature = a.parsed.signature;
  status = Status.submitted;
  rejection_reason = none;
  gas_used = none;
  trampoline = none;
  settlement_tx_hash = none;
  penalty_tx_hash = none;
  simulation_failure_params = none;
  created_at = now;
  status_changed_at = now;
  settlement_penalty_cap = none;
  sell_token_ref_price = none;
  buy_token_ref_price = none;
  surplus_token_ref_price = none;
  auction_gas_price = none;
  clearing_prices = none;
  simulation_buy_amount = none;
}

abbrev pub candidate_of_accepted : Proposal → ℕ → SimulationOutcome → ℕ → Candidate
candidate_of_accepted p auction_id sim now = record {
  id = p.id;
  sub_solver = p.sub_solver;
  order_uid = p.order_uid;
  order_uid_hash = p.order_uid_hash;
  sell_amount = p.sell_amount;
  min_buy_amount = p.min_buy_amount;
  quote_buy_amount = p.quote_buy_amount;
  sell_token = sim.sell_token;
  buy_token = sim.buy_token;
  interactions = p.interactions;
  interactions_hash = p.interactions_hash;
  valid_until = p.valid_until;
  nonce = p.nonce;
  signature = p.signature;
  auction_id = auction_id;
  gas_used = sim.gas_used;
  trampoline = sim.trampoline;
  simulation_buy_amount = some sim.simulation_buy_amount;
  sell_token_ref_price = sim.sell_token_ref_price;
  created_at = now;
}

-- The proposal as the audit trail shows it when it is received.
abbrev pub received_proposal : Proposal → SimulationOutcome → Proposal
received_proposal p sim = record p {
  sell_token = sim.sell_token;
  buy_token = sim.buy_token;
  gas_used = some sim.gas_used;
  trampoline = some sim.trampoline;
  simulation_buy_amount = some sim.simulation_buy_amount;
  sell_token_ref_price = some sim.sell_token_ref_price;
}

abbrev pub emit : AuditEvent → Service → Service
emit event s = record s { audit = event ∷ s.audit }

abbrev pub log_refused :
    Proposal → Status → Option RejectionReason → Option Text → ℕ → Service → Service
log_refused p status reason params now s = record s {
  tables = write_to_log p.id p status reason params now s.tables;
}

-- A failed simulation has no reason.
abbrev pub refusal_detail : Option RejectionReason → Text
refusal_detail none = codes "SimFailed"
refusal_detail (some reason) = reason_text reason

abbrev pub refuse :
    Proposal → Status → Option RejectionReason → Option Text → ℕ → Service → Answer ℕ × Service
refuse p status reason params now s = (
  Answer.throw (app_error Kind.proposal_rejected (some (refusal_detail reason)) none),
  emit (changed now (subject_of p) Status.submitted status reason none)
      (log_refused p status reason params now s),
)

-- The revert of a settlement whose order another solver has filled.
abbrev pub is_filled : Option Text → Bool
is_filled none = false
is_filled (some reason) = text_eq reason (codes "GPv2: order filled")

abbrev pub refuse_simulation : Proposal → Bool → Option Text → ℕ → Service → Answer ℕ × Service
refuse_simulation p true params now s =
    refuse p Status.rejected (some RejectionReason.solver_outbid) params now s
refuse_simulation p false params now s = refuse p Status.sim_failed none params now s

-- From the validator's verdict on; the service may have changed since the id was allocated.
unfoldable pub conclude : Proposal → ℕ → ℕ → Option Verdict → Service → Answer ℕ × Service
conclude p auction_id now none s = (
  thrown Kind.no_active_auction,
  log_refused p Status.rejected (some RejectionReason.auction_closed) none now s,
)
conclude p auction_id now (some (Verdict.reject reason)) s =
    refuse p Status.rejected (some reason) none now s
conclude p auction_id now (some (Verdict.sim_failed params revert_reason)) s =
    refuse_simulation p (is_filled revert_reason) params now s
conclude p auction_id now (some (Verdict.accept none)) s = (thrown Kind.internal, s)
conclude p auction_id now (some (Verdict.accept (some sim))) s = (
  Answer.ok p.id,
  emit (record { occurred_at = now; kind = AuditKind.received (received_proposal p sim) })
      (record s { store = add (candidate_of_accepted p auction_id sim now) s.store }),
)

-- The whole route, where nothing happens while the proposal is validated.
unfoldable pub post_proposal :
    (validate : Proposal → Option Verdict)
    → (now : ℕ) → Answer Admitted
    → Service
    → Answer ℕ × Service
post_proposal validate now (Answer.throw e) s = (Answer.throw e, s)
post_proposal validate now (Answer.ok a) s =
    let p = proposal_for_validation s.next_id a now in
    conclude p a.auction_id now (validate p) (allocate_id s)

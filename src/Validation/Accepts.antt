-- ===== src/Validation/Accepts.antt =====
-- Exactly what `SimulationValidator.validate` of apps/byos/src/infra/blockchain/validator.ts
-- accepts, in terms of the order, the prices, the simulation and the collateral.
mod Steps
pub mod Exactly
use byos_service_ts.Prelude.{
  ℕ, ◌+◌, ◌≡◌, ◌<◌, ◌↔◌, ◌⊎◌, inl, inr, refl, Bool, true, false, Option, none, some, Text, to_lower,
  ℤ, pos, ◌≤ℤ◌,
}
use byos_service_ts.Domain.Proposal.{Proposal}
use byos_service_ts.Domain.Order.{OrderKind, OrderRecord}
use byos_service_ts.Domain.Order.Envelope.{FitsEnvelope}
use byos_service_ts.Domain.Order.Slippage.{WithinCaps}
use byos_service_ts.Domain.Scoring as Scoring
use byos_service_ts.Domain.Scoring.{scaled_to_fill, score_proposal}
use byos_service_ts.Domain.Collateral.{available_collateral}
use byos_service_ts.Validation.{
  AuctionState, SimulationOutcome, Verdict, TrampolineAnswer, SimulatedCall, InflightData, Reads,
  ValidatorConfig, parse_executed_delta, sibling_exposure, current_exposure, scored,
  with_simulation, is_submitted, given_or_resolved,
}
use byos_service_ts.Validation.Gates.{
  Context, Simulated, surplus_price_of, check_order, run_simulation, check_exposure, check_profit,
  outcome_of, validate_simulation,
}

-- The order is in the auction, its tokens are priced, and the proposal fits it.
pub record OrderOk (cfg : ValidatorConfig) (a : AuctionState) (p : Proposal) (c : Context)
    : Type 0 where
  pub known : a.orders (to_lower p.order_uid) ≡ some c.record_
  pub sell_priced : (a.prices (to_lower p.sell_token) ≡ some c.sell_price) × (0 < c.sell_price)
  pub surplus_priced : (surplus_price_of a c.record_ ≡ some c.surplus_price) × (0 < c.surplus_price)
  pub gas : c.gas_price ≡ a.gas_price
  pub envelope : FitsEnvelope c.record_ p
  pub spread :
      (c.record_.order.kind ≡ OrderKind.buy)
      ⊎ ((native : ℕ) × (a.prices (to_lower p.buy_token) ≡ some native)
          × (0 < native)
          × WithinCaps p native cfg.max_slippage_bps cfg.max_slippage_native)

-- The simulation ran, did not revert, and the trampoline reported what it delivered.
pub record RunOk (reads : Reads) (r : OrderRecord) (p : Proposal) (s : Simulated) : Type 0 where
  pub trampoline :
      given_or_resolved p.trampoline (reads.resolve_trampoline p.sub_solver)
      ≡ TrampolineAnswer.address s.trampoline
  pub ran :
      (authenticator : Text) × (reads.authenticator ≡ some authenticator)
      × (reads.simulate r p s.trampoline authenticator ≡ some s.call)
  pub kept : s.call.reverted ≡ false
  pub delivered : parse_executed_delta s.call.logs s.trampoline ≡ some s.delta

-- The collateral covers the sub-solver's submitted proposals and this one.
pub record ExposureOk (cfg : ValidatorConfig) (reads : Reads) (c : Context) (p : Proposal) (gas : ℕ)
    : Type 0 where
  pub inflight : InflightData
  pub balance : ℕ
  pub inflight_read : reads.inflight p.sub_solver ≡ some inflight
  pub balance_read : reads.escrow_balance p.sub_solver ≡ some balance
  pub covered :
      pos (
        sibling_exposure cfg c.gas_price inflight.proposals
        + current_exposure cfg c.gas_price p c.sell_price gas)
      ≤ℤ available_collateral balance inflight.buffer_balance

-- A proposal that is validated for the first time scores above the minimum with what the
-- simulation delivered.
abbrev pub ProfitOk : ValidatorConfig → Context → Proposal → Simulated → Type 0
ProfitOk cfg c p s =
    (is_submitted p ≡ false)
    ⊎ ((fill : Scoring.Candidate) × ((score : ℕ) × (scaled_to_fill
              (scored c.record_ (with_simulation p s.delta) s.call.gas_used c.gas_price)
              c.record_.order.partially_fillable
            ≡ some fill)
          × (score_proposal fill c.surplus_price ≡ some score)
          × (cfg.min_score < score)))

pub record IsAccepted (cfg : ValidatorConfig) (reads : Reads) (p : Proposal)
    (sim : SimulationOutcome) : Type 0 where
  pub state : AuctionState
  pub context : Context
  pub simulated : Simulated
  pub open_auction : reads.auction_state ≡ some state
  pub order_ok : OrderOk cfg state p context
  pub run_ok : RunOk reads context.record_ p simulated
  pub exposure_ok : ExposureOk cfg reads context p simulated.call.gas_used
  pub profit_ok : ProfitOk cfg context p simulated
  pub result : sim ≡ outcome_of context simulated

-- ===== src/Validation/Gates.antt =====
-- `SimulationValidator.validate` of apps/byos/src/infra/blockchain/validator.ts: the gates in the
-- order in which the source runs them.
use byos_service_ts.Prelude.{ℕ, not, ◌&&◌, Option, none, some, Text, to_lower}
use byos_service_ts.Domain.Status.{RejectionReason}
use byos_service_ts.Domain.Proposal.{Proposal}
use byos_service_ts.Domain.Order.{OrderRecord, check_envelope, check_proposal_slippage}
use byos_service_ts.Domain.Scoring.{surplus_token}
use byos_service_ts.Solve.{is_sell_order}
use byos_service_ts.Validation.{
  AuctionState, SimulationOutcome, Verdict, Refusal, Gate, ◌>>=◌, ◌>>◌, or_stop, stop_if,
  reject_for, trampoline_gate, SimulatedCall, Reads, ValidatorConfig, parse_executed_delta,
  price_gate, slippage_price_gate, exposure_gate, profitability, with_simulation, is_submitted,
  given_or_resolved, revert_gate,
}

-- The auction's data on the proposal.
pub record Context : Type 0 where
  pub record_ : OrderRecord
  pub sell_price : ℕ
  pub surplus_price : ℕ
  pub gas_price : ℕ

abbrev pub surplus_price_of : AuctionState → OrderRecord → Option ℕ
surplus_price_of a r =
    a.prices
      (to_lower (surplus_token (is_sell_order r.order.kind) r.order.sell_token r.order.buy_token))

-- Steps 1 to 3: the order, the prices, the envelope, the spread.
unfoldable pub check_order : ValidatorConfig → AuctionState → Proposal → Gate Context
check_order cfg a p = do
  r ← or_stop (a.orders (to_lower p.order_uid)) (Refusal.refuse RejectionReason.order_not_found)
  sell_price ← price_gate (a.prices (to_lower p.sell_token))
  native_price ← slippage_price_gate r.order.kind (a.prices (to_lower p.buy_token))
  surplus_price ← price_gate (surplus_price_of a r)
  reject_for (check_envelope r p)
  reject_for (check_proposal_slippage r p native_price cfg.max_slippage_bps cfg.max_slippage_native)
  Gate.pass (record {
    record_ = r;
    sell_price = sell_price;
    surplus_price = surplus_price;
    gas_price = a.gas_price;
  })

-- Steps 6 to 9: the simulation, the trampoline it ran, and what that delivered.
pub record Simulated : Type 0 where
  pub trampoline : Text
  pub call : SimulatedCall
  pub delta : ℕ

unfoldable pub run_simulation : Reads → OrderRecord → Proposal → Gate Simulated
run_simulation reads r p = do
  trampoline ←
      trampoline_gate (given_or_resolved p.trampoline (reads.resolve_trampoline p.sub_solver))
  authenticator ← or_stop reads.authenticator Refusal.defer
  call ← or_stop (reads.simulate r p trampoline authenticator) Refusal.defer
  revert_gate call
  delta ←
      or_stop (parse_executed_delta call.logs trampoline)
        (Refusal.refuse RejectionReason.simulation_missing_executed_event)
  Gate.pass (record { trampoline = trampoline; call = call; delta = delta })

unfoldable pub check_exposure : ValidatorConfig → Reads → Context → Proposal → ℕ → Gate (Unit {0})
check_exposure cfg reads c p gas = do
  inflight ← or_stop (reads.inflight p.sub_solver) Refusal.defer
  balance ← or_stop (reads.escrow_balance p.sub_solver) Refusal.defer
  exposure_gate cfg c.gas_price p c.sell_price gas inflight balance

-- Step 10, on the first validation only.
unfoldable pub check_profit : ValidatorConfig → Context → Proposal → Simulated → Gate (Unit {0})
check_profit cfg c p s =
    stop_if
      (is_submitted p
        && not (
            profitability cfg (with_simulation p s.delta) c.record_ s.call.gas_used c.surplus_price
              c.gas_price))
      (Refusal.refuse RejectionReason.unprofitable)

abbrev pub outcome_of : Context → Simulated → SimulationOutcome
outcome_of c s = record {
  gas_used = s.call.gas_used;
  trampoline = s.trampoline;
  sell_token = c.record_.order.sell_token;
  buy_token = c.record_.order.buy_token;
  simulation_buy_amount = s.delta;
  sell_token_ref_price = c.sell_price;
}

unfoldable pub validate_gates : ValidatorConfig → Reads → Proposal → Gate SimulationOutcome
validate_gates cfg reads p = do
  a ← or_stop reads.auction_state Refusal.defer
  c ← check_order cfg a p
  s ← run_simulation reads c.record_ p
  check_exposure cfg reads c p s.call.gas_used
  check_profit cfg c p s
  Gate.pass (outcome_of c s)

abbrev pub verdict_of : Gate SimulationOutcome → Option Verdict
verdict_of (Gate.pass outcome) = some (Verdict.accept (some outcome))
verdict_of (Gate.stop Refusal.defer) = none
verdict_of (Gate.stop (Refusal.refuse r)) = some (Verdict.reject r)
verdict_of (Gate.stop (Refusal.fail params reason)) = some (Verdict.sim_failed params reason)

-- `none` is to defer.
unfoldable pub validate_simulation : ValidatorConfig → Reads → Proposal → Option Verdict
validate_simulation cfg reads p = verdict_of (validate_gates cfg reads p)

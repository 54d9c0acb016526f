-- ===== src/Tests/Validations.antt =====
-- A proposal that the validator accepts, at a chain that answers everything.
use byos_service_ts.Prelude.{
  ℕ, ◌≡◌, ◌≤◌, ◌↔◌, ◌^◌, refl, false, Option, none, some, [], ◌∷◌, codes, to_lower, pos, ◌-ℤ◌,
}
use byos_service_ts.Domain.Order.{check_envelope, check_proposal_slippage, token_eq}
use byos_service_ts.Domain.Scoring.{
  surplus_token, scaled_to_fill, score_proposal, ceil_div, effective_gas,
}
use byos_service_ts.Domain.Proposal.{effective_buy_amount}
use byos_service_ts.Domain.Collateral.{penalty_cap, per_proposal_cl, available_collateral}
use byos_service_ts.Validation.{
  AuctionState, SimulationOutcome, Verdict, TrampolineAnswer, SimulatedCall, Reads, ValidatorConfig,
  parse_executed_delta, profitability,
}
use byos_service_ts.Validation.Gates.{
  check_order, run_simulation, check_exposure, check_profit, validate_gates, validate_simulation,
}
use byos_service_ts.Validation.Accepts.{IsAccepted}
use byos_service_ts.Validation.Escrow.{get_balance, validate_escrow, validate}
use byos_service_ts.Validation.Floor.{validate_iff}
use byos_service_ts.Tests.Data.{order_record, proposal}

abbrev auction_state : AuctionState
auction_state = record {
  auction_id = 5;
  orders = λ uid. some order_record;
  prices = λ token. some (10 ^ 18);
  gas_price = 0;
}

abbrev call : SimulatedCall
call = record {
  reverted = false;
  revert_reason = none;
  failure_params = none;
  gas_used = 90_000;
  logs = record { address = codes "0x7"; executed_delta = some 463 } ∷ [];
}

abbrev pub reads : Reads
reads = record {
  auction_state = some auction_state;
  resolve_trampoline = λ s. TrampolineAnswer.unavailable;
  authenticator = some (codes "0x6");
  simulate = λ r p trampoline authenticator. some call;
  inflight = λ s. some (record { proposals = []; buffer_balance = pos 2 });
  escrow_balance = λ s. some 700;
}

abbrev pub cfg : ValidatorConfig
cfg = record {
  min_score = 0;
  max_slippage_bps = 200;
  max_slippage_native = 5;
  collateral_ratio_bps = 4;
  min_collateral = 600;
}

abbrev simulation : SimulationOutcome
simulation = record {
  gas_used = 90_000;
  trampoline = codes "0x7";
  sell_token = codes "0xS";
  buy_token = codes "0xB";
  simulation_buy_amount = 463;
  sell_token_ref_price = 10 ^ 18;
}

validates :
    (validate cfg reads (some 700) (proposal 7) []).0 ≡ some (Verdict.accept (some simulation))
validates =
    unfold validate validate_escrow get_balance validate_simulation validate_gates check_order
      check_envelope check_proposal_slippage surplus_token run_simulation check_exposure
      check_profit profitability parse_executed_delta token_eq to_lower scaled_to_fill
      score_proposal ceil_div effective_gas effective_buy_amount available_collateral
      per_proposal_cl penalty_cap ◌-ℤ◌ in
    refl

validate_iff_example :
    ((validate cfg reads (some 700) (proposal 7) []).0 ≡ some (Verdict.accept (some simulation)))
    ↔ ((sim : SimulationOutcome) × ((balance : ℕ) × (◌≡◌ {A = Option SimulationOutcome}
            (some simulation)
            (some sim))
          × ((get_balance (proposal 7).sub_solver (some 700) []).0 ≡ some balance)
          × (600 ≤ balance)
          × IsAccepted cfg reads (proposal 7) sim))
validate_iff_example = validate_iff cfg reads (some 700) (proposal 7) [] (some simulation)

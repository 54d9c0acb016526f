-- ===== src/Validation.antt =====
-- apps/byos/src/infra/blockchain/validator.ts and escrow.ts, apps/byos/src/domain/validator.ts:
-- the gates that a proposal passes before it is a candidate. What the chain answers is a parameter.
pub mod Gates
pub mod Escrow
pub mod Accepts
pub mod Floor
use byos_service_ts.Prelude.{
  ℕ, ◌+◌, ◌*◌, Bool, true, false, not, ◌&&◌, Option, none, some, List, [], ◌∷◌, Text, text_eq,
  to_lower, ℤ, pos, ltb_ℤ, ltb, leb, ◌==◌, if◌then◌else◌, get_or,
}
use byos_service_ts.Domain.Status.{Status, RejectionReason, status_code}
use byos_service_ts.Domain.Proposal.{Proposal, effective_buy_amount}
use byos_service_ts.Domain.Order.{OrderKind, OrderRecord, check_envelope, check_proposal_slippage}
use byos_service_ts.Domain.Scoring as Scoring
use byos_service_ts.Domain.Scoring.{
  escrow_gas_estimation, effective_gas, surplus_token, scaled_to_fill, score_proposal,
}
use byos_service_ts.Domain.Collateral.{penalty_cap, per_proposal_cl, available_collateral}
use byos_service_ts.Solve.{is_sell_order}

-- The maps are read at lowercase keys.
pub record AuctionState : Type 0 where
  pub auction_id : ℕ
  pub orders : Text → Option OrderRecord
  pub prices : Text → Option ℕ
  pub gas_price : ℕ

pub record SimulationOutcome : Type 0 where
  pub gas_used : ℕ
  pub trampoline : Text
  pub sell_token : Text
  pub buy_token : Text
  pub simulation_buy_amount : ℕ
  pub sell_token_ref_price : ℕ

-- `params` are the failure's parameters as they are stored.
pub data Verdict : Type 0 where
  accept : Option SimulationOutcome → Verdict
  reject : RejectionReason → Verdict
  sim_failed : (params revert_reason : Option Text) → Verdict

-- The early returns: `null`, which is to defer, a rejection, or a failed simulation.
pub data Refusal : Type 0 where
  defer : Refusal
  refuse : RejectionReason → Refusal
  fail : (params revert_reason : Option Text) → Refusal

-- One gate after another: a value, or an early return.
pub data Gate {ℓ} (A : Type ℓ) : Type ℓ where
  pass : A → Gate A
  stop : Refusal → Gate A

infixl 5 ◌>>=◌ ◌>>◌
abbrev pub ◌>>=◌ {ℓ κ} : {A : Type ℓ} {B : Type κ} → Gate A → (A → Gate B) → Gate B
Gate.pass a >>= f = f a
Gate.stop v >>= f = Gate.stop v

abbrev pub ◌>>◌ {ℓ} : {B : Type ℓ} → Gate (Unit {0}) → Gate B → Gate B
m >> k = m >>= λ _. k

abbrev pub or_stop {ℓ} : {A : Type ℓ} → Option A → Refusal → Gate A
or_stop none v = Gate.stop v
or_stop (some a) v = Gate.pass a

abbrev pub stop_if : Bool → Refusal → Gate (Unit {0})
stop_if true v = Gate.stop v
stop_if false v = Gate.pass tt

-- `if (reason) return reject(reason)`
abbrev pub reject_for : Option RejectionReason → Gate (Unit {0})
reject_for none = Gate.pass tt
reject_for (some r) = Gate.stop (Refusal.refuse r)

-- The answer to reading the trampoline's address: a revert is final, any other error defers.
pub data TrampolineAnswer : Type 0 where
  address : Text → TrampolineAnswer
  reverted : Option Text → TrampolineAnswer
  unavailable : TrampolineAnswer

abbrev pub trampoline_gate : TrampolineAnswer → Gate Text
trampoline_gate (TrampolineAnswer.address a) = Gate.pass a
trampoline_gate (TrampolineAnswer.reverted reason) = Gate.stop (Refusal.fail none reason)
trampoline_gate TrampolineAnswer.unavailable = Gate.stop Refusal.defer

-- A log of the simulation with what decoding it as the Executed event gives.
pub record SimulationLog : Type 0 where
  pub address : Text
  pub executed_delta : Option ℕ

-- The first call of the simulated block; the reason and parameters are those of a revert.
pub record SimulatedCall : Type 0 where
  pub reverted : Bool
  pub revert_reason : Option Text
  pub failure_params : Option Text
  pub gas_used : ℕ
  pub logs : List SimulationLog

pub record Sibling : Type 0 where
  pub gas_used : Option ℕ
  pub sell_amount_native : Option ℕ

pub record InflightData : Type 0 where
  pub proposals : List Sibling
  pub buffer_balance : ℤ

-- What the chain, the database and the auction's state answer during one validation; `none` is a
-- read that failed.
pub record Reads : Type 0 where
  pub auction_state : Option AuctionState
  pub resolve_trampoline : Text → TrampolineAnswer
  pub authenticator : Option Text
  pub simulate : OrderRecord → Proposal → Text → Text → Option SimulatedCall
  pub inflight : Text → Option InflightData
  pub escrow_balance : Text → Option ℕ

pub record ValidatorConfig : Type 0 where
  pub min_score : ℕ
  pub max_slippage_bps : ℕ
  pub max_slippage_native : ℕ
  pub collateral_ratio_bps : ℕ
  pub min_collateral : ℕ

-- The first log of the trampoline that decodes.
unfoldable pub parse_executed_delta : List SimulationLog → Text → Option ℕ
parse_executed_delta [] trampoline = none
parse_executed_delta (l ∷ logs) trampoline =
    let rest = parse_executed_delta logs trampoline in
    if text_eq (to_lower l.address) (to_lower trampoline)
    then elim (l.executed_delta) [ none ↦ rest | some d ↦ some d ]
    else rest

-- A price that is missing or 0 is unavailable.
abbrev pub positive_price : Option ℕ → Option ℕ
positive_price none = none
positive_price (some p) = if p == 0 then none else some p

abbrev pub price_gate : Option ℕ → Gate ℕ
price_gate p = or_stop (positive_price p) (Refusal.refuse RejectionReason.native_price_unavailable)

-- Only a sell order's spread is valued, in buy tokens.
abbrev pub slippage_price_gate : OrderKind → Option ℕ → Gate ℕ
slippage_price_gate OrderKind.sell p = price_gate p
slippage_price_gate OrderKind.buy p = Gate.pass 0

abbrev pub sibling_exposure : ValidatorConfig → ℕ → List Sibling → ℕ
sibling_exposure cfg gas_price [] = 0
sibling_exposure cfg gas_price (s ∷ siblings) =
    penalty_cap s.sell_amount_native cfg.collateral_ratio_bps cfg.min_collateral
    + get_or s.gas_used escrow_gas_estimation * gas_price
    + sibling_exposure cfg gas_price siblings

abbrev pub current_exposure : ValidatorConfig → ℕ → Proposal → ℕ → ℕ → ℕ
current_exposure cfg gas_price p sell_price gas =
    per_proposal_cl p.sell_amount (some sell_price) cfg.collateral_ratio_bps cfg.min_collateral
    + gas * gas_price

-- Gate 2.
abbrev pub exposure_gate :
    ValidatorConfig → ℕ → Proposal → ℕ → ℕ → InflightData → ℕ → Gate (Unit {0})
exposure_gate cfg gas_price p sell_price gas inflight balance =
    stop_if
      (ltb_ℤ (available_collateral balance inflight.buffer_balance) (
        pos (
          sibling_exposure cfg gas_price inflight.proposals
          + current_exposure cfg gas_price p sell_price gas)))
      (Refusal.refuse RejectionReason.exposure_cap_exceeded)

abbrev pub scored : OrderRecord → Proposal → ℕ → ℕ → Scoring.Candidate
scored r p gas gas_price = record {
  order_sell = r.order.sell_amount;
  order_buy = r.order.buy_amount;
  proposal_sell = p.sell_amount;
  proposal_buy = effective_buy_amount p;
  is_sell_order = is_sell_order r.order.kind;
  gas_cost = effective_gas gas * gas_price;
}

abbrev pub exceeds_min_score : ℕ → Option ℕ → Bool
exceeds_min_score min_score none = false
exceeds_min_score min_score (some score) = ltb min_score score

abbrev pub is_profitable : ValidatorConfig → ℕ → Option Scoring.Candidate → Bool
is_profitable cfg surplus_price none = false
is_profitable cfg surplus_price (some s) =
    exceeds_min_score cfg.min_score (score_proposal s surplus_price)

-- `profitability`: true for "ok".
unfoldable pub profitability : ValidatorConfig → Proposal → OrderRecord → ℕ → ℕ → ℕ → Bool
profitability cfg p r gas surplus_price gas_price =
    is_profitable cfg surplus_price
      (scaled_to_fill (scored r p gas gas_price) r.order.partially_fillable)

abbrev pub with_simulation : Proposal → ℕ → Proposal
with_simulation p delta = record p { simulation_buy_amount = some delta }

abbrev pub is_submitted : Proposal → Bool
is_submitted p = status_code p.status == status_code Status.submitted

abbrev pub given_or_resolved : Option Text → TrampolineAnswer → TrampolineAnswer
given_or_resolved (some t) answer = TrampolineAnswer.address t
given_or_resolved none answer = answer

abbrev pub revert_gate : SimulatedCall → Gate (Unit {0})
revert_gate call = stop_if call.reverted (Refusal.fail call.failure_params call.revert_reason)

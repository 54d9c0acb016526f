-- ===== src/Domain/Proposal.antt =====
-- apps/byos/src/domain/proposal.ts: the domain proposal and what the driver reports about it.
-- Hex strings are texts; decimal strings and bigints that cannot be negative are numbers;
-- `T | null` is an option.
use byos_service_ts.Prelude.{
  ℕ, ◌≤◌, Bool, true, false, Option, none, some, List, Text, ltb, arith, if◌then◌else◌,
}
use byos_service_ts.Domain.Status.{Status, RejectionReason}

-- A call of the route: `ContractInteraction` of packages/common/src/types.ts.
pub record Interaction : Type 0 where
  pub target : Text
  pub value : ℕ
  pub call_data : Text

pub record Proposal : Type 0 where
  pub id : ℕ
  pub sub_solver : Text
  pub auction_id : Option ℕ
  pub order_uid : Text
  pub order_uid_hash : Text
  pub sell_amount : ℕ
  pub min_buy_amount : ℕ
  pub quote_buy_amount : ℕ
  pub sell_token : Text
  pub buy_token : Text
  pub interactions : List Interaction
  pub interactions_hash : Text
  pub valid_until : ℕ
  pub nonce : ℕ
  pub signature : Text
  pub status : Status
  pub rejection_reason : Option RejectionReason
  pub gas_used : Option ℕ
  pub trampoline : Option Text
  pub settlement_tx_hash : Option Text
  pub penalty_tx_hash : Option Text
  pub simulation_failure_params : Option Text
  pub created_at : ℕ
  pub status_changed_at : ℕ
  pub settlement_penalty_cap : Option ℕ
  pub sell_token_ref_price : Option ℕ
  pub buy_token_ref_price : Option ℕ
  pub surplus_token_ref_price : Option ℕ
  pub auction_gas_price : Option ℕ
  pub clearing_prices : Option (List (Text × ℕ))
  pub simulation_buy_amount : Option ℕ

-- The lower of what the simulation delivered and what was quoted.
abbrev pub lower_of : Option ℕ → ℕ → ℕ
lower_of none quote = quote
lower_of (some simulated) quote = if ltb simulated quote then simulated else quote

unfoldable pub effective_buy_amount : Proposal → ℕ
effective_buy_amount p = lower_of p.simulation_buy_amount p.quote_buy_amount

pub data SettlementOutcome : Type 0 where
  started : SettlementOutcome
  succeeded : Text → SettlementOutcome
  reverted : Text → SettlementOutcome
  abandoned : SettlementOutcome

unfoldable pub is_chargeable : SettlementOutcome → Bool
is_chargeable (SettlementOutcome.reverted h) = true
is_chargeable SettlementOutcome.abandoned = true
is_chargeable _ = false

pub lower_of-le : (o : Option ℕ) (q : ℕ) → lower_of o q ≤ q
lower_of-le o q = ground arith

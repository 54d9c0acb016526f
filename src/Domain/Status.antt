-- ===== src/Domain/Status.antt =====
-- packages/common/src/dto.ts: the statuses of a proposal and the reasons for a rejection.
use byos_service_ts.Prelude.{ℕ, Bool, true, false, Text, codes}

pub data Status : Type 0 where
  submitted rejected settled settle_failed sim_failed cancelled lost candidate : Status

-- A number for each status, so that two statuses are compared by number.
abbrev pub status_code : Status → ℕ
status_code Status.submitted = 0
status_code Status.rejected = 1
status_code Status.settled = 2
status_code Status.settle_failed = 3
status_code Status.sim_failed = 4
status_code Status.cancelled = 5
status_code Status.lost = 6
status_code Status.candidate = 7

unfoldable pub is_terminal_status : Status → Bool
is_terminal_status Status.rejected = true
is_terminal_status Status.settled = true
is_terminal_status Status.settle_failed = true
is_terminal_status Status.sim_failed = true
is_terminal_status Status.cancelled = true
is_terminal_status Status.lost = true
is_terminal_status _ = false

pub data RejectionReason : Type 0 where
  insufficient_escrow exposure_cap_exceeded unsupported_order amount_mismatch : RejectionReason
  token_mismatch order_not_found unprofitable trade_value_cap_exceeded : RejectionReason
  subsolver_outbid solver_outbid proposed_slippage_outrange : RejectionReason
  simulation_missing_executed_event native_price_unavailable : RejectionReason
  inflight_price_unavailable auction_closed unknown_output : RejectionReason

-- The reason as it is answered.
unfoldable pub reason_text : RejectionReason → Text
reason_text RejectionReason.insufficient_escrow = codes "InsufficientEscrow"
reason_text RejectionReason.exposure_cap_exceeded = codes "ExposureCapExceeded"
reason_text RejectionReason.unsupported_order = codes "UnsupportedOrder"
reason_text RejectionReason.amount_mismatch = codes "AmountMismatch"
reason_text RejectionReason.token_mismatch = codes "TokenMismatch"
reason_text RejectionReason.order_not_found = codes "OrderNotFound"
reason_text RejectionReason.unprofitable = codes "Unprofitable"
reason_text RejectionReason.trade_value_cap_exceeded = codes "TradeValueCapExceeded"
reason_text RejectionReason.subsolver_outbid = codes "SubsolverOutbid"
reason_text RejectionReason.solver_outbid = codes "SolverOutbid"
reason_text RejectionReason.proposed_slippage_outrange = codes "ProposedSlippageOutrange"
reason_text RejectionReason.simulation_missing_executed_event =
    codes "SimulationMissingExecutedEvent"
reason_text RejectionReason.native_price_unavailable = codes "NativePriceUnavailable"
reason_text RejectionReason.inflight_price_unavailable = codes "InflightPriceUnavailable"
reason_text RejectionReason.auction_closed = codes "AuctionClosed"
reason_text RejectionReason.unknown_output = codes "UnknownOutput"

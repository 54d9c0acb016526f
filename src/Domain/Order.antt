-- ===== src/Domain/Order.antt =====
-- apps/byos/src/domain/order.ts: the envelope and slippage checks of a proposal against its order.
pub mod Envelope
pub mod Slippage
pub mod Scored
use byos_service_ts.Prelude.{
  ℕ, ◌+◌, ◌-◌, ◌*◌, ◌^◌, Bool, true, false, not, ◌||◌, Option, none, some, List, ℤ, pos, negsuc,
  sub_ℕ, Text, text_eq, to_lower, ◌==◌, ltb, if◌then◌else◌,
}
use byos_service_ts.Domain.Status.{RejectionReason}
use byos_service_ts.Domain.Proposal.{Interaction, Proposal}

pub data OrderKind : Type 0 where
  sell buy : OrderKind

pub data SigningScheme : Type 0 where
  eip712 eth_sign eip1271 pre_sign : SigningScheme

pub data OrderStatus : Type 0 where
  open_order fulfilled expired cancelled presignature_pending : OrderStatus

pub record CowOrder : Type 0 where
  pub sell_token : Text
  pub buy_token : Text
  pub receiver : Text
  pub sell_amount : ℕ
  pub buy_amount : ℕ
  pub valid_to : ℕ
  pub app_data : Text
  pub fee_amount : ℕ
  pub kind : OrderKind
  pub partially_fillable : Bool
  pub signing_scheme : SigningScheme
  pub signature : Text

pub record OrderRecord : Type 0 where
  pub order : CowOrder
  pub pre_interactions : List Interaction
  pub post_interactions : List Interaction
  pub erc20_balances : Bool
  pub status : OrderStatus

-- `a.toLowerCase() === b.toLowerCase()`
unfoldable pub token_eq : Text → Text → Bool
token_eq a b = text_eq (to_lower a) (to_lower b)

fill_or_kill_of : OrderKind → CowOrder → Proposal → Option RejectionReason
fill_or_kill_of OrderKind.sell order p =
    if not (p.sell_amount == order.sell_amount)
    then some RejectionReason.amount_mismatch
    else if ltb p.min_buy_amount order.buy_amount
    then some RejectionReason.amount_mismatch
    else none
fill_or_kill_of OrderKind.buy order p =
    if not (p.min_buy_amount == p.quote_buy_amount)
    then some RejectionReason.amount_mismatch
    else if not (p.quote_buy_amount == order.buy_amount)
    then some RejectionReason.amount_mismatch
    else none

check_fill_or_kill : CowOrder → Proposal → Option RejectionReason
unfolding fill_or_kill_of
check_fill_or_kill order p = fill_or_kill_of order.kind order p

partial_fill_of : OrderKind → CowOrder → Proposal → Option RejectionReason
partial_fill_of OrderKind.sell order p =
    if p.sell_amount == 0 || ltb order.sell_amount p.sell_amount
    then some RejectionReason.amount_mismatch
    else if ltb (p.quote_buy_amount * order.sell_amount) (p.sell_amount * order.buy_amount)
    then some RejectionReason.amount_mismatch
    else if ltb (p.min_buy_amount * order.sell_amount) (p.sell_amount * order.buy_amount)
    then some RejectionReason.amount_mismatch
    else none
partial_fill_of OrderKind.buy order p =
    if not (p.min_buy_amount == p.quote_buy_amount)
    then some RejectionReason.amount_mismatch
    else if p.quote_buy_amount == 0 || ltb order.buy_amount p.quote_buy_amount
    then some RejectionReason.amount_mismatch
    else if p.sell_amount == 0
    then some RejectionReason.amount_mismatch
    else if ltb (p.quote_buy_amount * order.sell_amount) (p.sell_amount * order.buy_amount)
    then some RejectionReason.amount_mismatch
    else none

check_partial_fill : CowOrder → Proposal → Option RejectionReason
unfolding partial_fill_of
check_partial_fill order p = partial_fill_of order.kind order p

unfoldable pub check_envelope : OrderRecord → Proposal → Option RejectionReason
unfolding check_partial_fill check_fill_or_kill
check_envelope r p =
    if not r.erc20_balances
    then some RejectionReason.unsupported_order
    else if not (token_eq p.sell_token r.order.sell_token)
        || not (token_eq p.buy_token r.order.buy_token)
    then some RejectionReason.token_mismatch
    else if ltb p.quote_buy_amount p.min_buy_amount
    then some RejectionReason.amount_mismatch
    else if r.order.partially_fillable
    then check_partial_fill r.order p
    else check_fill_or_kill r.order p

-- The caps on a gap; `gap <= 0n` passes.
slippage_of_gap : ℤ → Proposal → ℕ → ℕ → ℕ → Option RejectionReason
slippage_of_gap (negsuc n) p native_price max_bps max_native = none
slippage_of_gap (pos gap) p native_price max_bps max_native =
    if gap == 0
    then none
    else if ltb (p.quote_buy_amount * max_bps) (gap * 10_000)
    then some RejectionReason.proposed_slippage_outrange
    else if ltb (max_native * 10 ^ 18) (gap * native_price)
    then some RejectionReason.proposed_slippage_outrange
    else none

slippage_of_kind : OrderKind → Proposal → ℕ → ℕ → ℕ → Option RejectionReason
unfolding slippage_of_gap
slippage_of_kind OrderKind.buy p native_price max_bps max_native = none
slippage_of_kind OrderKind.sell p native_price max_bps max_native =
    slippage_of_gap (sub_ℕ p.quote_buy_amount p.min_buy_amount) p native_price max_bps max_native

unfoldable pub check_proposal_slippage : OrderRecord → Proposal → ℕ → ℕ → ℕ → Option RejectionReason
unfolding slippage_of_kind
check_proposal_slippage r p native_price max_slippage_bps max_slippage_native =
    slippage_of_kind r.order.kind p native_price max_slippage_bps max_slippage_native

-- ===== src/Domain/Order/Slippage.antt =====
-- What `checkProposalSlippage` of apps/byos/src/domain/order.ts admits.
use byos_service_ts.Prelude.{ℕ, ◌-◌, ◌*◌, ◌^◌, ◌≤◌, ◌≡◌, ◌↔◌, ◌⊎◌, none, arith}
use byos_service_ts.Domain.Proposal.{Proposal}
use byos_service_ts.Domain.Order.{OrderKind, OrderRecord, check_proposal_slippage}

-- Both caps on the spread between the quoted and the least amount of a sell order.
abbrev pub WithinCaps : Proposal → ℕ → ℕ → ℕ → Type 0
WithinCaps p native_price max_bps max_native =
    ((p.quote_buy_amount - p.min_buy_amount) * 10_000 ≤ p.quote_buy_amount * max_bps)
    × ((p.quote_buy_amount - p.min_buy_amount) * native_price ≤ max_native * 10 ^ 18)

-- The slippage check passes exactly for buy orders and for spreads within both caps.
pub check_proposal_slippage_iff :
    (r : OrderRecord) (p : Proposal) (native_price max_bps max_native : ℕ)
    → (check_proposal_slippage r p native_price max_bps max_native ≡ none)
      ↔ ((r.order.kind ≡ OrderKind.buy) ⊎ WithinCaps p native_price max_bps max_native)
unfolding check_proposal_slippage
check_proposal_slippage_iff r p n b m = (λ h. ground arith, λ h. ground arith)

-- ===== src/Domain/GasCut.antt =====
-- apps/byos/src/domain/gas-cut.ts: the cut that pays the gas, and the executed amount around it.
pub mod Limits
use byos_service_ts.Prelude.{
  ℕ, zero, suc, ◌+◌, ◌-◌, ◌*◌, ◌/◌, ◌≤◌, ◌<◌, ◌≡◌, ◌↔◌, ◌⊎◌, Bool, true, false, Option, none, some,
  arith, Bool-cases, inl, inr, ◌==◌, ltb, if◌then◌else◌, ℤ, pos, negsuc, sub_ℕ,
}
use byos_service_ts.Domain.Scoring.{Candidate, ceil_div, ether}

pub record GasCut : Type 0 where
  pub amount : ℕ
  pub executed_amount : ℕ

-- The sell order's branch, on `executed`, the order's sell amount less the cut.
sell_cut : Candidate → ℕ → ℤ → Option GasCut
sell_cut c amount (negsuc n) = none
sell_cut c amount (pos executed) =
    if c.proposal_sell == 0
    then none
    else if ltb ((c.proposal_buy * executed) / c.proposal_sell) c.order_buy
    then none
    else some (record { amount = amount; executed_amount = executed })

buy_cut : Candidate → ℕ → Option GasCut
buy_cut c amount =
    if ltb c.order_sell (c.proposal_sell + amount)
    then none
    else some (record { amount = amount; executed_amount = c.order_buy })

unfoldable pub gas_cut_size : Candidate → ℕ → Option GasCut
unfolding sell_cut buy_cut
gas_cut_size c sell_token_price =
    if sell_token_price == 0
    then none
    else let amount = ceil_div (c.gas_cost * ether) sell_token_price in
      if c.is_sell_order then sell_cut c amount (sub_ℕ c.order_sell amount) else buy_cut c amount

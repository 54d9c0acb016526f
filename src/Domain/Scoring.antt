-- ===== src/Domain/Scoring.antt =====
-- apps/byos/src/domain/scoring.ts: the score of a proposal against its order.
pub mod Score
pub mod Fill
use byos_service_ts.Prelude.{
  ℕ, ◌+◌, ◌-◌, ◌*◌, ◌/◌, ◌^◌, Bool, Option, none, some, ℤ, pos, negsuc, sub_ℕ, Text, ◌==◌,
  if◌then◌else◌,
}

abbrev pub escrow_gas_estimation : ℕ
escrow_gas_estimation = 200_000

abbrev pub gas_buffer : ℕ
gas_buffer = 30_000

abbrev pub ether : ℕ
ether = 10 ^ 18

unfoldable pub effective_gas : ℕ → ℕ
effective_gas simulated = simulated + gas_buffer

unfoldable pub surplus_token : Bool → Text → Text → Text
surplus_token is_sell_order sell_token buy_token = if is_sell_order then buy_token else sell_token

pub record Candidate : Type 0 where
  pub order_sell : ℕ
  pub order_buy : ℕ
  pub proposal_sell : ℕ
  pub proposal_buy : ℕ
  pub is_sell_order : Bool
  pub gas_cost : ℕ

-- Callers divide by `b` only where it is not 0, so the truncated `-` is exact.
unfoldable pub ceil_div : ℕ → ℕ → ℕ
ceil_div a b = (a + b - 1) / b

unfoldable pub scaled_to_fill : Candidate → Bool → Option Candidate
scaled_to_fill c partially_fillable =
    if partially_fillable
    then (if c.is_sell_order
        then (if c.order_sell == 0
            then none
            else some (record c {
              order_sell = c.proposal_sell;
              order_buy = ceil_div (c.order_buy * c.proposal_sell) c.order_sell;
            }))
        else if c.order_buy == 0
        then none
        else some (record c {
          order_sell = (c.order_sell * c.proposal_buy) / c.order_buy;
          order_buy = c.proposal_buy;
        }))
    else some c

-- `x < 0n ? null : x`
abbrev nonneg : ℤ → Option ℕ
nonneg (pos n) = some n
nonneg (negsuc n) = none

surplus : Candidate → ℤ
surplus c =
    if c.is_sell_order then sub_ℕ c.proposal_buy c.order_buy else sub_ℕ c.order_sell c.proposal_sell

-- The surplus in wei, less the gas.
net_score : Candidate → ℕ → ℕ → Option ℕ
net_score c surplus_price s = nonneg (sub_ℕ ((s * surplus_price) / ether) c.gas_cost)

abbrev score_of : Candidate → ℕ → Option ℕ → Option ℕ
score_of c surplus_price none = none
score_of c surplus_price (some s) = net_score c surplus_price s

unfoldable pub score_proposal : Candidate → ℕ → Option ℕ
unfolding surplus net_score
score_proposal c surplus_price = score_of c surplus_price (nonneg (surplus c))

-- ===== src/Solve.antt =====
-- apps/byos/src/infra/api/solve.ts: the choice of the best candidate for one order of an auction.
pub mod Best
pub mod Limits
pub mod Auction
use byos_service_ts.Prelude.{
  ℕ, ◌+◌, ◌*◌, Bool, true, false, ◌&&◌, Option, none, some, List, [], ◌∷◌, Text, ltb, leb, ◌==◌,
  if◌then◌else◌, get_or,
}
use byos_service_ts.Domain.Scoring.{effective_gas, surplus_token, scaled_to_fill, score_proposal}
use byos_service_ts.Domain.GasCut.{GasCut, gas_cut_size}
use byos_service_ts.Domain.Proposal.{lower_of}
use byos_service_ts.Domain.Order.{OrderKind}
use byos_service_ts.Candidates.{Candidate}
use byos_service_ts.Domain.Scoring as Scoring

pub record AuctionOrder : Type 0 where
  pub uid : Text
  pub sell_token : Text
  pub buy_token : Text
  pub sell_amount : ℕ
  pub buy_amount : ℕ
  pub kind : OrderKind
  pub partially_fillable : Bool

-- `order.kind === "sell"`
abbrev pub is_sell_order : OrderKind → Bool
is_sell_order OrderKind.sell = true
is_sell_order OrderKind.buy = false

-- What the loop over one order's candidates reads: the order, the two reference prices of the
-- auction (0 where there is none), its gas price, and the clock in seconds.
pub record Market : Type 0 where
  pub order : AuctionOrder
  pub surplus_price : ℕ
  pub sell_token_price : ℕ
  pub gas_price : ℕ
  pub now : ℕ

pub record Bid : Type 0 where
  pub score : ℕ
  pub cut : GasCut

abbrev pub effective_buy : Candidate → ℕ
effective_buy c = lower_of c.simulation_buy_amount c.quote_buy_amount

-- The fill is more than the auction has left of the order.
abbrev pub exceeds : AuctionOrder → Candidate → Bool
exceeds o c =
    if is_sell_order o.kind
    then ltb o.sell_amount c.sell_amount
    else ltb o.buy_amount (effective_buy c)

abbrev pub scoring_candidate : Market → Candidate → Scoring.Candidate
scoring_candidate m c = record {
  order_sell = m.order.sell_amount;
  order_buy = m.order.buy_amount;
  proposal_sell = c.sell_amount;
  proposal_buy = effective_buy c;
  is_sell_order = is_sell_order m.order.kind;
  gas_cost = effective_gas c.gas_used * m.gas_price;
}

abbrev pub with_cut : ℕ → Option GasCut → Option Bid
with_cut score none = none
with_cut score (some cut) = some (record { score = score; cut = cut })

abbrev pub with_score : Market → Scoring.Candidate → Option ℕ → Option Bid
with_score m scaled none = none
with_score m scaled (some score) =
    if score == 0 then none else with_cut score (gas_cut_size scaled m.sell_token_price)

abbrev pub with_scaled : Market → Option Scoring.Candidate → Option Bid
with_scaled m none = none
with_scaled m (some scaled) = with_score m scaled (score_proposal scaled m.surplus_price)

-- The body of the loop; `none` is `continue`.
unfoldable pub bid_of : Market → Candidate → Option Bid
bid_of m c =
    if leb c.valid_until m.now
    then none
    else if m.order.partially_fillable && exceeds m.order c
    then none
    else with_scaled m (scaled_to_fill (scoring_candidate m c) m.order.partially_fillable)

pub record Choice : Type 0 where
  pub candidate : Candidate
  pub bid : Bid

abbrev pub best_score : Option Choice → ℕ
best_score none = 0
best_score (some b) = b.bid.score

abbrev pub better : Candidate → Option Bid → Option Choice → Option Choice
better c none best = best
better c (some b) best =
    if ltb (best_score best) b.score then some (record { candidate = c; bid = b }) else best

unfoldable pub choose : Market → List Candidate → Option Choice → Option Choice
choose m [] best = best
choose m (c ∷ cs) best = choose m cs (better c (bid_of m c) best)

unfoldable pub select_best : Market → List Candidate → Option Choice
unfolding choose
select_best m cs = choose m cs none

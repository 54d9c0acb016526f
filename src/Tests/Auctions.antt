-- ===== src/Tests/Auctions.antt =====
-- One auction with one order and two candidates for it.
use byos_service_ts.Prelude.{
  ◌==◌, ℕ, ◌+◌, ◌*◌, ◌/◌, ◌^◌, ◌<◌, ◌≡◌, refl, true, none, some, [], ◌∷◌, codes,
}
use byos_service_ts.Domain.Scoring.{ether, ceil_div, effective_gas, scaled_to_fill, score_proposal}
use byos_service_ts.Domain.Scoring as Scoring
use byos_service_ts.Domain.Scoring.Score.{Surplus}
use byos_service_ts.Domain.GasCut.{gas_cut_size}
use byos_service_ts.Domain.GasCut.Limits.{CoversGas, KeepsLimit}
use byos_service_ts.Domain.Order.{OrderKind}
use byos_service_ts.Store.Rows.{Tables}
use byos_service_ts.Store.Rows.{Tables}
use byos_service_ts.Candidates.{CandidateStore, get, snapshot_for_auction}
use byos_service_ts.Solve.{AuctionOrder, Market, Bid, scoring_candidate, bid_of, select_best}
use byos_service_ts.Solve.Best.{IsBest, select_best-IsBest}
use byos_service_ts.Solve.Limits.{bid_of-KeepsLimit}
use byos_service_ts.Solve.Auction.{AuctionInput, solve_auction}
use byos_service_ts.Solve.Auction.Flush.{IsLogged, solve_auction-IsLogged}
use byos_service_ts.Tests.Data.{candidate, no_tables}

abbrev auction_order : AuctionOrder
auction_order = record {
  uid = codes "0x77";
  sell_token = codes "0xS";
  buy_token = codes "0xB";
  sell_amount = 1000;
  buy_amount = 900;
  kind = OrderKind.sell;
  partially_fillable = true;
}

-- With a gas price of 0 the route's whole surplus is the score.
abbrev market : Market
market = record {
  order = auction_order;
  surplus_price = 10 ^ 18;
  sell_token_price = 10 ^ 18;
  gas_price = 0;
  now = 50;
}

abbrev the_bid : Bid
the_bid = record { score = 13; cut = record { amount = 0; executed_amount = 500 } }

select_best-IsBest_example :
    IsBest market
      (candidate 7 ∷ candidate 8 ∷ [])
      (select_best market (candidate 7 ∷ candidate 8 ∷ []))
select_best-IsBest_example = select_best-IsBest market (candidate 7 ∷ candidate 8 ∷ [])

bid_of-KeepsLimit_example :
    (50 < 90)
    × ((s : Scoring.Candidate) × (scaled_to_fill (scoring_candidate market (candidate 7)) true
          ≡ some s)
        × (0 < 13)
        × ((t : ℕ) × Surplus s t × (13 + s.gas_cost ≡ (t * 10 ^ 18) / ether))
        × CoversGas s (10 ^ 18) 0
        × KeepsLimit s the_bid.cut)
bid_of-KeepsLimit_example =
    bid_of-KeepsLimit market (candidate 7) the_bid
      (unfold bid_of scaled_to_fill score_proposal gas_cut_size ceil_div effective_gas in refl)

abbrev auction_input : AuctionInput
auction_input = record {
  auction_id = 5;
  orders = auction_order ∷ [];
  reference_price = λ token. some (10 ^ 18);
  gas_price = 0;
  collateral_ratio_bps = 4;
  min_collateral = 10 ^ 16;
}

-- The write of candidate 7 would throw.
abbrev solved_auction : CandidateStore × Tables
solved_auction =
    solve_auction (λ i. i == 7) auction_input 50 (candidate 7 ∷ candidate 8 ∷ []) no_tables

solve_auction-IsLogged_example :
    (get 8 solved_auction.0 ≡ none) × IsLogged 8 solved_auction.1.proposals_log
solve_auction-IsLogged_example =
    solve_auction-IsLogged (λ i. i == 7) auction_input auction_order [] 50 8
      (candidate 7 ∷ candidate 8 ∷ []) no_tables refl (unfold snapshot_for_auction in refl) refl

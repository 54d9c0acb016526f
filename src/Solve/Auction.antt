-- ===== src/Solve/Auction.antt =====
-- /solve of apps/byos/src/infra/api/solve.ts for an auction with an id, from the snapshot of the
-- candidates on: a choice for each order, its insertion, and the flush of all other candidates.
pub mod Flush
use byos_service_ts.Prelude.{
  ℕ, Bool, true, false, not, Option, none, some, List, [], ◌∷◌, Text, text_eq, to_lower, map,
  filter, any, includes, ltb, ◌==◌, if◌then◌else◌, get_or,
}
use byos_service_ts.Domain.Status.{Status, RejectionReason}
use byos_service_ts.Domain.Scoring.{surplus_token}
use byos_service_ts.Domain.Collateral.{per_proposal_cl}
use byos_service_ts.Domain.Proposal.{Proposal}
use byos_service_ts.Candidates.{Candidate, CandidateStore, remove_all, snapshot_for_auction}
use byos_service_ts.Store.Rows.{Tables}
use byos_service_ts.Store.Creation.{SolutionPrices, insert_as_submitted, write_to_log}
use byos_service_ts.Solve.{AuctionOrder, Market, Choice, is_sell_order, effective_buy, select_best}

pub record AuctionInput : Type 0 where
  pub auction_id : ℕ
  pub orders : List AuctionOrder
  pub reference_price : Text → Option ℕ
  pub gas_price : ℕ
  pub collateral_ratio_bps : ℕ
  pub min_collateral : ℕ

-- What the loop over the orders has so far.
pub record Round : Type 0 where
  pub tables : Tables
  pub selected_ids : List ℕ
  pub selected_order_uids : List Text

abbrev pub of_order : Text → List Candidate → List Candidate
of_order uid snapshot = filter (λ c. text_eq (to_lower c.order_uid) (to_lower uid)) snapshot

abbrev pub market_of : AuctionInput → AuctionOrder → ℕ → Market
market_of a o now = record {
  order = o;
  surplus_price =
      get_or (a.reference_price (surplus_token (is_sell_order o.kind) o.sell_token o.buy_token)) 0;
  sell_token_price = get_or (a.reference_price o.sell_token) 0;
  gas_price = a.gas_price;
  now = now;
}

-- The clearing prices of buildSolution.
abbrev pub clearing_prices_of : AuctionOrder → Candidate → List (Text × ℕ)
clearing_prices_of o c = (o.sell_token, effective_buy c) ∷ (o.buy_token, c.sell_amount) ∷ []

abbrev pub solution_prices : AuctionInput → AuctionOrder → Candidate → SolutionPrices
solution_prices a o c = record {
  sell_token_ref_price = get_or (a.reference_price o.sell_token) 0;
  surplus_token_ref_price =
      get_or (a.reference_price (surplus_token (is_sell_order o.kind) o.sell_token o.buy_token)) 0;
  auction_gas_price = a.gas_price;
  clearing_prices = clearing_prices_of o c;
}

abbrev pub cap_of : AuctionInput → Candidate → Option ℕ → Option ℕ
cap_of a c none = none
cap_of a c (some price) =
    if ltb 0 price
    then some (per_proposal_cl c.sell_amount (some price) a.collateral_ratio_bps a.min_collateral)
    else none

-- An insert that fails leaves the order without a solution.
abbrev pub inserted : AuctionOrder → Candidate → Round → Option Tables → Round
inserted o c round none = round
inserted o c round (some tables) = record {
  tables = tables;
  selected_ids = c.id ∷ round.selected_ids;
  selected_order_uids = to_lower o.uid ∷ round.selected_order_uids;
}

abbrev pub submit_choice : AuctionInput → AuctionOrder → ℕ → Round → Option Choice → Round
submit_choice a o now round none = round
submit_choice a o now round (some b) = inserted o b.candidate round (
    insert_as_submitted b.candidate (get_or (a.reference_price o.buy_token) 0)
      (solution_prices a o b.candidate) (cap_of a b.candidate (a.reference_price o.sell_token)) now
      round.tables)

-- The loop over the orders.
unfoldable pub solve_orders : AuctionInput → List Candidate → ℕ → List AuctionOrder → Round → Round
solve_orders a snapshot now [] round = round
solve_orders a snapshot now (o ∷ os) round =
    solve_orders a snapshot now os
      (submit_choice a o now round (select_best (market_of a o now) (of_order o.uid snapshot)))

-- Whether the order was won by another candidate.
abbrev pub flush_reason : List Text → Candidate → RejectionReason
flush_reason selected c =
    if any (λ uid. text_eq uid (to_lower c.order_uid)) selected
    then RejectionReason.subsolver_outbid
    else RejectionReason.auction_closed

-- The input that the flush passes to writeToLog; its id and times are not read.
abbrev pub flushed_input : Candidate → RejectionReason → ℕ → Proposal
flushed_input c reason now = record {
  id = c.id;
  sub_solver = c.sub_solver;
  auction_id = some c.auction_id;
  order_uid = c.order_uid;
  order_uid_hash = c.order_uid_hash;
  sell_amount = c.sell_amount;
  min_buy_amount = c.min_buy_amount;
  quote_buy_amount = c.quote_buy_amount;
  sell_token = c.sell_token;
  buy_token = c.buy_token;
  interactions = c.interactions;
  interactions_hash = c.interactions_hash;
  valid_until = c.valid_until;
  nonce = c.nonce;
  signature = c.signature;
  status = Status.rejected;
  rejection_reason = some reason;
  gas_used = some c.gas_used;
  trampoline = some c.trampoline;
  settlement_tx_hash = none;
  penalty_tx_hash = none;
  simulation_failure_params = none;
  created_at = now;
  status_changed_at = now;
  settlement_penalty_cap = none;
  sell_token_ref_price = some c.sell_token_ref_price;
  buy_token_ref_price = none;
  surplus_token_ref_price = none;
  auction_gas_price = none;
  clearing_prices = none;
  simulation_buy_amount = c.simulation_buy_amount;
}

-- The writes of the flush. `fails` says for which candidates the database throws, which is caught.
unfoldable pub flush_all : (fails : ℕ → Bool) → List Text → ℕ → List Candidate → Tables → Tables
flush_all fails selected now [] db = db
flush_all fails selected now (c ∷ cs) db =
    let reason = flush_reason selected c in
    flush_all fails selected now cs (
      if fails c.id
      then db
      else write_to_log c.id (flushed_input c reason now) Status.rejected (some reason) none now db)

abbrev pub to_flush : List ℕ → List Candidate → List Candidate
to_flush ids snapshot = filter (λ c. not (includes ids c.id)) snapshot

abbrev pub empty_round : Tables → Round
empty_round db = record { tables = db; selected_ids = []; selected_order_uids = [] }

abbrev pub solve_nonempty :
    (fails : ℕ → Bool) → AuctionInput → ℕ → CandidateStore → Tables → CandidateStore × Tables
solve_nonempty fails a now store db =
    let snapshot = snapshot_for_auction a.auction_id store in
    let round = solve_orders a snapshot now a.orders (empty_round db) in
    let rest = to_flush round.selected_ids snapshot in
    (
      remove_all (map (λ c. c.id) rest) (remove_all round.selected_ids store),
      flush_all fails round.selected_order_uids now rest round.tables,
    )

abbrev pub solve_from :
    (fails : ℕ → Bool)
    → AuctionInput
    → ℕ
    → CandidateStore
    → Tables
    → List AuctionOrder
    → CandidateStore × Tables
solve_from fails a now store db [] = (store, db)
solve_from fails a now store db (o ∷ os) = solve_nonempty fails a now store db

-- An auction without orders is answered before anything is read.
unfoldable pub solve_auction :
    (fails : ℕ → Bool) → AuctionInput → ℕ → CandidateStore → Tables → CandidateStore × Tables
solve_auction fails a now store db = solve_from fails a now store db a.orders

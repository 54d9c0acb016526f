-- ===== src/Tests/Data.antt =====
-- The data of the tests: one sell order, one candidate for it, and the tables after its selection.
use byos_service_ts.Prelude.{ℕ, true, some, [], Text, codes}
use byos_service_ts.Domain.Proposal.{Proposal}
use byos_service_ts.Domain.Order.{OrderKind, OrderStatus, SigningScheme, CowOrder, OrderRecord}
use byos_service_ts.Candidates.{Candidate}
use byos_service_ts.Store.Rows.{ProposalRow, Tables}
use byos_service_ts.Store.Validity.{IsValid}
use byos_service_ts.Store.Creation.{SolutionPrices, submitted_row, insert_live}

abbrev pub alice : Text
alice = codes "0xaa"

abbrev pub tx_one : Text
tx_one = codes "0xF1"

abbrev pub order : CowOrder
order = record {
  sell_token = codes "0xS";
  buy_token = codes "0xB";
  receiver = alice;
  sell_amount = 1000;
  buy_amount = 900;
  valid_to = 100;
  app_data = codes "0x0";
  fee_amount = 0;
  kind = OrderKind.sell;
  partially_fillable = true;
  signing_scheme = SigningScheme.eip712;
  signature = codes "0x1";
}

abbrev pub order_record : OrderRecord
order_record = record {
  order = order;
  pre_interactions = [];
  post_interactions = [];
  erc20_balances = true;
  status = OrderStatus.open_order;
}

abbrev pub candidate : ℕ → Candidate
candidate i = record {
  id = i;
  sub_solver = alice;
  order_uid = codes "0x77";
  order_uid_hash = codes "0x78";
  sell_amount = 500;
  min_buy_amount = 460;
  quote_buy_amount = 465;
  sell_token = codes "0xs";
  buy_token = codes "0xb";
  interactions = [];
  interactions_hash = codes "0x79";
  valid_until = 90;
  nonce = i;
  signature = codes "0x2";
  auction_id = 5;
  gas_used = 100_000;
  trampoline = codes "0x7";
  simulation_buy_amount = some 463;
  sell_token_ref_price = 10;
  created_at = 1;
}

abbrev pub prices : SolutionPrices
prices = record {
  sell_token_ref_price = 10;
  surplus_token_ref_price = 11;
  auction_gas_price = 3;
  clearing_prices = [];
}

abbrev pub row : ℕ → ProposalRow
row i = submitted_row (candidate i) 11 prices (some 50) 2

abbrev pub proposal : ℕ → Proposal
proposal i = (row i).proposal

abbrev pub no_tables : Tables
no_tables = record { proposals = []; proposals_log = [] }

abbrev pub two_live : Tables
two_live = insert_live (row 8) (insert_live (row 7) no_tables)

pub no_tables-IsValid : IsValid no_tables
no_tables-IsValid = record {
  consistent = record { live_unique = tt; log_unique = tt; mirrors = λ i. tt; cites = λ i. tt };
  live = λ i. tt;
}

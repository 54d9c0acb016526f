-- ===== src/Tests/Opened.antt =====
-- An auction that replica 1 has opened, while the requests of two others finish.
use byos_service_ts.Prelude.{◌^◌, ◌≡◌, refl, true, none, some, [], ◌∷◌, codes, arith}
use byos_service_ts.Domain.Order.{OrderRecord}
use byos_service_ts.Auction.Wire.{AuctionState, map_each, serialize_state, deserialize_state}
use byos_service_ts.Auction.Wire.RoundTrip.{deserialize-serialize}
use byos_service_ts.Auction.{Json, Replicas, Fetched, set_auction_state, get_auction_state}
use byos_service_ts.Auction.Finished.{ReadsBack, finish_all, get_auction_state-others}
use byos_service_ts.Auction.Orders.{
  AuctionOrder, record_with, auction_order_to_record, map_kind, map_signing_scheme,
}
use byos_service_ts.Auction.Orders.Signed.{IsSigned, auction_order_to_record-IsSigned}
use byos_service_ts.Domain.Order.{OrderKind, SigningScheme}
use byos_service_ts.Tests.Data.{order_record}

abbrev opened : AuctionState
opened = record {
  auction_id = 5;
  orders = (codes "0x77", order_record) ∷ [];
  prices = (codes "0xs", 10 ^ 18) ∷ (codes "0xb", 0) ∷ [];
  gas_price = 7;
}

-- A format with one text.
abbrev one_text : Json
one_text = record {
  stringify = λ x. codes "{}";
  parse = λ t. some (serialize_state opened);
  lua_auction_id = λ t. some 5;
}

opened-ReadsBack : ReadsBack one_text opened
opened-ReadsBack = record {
  first = b'{';
  others = codes "}";
  is_text = refl;
  parses = refl;
  finds_id = refl;
}

abbrev started : Replicas
started = record { current = λ r. none; shared = none }

get_auction_state-others_example :
    get_auction_state one_text 2 119_000
      (finish_all one_text ((2, 4) ∷ (1, 6) ∷ []) (set_auction_state one_text 1 0 opened started))
    ≡ Fetched.answered (some opened)
get_auction_state-others_example =
    get_auction_state-others one_text opened 1 0 ((2, 4) ∷ (1, 6) ∷ []) 2 119_000 started
      opened-ReadsBack refl (omega arith, (omega arith, tt)) (omega arith)

deserialize-serialize_example : deserialize_state (serialize_state opened) ≡ some opened
deserialize-serialize_example = deserialize-serialize opened

abbrev smart_order : AuctionOrder
smart_order = record {
  sell_token = codes "0xS";
  buy_token = codes "0xB";
  full_sell_amount = 1000;
  full_buy_amount = 900;
  valid_to = 100;
  kind = codes "sell";
  owner = codes "0xabcd";
  receiver = none;
  partially_fillable = true;
  pre_interactions = [];
  post_interactions = [];
  sell_token_source = codes "erc20";
  buy_token_destination = codes "erc20";
  app_data = codes "0x0";
  signing_scheme = codes "eip1271";
  signature = codes "0x12";
}

abbrev smart_record : OrderRecord
smart_record = record_with smart_order [] [] OrderKind.sell SigningScheme.eip1271

auction_order_to_record-IsSigned_example : IsSigned smart_order smart_record
auction_order_to_record-IsSigned_example =
    auction_order_to_record-IsSigned smart_order smart_record (codes "abcd") refl
      (unfold auction_order_to_record map_kind map_signing_scheme map_each in refl)

-- ===== src/Auction/Orders.antt =====
-- auctionOrderToRecord of apps/byos/src/infra/auction-state.ts: the order of a /solve request as
-- the validation reads it.
pub mod Signed
use byos_service_ts.Prelude.{
  ℕ, Bool, true, false, ◌&&◌, Option, none, some, List, [], ◌∷◌, ◌++◌, Text, text_eq, codes, get_or,
  if◌then◌else◌,
}
use byos_service_ts.Domain.Proposal.{Interaction}
use byos_service_ts.Auction.Wire.{SerializedInteraction, map_each, deserialize_interaction, ◌>>=◌}
use byos_service_ts.Domain.Order.{OrderKind, SigningScheme, OrderStatus, CowOrder, OrderRecord}

-- The schema has checked the decimal amounts and the kind; the scheme is any string. A value of an
-- interaction is in decimal digits where it is a number: BigInt's hexadecimal is not modelled.
pub record AuctionOrder : Type 0 where
  pub sell_token : Text
  pub buy_token : Text
  pub full_sell_amount : ℕ
  pub full_buy_amount : ℕ
  pub valid_to : ℕ
  pub kind : Text
  pub owner : Text
  pub receiver : Option Text
  pub partially_fillable : Bool
  pub pre_interactions : List SerializedInteraction
  pub post_interactions : List SerializedInteraction
  pub sell_token_source : Text
  pub buy_token_destination : Text
  pub app_data : Text
  pub signing_scheme : Text
  pub signature : Text

abbrev pub zero_address : Text
zero_address = codes "0x0000000000000000000000000000000000000000"

-- `none` is an exception.
unfoldable pub map_kind : Text → Option OrderKind
map_kind kind =
    if text_eq kind (codes "sell")
    then some OrderKind.sell
    else if text_eq kind (codes "buy")
    then some OrderKind.buy
    else none

unfoldable pub map_signing_scheme : Text → Option SigningScheme
map_signing_scheme scheme =
    if text_eq scheme (codes "eip712")
    then some SigningScheme.eip712
    else if text_eq scheme (codes "ethsign")
    then some SigningScheme.eth_sign
    else if text_eq scheme (codes "eip1271")
    then some SigningScheme.eip1271
    else if text_eq scheme (codes "presign")
    then some SigningScheme.pre_sign
    else none

-- `slice(2)`
abbrev pub after_two : Text → Text
after_two [] = []
after_two (a ∷ []) = []
after_two (a ∷ b ∷ t) = t

unfoldable pub settlement_signature : (scheme owner signature : Text) → Text
settlement_signature scheme owner signature =
    if text_eq scheme (codes "presign")
    then owner
    else if text_eq scheme (codes "eip1271")
    then codes "0x" ++ (after_two owner ++ after_two signature)
    else signature

abbrev pub erc20_only : AuctionOrder → Bool
erc20_only o =
    text_eq o.sell_token_source (codes "erc20") && text_eq o.buy_token_destination (codes "erc20")

abbrev pub record_with :
    AuctionOrder → (pre post : List Interaction) → OrderKind → SigningScheme → OrderRecord
record_with o pre post kind scheme = record {
  order = record {
    sell_token = o.sell_token;
    buy_token = o.buy_token;
    receiver = get_or o.receiver zero_address;
    sell_amount = o.full_sell_amount;
    buy_amount = o.full_buy_amount;
    valid_to = o.valid_to;
    app_data = o.app_data;
    fee_amount = 0;
    kind = kind;
    partially_fillable = o.partially_fillable;
    signing_scheme = scheme;
    signature = settlement_signature o.signing_scheme o.owner o.signature;
  };
  pre_interactions = pre;
  post_interactions = post;
  erc20_balances = erc20_only o;
  status = OrderStatus.open_order;
}

unfoldable pub auction_order_to_record : AuctionOrder → Option OrderRecord
auction_order_to_record o = do
  pre ← map_each deserialize_interaction o.pre_interactions
  post ← map_each deserialize_interaction o.post_interactions
  kind ← map_kind o.kind
  scheme ← map_signing_scheme o.signing_scheme
  some (record_with o pre post kind scheme)

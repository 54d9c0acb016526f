-- ===== src/Auction/Wire.antt =====
-- apps/byos/src/infra/auction-state.ts: how an auction's state is written for the shared store. A
-- bigint becomes its decimal digits, a map the list of its entries; an enumeration's value is its
-- string and stays as it is.
pub mod RoundTrip
use byos_service_ts.Prelude.{
  ℕ, zero, suc, ◌+◌, ◌-◌, ◌*◌, ◌/◌, ◌%◌, Bool, true, false, ◌&&◌, Option, none, some, List, [], ◌∷◌,
  Text, map, leb, ltb, if◌then◌else◌,
}
use byos_service_ts.Domain.Proposal.{Interaction}
use byos_service_ts.Domain.Order.{OrderKind, SigningScheme, OrderStatus, CowOrder, OrderRecord}

-- Maps as the lists of their entries, in their order.
pub record AuctionState : Type 0 where
  pub auction_id : ℕ
  pub orders : List (Text × OrderRecord)
  pub prices : List (Text × ℕ)
  pub gas_price : ℕ

pub record SerializedInteraction : Type 0 where
  pub target : Text
  pub value : Text
  pub call_data : Text

pub record SerializedOrder : Type 0 where
  pub sell_token : Text
  pub buy_token : Text
  pub receiver : Text
  pub sell_amount : Text
  pub buy_amount : Text
  pub valid_to : ℕ
  pub app_data : Text
  pub fee_amount : Text
  pub kind : OrderKind
  pub partially_fillable : Bool
  pub signing_scheme : SigningScheme
  pub signature : Text

pub record SerializedOrderRecord : Type 0 where
  pub order : SerializedOrder
  pub pre_interactions : List SerializedInteraction
  pub post_interactions : List SerializedInteraction
  pub erc20_balances : Bool
  pub status : OrderStatus

pub record SerializedState : Type 0 where
  pub auction_id : ℕ
  pub orders : List (Text × SerializedOrderRecord)
  pub prices : List (Text × Text)
  pub gas_price : Text

-- The last `fuel` digits at most, before the text `after`.
unfoldable pub digits_onto : (fuel n : ℕ) → (after : Text) → Text
digits_onto zero n after = after
digits_onto (suc fuel) n after = elim (ltb n 10) [
  | true ↦ (b'0' + n) ∷ after
  | false ↦ digits_onto fuel (n / 10) ((b'0' + n % 10) ∷ after)
]

-- `n.toString()`: a number has fewer digits than its successor counts.
abbrev pub to_string : ℕ → Text
to_string n = digits_onto (suc n) n []

abbrev pub read_after : ℕ → ℕ → ℕ
read_after n c = n * 10 + (c - b'0')

unfoldable pub read_digits : ℕ → Text → Option ℕ
read_digits n [] = some n
read_digits n (c ∷ t) =
    let rest = read_digits (read_after n c) t in if leb b'0' c && leb c b'9' then rest else none

-- `BigInt(t)` on decimal digits, the only texts that toString writes here; the empty text is 0.
abbrev pub big_int : Text → Option ℕ
big_int t = read_digits 0 t

infixl 5 ◌>>=◌
abbrev pub ◌>>=◌ {ℓ κ} : {A : Type ℓ} {B : Type κ} → Option A → (A → Option B) → Option B
none >>= f = none
some a >>= f = f a

abbrev pub consed {ℓ} : {A : Type ℓ} → Option A → Option (List A) → Option (List A)
consed none rest = none
consed (some a) none = none
consed (some a) (some xs) = some (a ∷ xs)

-- `map` with a function that may throw.
unfoldable pub map_each {ℓ κ} :
    {A : Type ℓ} {B : Type κ} → (A → Option B) → List A → Option (List B)
map_each f [] = some []
map_each f (a ∷ xs) = consed (f a) (map_each f xs)

abbrev pub serialize_interaction : Interaction → SerializedInteraction
serialize_interaction i = record {
  target = i.target;
  value = to_string i.value;
  call_data = i.call_data;
}

unfoldable pub deserialize_interaction : SerializedInteraction → Option Interaction
deserialize_interaction i = do
  value ← big_int i.value
  some (record { target = i.target; value = value; call_data = i.call_data })

abbrev pub serialize_order : CowOrder → SerializedOrder
serialize_order o = record {
  sell_token = o.sell_token;
  buy_token = o.buy_token;
  receiver = o.receiver;
  sell_amount = to_string o.sell_amount;
  buy_amount = to_string o.buy_amount;
  valid_to = o.valid_to;
  app_data = o.app_data;
  fee_amount = to_string o.fee_amount;
  kind = o.kind;
  partially_fillable = o.partially_fillable;
  signing_scheme = o.signing_scheme;
  signature = o.signature;
}

abbrev pub serialize_record : OrderRecord → SerializedOrderRecord
serialize_record r = record {
  order = serialize_order r.order;
  pre_interactions = map serialize_interaction r.pre_interactions;
  post_interactions = map serialize_interaction r.post_interactions;
  erc20_balances = r.erc20_balances;
  status = r.status;
}

unfoldable pub deserialize_order : SerializedOrder → Option CowOrder
deserialize_order o = do
  sell_amount ← big_int o.sell_amount
  buy_amount ← big_int o.buy_amount
  fee_amount ← big_int o.fee_amount
  some (record {
    sell_token = o.sell_token;
    buy_token = o.buy_token;
    receiver = o.receiver;
    sell_amount = sell_amount;
    buy_amount = buy_amount;
    valid_to = o.valid_to;
    app_data = o.app_data;
    fee_amount = fee_amount;
    kind = o.kind;
    partially_fillable = o.partially_fillable;
    signing_scheme = o.signing_scheme;
    signature = o.signature;
  })

unfoldable pub deserialize_record : SerializedOrderRecord → Option OrderRecord
deserialize_record r = do
  order ← deserialize_order r.order
  pre_interactions ← map_each deserialize_interaction r.pre_interactions
  post_interactions ← map_each deserialize_interaction r.post_interactions
  some (record {
    order = order;
    pre_interactions = pre_interactions;
    post_interactions = post_interactions;
    erc20_balances = r.erc20_balances;
    status = r.status;
  })

unfoldable pub serialize_state : AuctionState → SerializedState
serialize_state s = record {
  auction_id = s.auction_id;
  orders = map (λ e. (e.0, serialize_record e.1)) s.orders;
  prices = map (λ e. (e.0, to_string e.1)) s.prices;
  gas_price = to_string s.gas_price;
}

abbrev pub order_entry : Text × SerializedOrderRecord → Option (Text × OrderRecord)
order_entry (key, r) = do read ← deserialize_record r; some (key, read)

abbrev pub price_entry : Text × Text → Option (Text × ℕ)
price_entry (key, t) = do read ← big_int t; some (key, read)

unfoldable pub deserialize_state : SerializedState → Option AuctionState
deserialize_state s = do
  orders ← map_each order_entry s.orders
  prices ← map_each price_entry s.prices
  gas_price ← big_int s.gas_price
  some (record {
    auction_id = s.auction_id;
    orders = orders;
    prices = prices;
    gas_price = gas_price;
  })

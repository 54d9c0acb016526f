-- ===== src/Auction.antt =====
-- apps/byos/src/infra/auction-state.ts: the auction that proposals are validated against, kept by
-- the replica that serves /solve and, for the others, in a shared store. The shared store is Redis,
-- of which GET, SET with an expiry and DEL on one key are used; JSON and Lua's reading of it are
-- parameters.
pub mod Wire
pub mod Orders
pub mod Finished
use byos_service_ts.Prelude.{
  ℕ, ◌+◌, ◌*◌, Bool, true, false, Option, none, some, List, [], ◌∷◌, Text, ltb, ◌==◌, if◌then◌else◌,
}
use byos_service_ts.Auction.Wire.{AuctionState, SerializedState, serialize_state, deserialize_state}

-- `lua_auction_id` is what the script finds as the id in the text, if it is there.
pub record Json : Type 0 where
  pub stringify : SerializedState → Text
  pub parse : Text → Option SerializedState
  pub lua_auction_id : Text → Option ℕ

-- The text under the key and when it expires.
pub record SharedState : Type 0 where
  pub data_ : Text
  pub expires_at : ℕ

-- `current` is each replica's own copy, `shared` the backend.
pub record Replicas : Type 0 where
  pub current : ℕ → Option AuctionState
  pub shared : Option SharedState

abbrev pub auction_ttl_secs : ℕ
auction_ttl_secs = 120

abbrev pub with_current :
    ℕ → Option AuctionState → (ℕ → Option AuctionState) → ℕ → Option AuctionState
with_current r x current r' = if r' == r then x else current r'

unfoldable pub set_auction_state : Json → (replica now : ℕ) → AuctionState → Replicas → Replicas
set_auction_state json r now s d = record {
  current = with_current r (some s) d.current;
  shared = some (record {
    data_ = json.stringify (serialize_state s);
    expires_at = now + auction_ttl_secs * 1000;
  });
}

-- `GET` of the key.
abbrev pub live_data : ℕ → Option SharedState → Option Text
live_data now none = none
live_data now (some x) = if ltb now x.expires_at then some x.data_ else none

-- A call answers, or throws where the text cannot be read.
pub data Fetched : Type 0 where
  answered : Option AuctionState → Fetched
  threw : Fetched

abbrev pub deserialized : Option AuctionState → Fetched
deserialized none = Fetched.threw
deserialized (some s) = Fetched.answered (some s)

abbrev pub parsed : Option SerializedState → Fetched
parsed none = Fetched.threw
parsed (some x) = deserialized (deserialize_state x)

-- An empty text is no state.
abbrev pub from_data : Json → Option Text → Fetched
from_data json none = Fetched.answered none
from_data json (some []) = Fetched.answered none
from_data json (some (c ∷ t)) = parsed (json.parse (c ∷ t))

abbrev pub or_shared : Json → Option Text → Option AuctionState → Fetched
or_shared json data_ none = from_data json data_
or_shared json data_ (some s) = Fetched.answered (some s)

unfoldable pub get_auction_state : Json → (replica now : ℕ) → Replicas → Fetched
get_auction_state json r now d = or_shared json (live_data now d.shared) (d.current r)

unfoldable pub clear_auction_state : (replica : ℕ) → Replicas → Replicas
clear_auction_state r d = record { current = with_current r none d.current; shared = none }

abbrev pub owned_by : ℕ → Option ℕ → Bool
owned_by auction_id none = false
owned_by auction_id (some i) = i == auction_id

abbrev pub unless_owned : ℕ → Option AuctionState → Option AuctionState
unless_owned auction_id none = none
unless_owned auction_id (some s) = if s.auction_id == auction_id then none else some s

-- The script of `clearIfOwned`.
abbrev pub clear_shared : Json → (auction_id : ℕ) → Option SharedState → Option SharedState
clear_shared json auction_id none = none
clear_shared json auction_id (some x) =
    if owned_by auction_id (json.lua_auction_id x.data_) then none else some x

unfoldable pub clear_auction_state_if_owned : Json → (replica auction_id : ℕ) → Replicas → Replicas
clear_auction_state_if_owned json r auction_id d = record {
  current = with_current r (unless_owned auction_id (d.current r)) d.current;
  shared = clear_shared json auction_id d.shared;
}

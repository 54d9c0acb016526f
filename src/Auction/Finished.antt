-- ===== src/Auction/Finished.antt =====
-- Requests to /solve that finish, and the auctions of others.
use byos_service_ts.Prelude.{
  ℕ, ◌+◌, ◌*◌, ◌<◌, ◌≡◌, ◌≢◌, ◌⊎◌, refl, subst, true, false, Option, none, some, List, [], ◌∷◌,
  Text, All, ltb, ◌==◌, arith, Bool-cases, inl, inr,
}
use byos_service_ts.Auction.Wire.{AuctionState, serialize_state}
use byos_service_ts.Auction.Wire.RoundTrip.{deserialize-serialize}
use byos_service_ts.Auction.{
  Json, Replicas, Fetched, auction_ttl_secs, with_current, set_auction_state, from_data,
  get_auction_state, unless_owned, clear_auction_state_if_owned,
}

-- What is relied on for a state: its text is not empty, and is read back by JSON.parse and by Lua.
pub record ReadsBack (json : Json) (s : AuctionState) : Type 0 where
  pub first : ℕ
  pub others : Text
  pub is_text : json.stringify (serialize_state s) ≡ first ∷ others
  pub parses : json.parse (first ∷ others) ≡ some (serialize_state s)
  pub finds_id : json.lua_auction_id (first ∷ others) ≡ some s.auction_id

-- A replica and the auction whose request finishes there.
abbrev pub Finish : Type 0
Finish = ℕ × ℕ

abbrev pub finish_all : Json → List Finish → Replicas → Replicas
finish_all json [] d = d
finish_all json ((r, i) ∷ fs) d = finish_all json fs (clear_auction_state_if_owned json r i d)

-- None, or the state.
abbrev NoneOr : AuctionState → Option AuctionState → Type 0
NoneOr s o = (o ≡ none) ⊎ (o ≡ some s)

-- The store has the state until then, and this replica has it too or has none.
record Has (json : Json) (s : AuctionState) (until r : ℕ) (d : Replicas) : Type 0 where
  pub is_shared :
      d.shared ≡ some (record { data_ = json.stringify (serialize_state s); expires_at = until })
  pub is_current : NoneOr s (d.current r)

unless_owned-NoneOr :
    (s : AuctionState) (i : ℕ) (o : Option AuctionState)
    → (s.auction_id == i) ≡ false
    → NoneOr s o
    → NoneOr s (unless_owned i o)
unless_owned-NoneOr s i o other (inl e) = rw e (inl refl)
unless_owned-NoneOr s i o other (inr e) = rw (e, other) (inr refl)

with_current-NoneOr :
    (s : AuctionState) (i r q : ℕ) (current : ℕ → Option AuctionState)
    → (s.auction_id == i) ≡ false
    → NoneOr s (current r)
    → NoneOr s (with_current q (unless_owned i (current q)) current r)
with_current-NoneOr s i r q current other h = elim (Bool-cases (r == q)) [
  | inl same ↦
      let equal : r ≡ q = ground arith in
      rw same
        (unless_owned-NoneOr s i (current q) other (subst (λ k. NoneOr s (current k)) equal h))
  | inr different ↦ rw different h
]

finish-Has :
    (json : Json) (s : AuctionState) (until r q i : ℕ) (d : Replicas)
    → ReadsBack json s
    → i ≢ s.auction_id
    → Has json s until r d
    → Has json s until r (clear_auction_state_if_owned json q i d)
unfolding clear_auction_state_if_owned
finish-Has json s until r q i d back differs h =
    let other : (s.auction_id == i) ≡ false = ground arith in
    record {
      is_shared = rw (h.is_shared, back.is_text, back.finds_id, other) refl;
      is_current = with_current-NoneOr s i r q d.current other h.is_current;
    }

finish_all-Has :
    (json : Json) (s : AuctionState) (until r : ℕ) (fs : List Finish) (d : Replicas)
    → ReadsBack json s
    → All (λ f. f.1 ≢ s.auction_id) fs
    → Has json s until r d
    → Has json s until r (finish_all json fs d)
finish_all-Has json s until r [] d back others h = h
finish_all-Has json s until r ((q, i) ∷ fs) d back (other, others) h =
    finish_all-Has json s until r fs (clear_auction_state_if_owned json q i d) back others
      (finish-Has json s until r q i d back other h)

set-Has :
    (json : Json) (s : AuctionState) (r q now : ℕ) (d : Replicas)
    → d.current r ≡ none
    → Has json s (now + auction_ttl_secs * 1000) r (set_auction_state json q now s d)
unfolding set_auction_state
set-Has json s r q now d empty = record {
  is_shared = refl;
  is_current = elim (Bool-cases (r == q)) [
    | inl same ↦ rw same (inr refl)
    | inr different ↦ rw (different, empty) (inl refl)
  ];
}

from_data-back :
    (json : Json) (s : AuctionState)
    → ReadsBack json s
    → from_data json (some (json.stringify (serialize_state s))) ≡ Fetched.answered (some s)
from_data-back json s back = rw (back.is_text, back.parses, deserialize-serialize s) refl

Has-get :
    (json : Json) (s : AuctionState) (until r now : ℕ) (d : Replicas)
    → ReadsBack json s
    → now < until
    → Has json s until r d
    → get_auction_state json r now d ≡ Fetched.answered (some s)
unfolding get_auction_state
Has-get json s until r now d back live h = elim (h.is_current) [
  | inl e ↦
      let fresh : ltb now until ≡ true = ground arith in
      rw (e, h.is_shared, fresh) (from_data-back json s back)
  | inr e ↦ rw e refl
]

-- Where a state's text is read back, an auction that one replica has opened is what every replica
-- without a copy of its own reads for the next 120 seconds, whichever requests for other auctions
-- finish on whichever replicas in the meantime.
pub get_auction_state-others :
    (json : Json) (s : AuctionState) (opener now : ℕ) (fs : List Finish) (r later : ℕ)
    (d : Replicas)
    → ReadsBack json s
    → d.current r ≡ none
    → All (λ f. f.1 ≢ s.auction_id) fs
    → later < now + 120 * 1000
    → get_auction_state json r later (finish_all json fs (set_auction_state json opener now s d))
      ≡ Fetched.answered (some s)
get_auction_state-others json s opener now fs r later d back empty others live =
    Has-get json s (now + auction_ttl_secs * 1000) r later _ back live (
      finish_all-Has json s (now + auction_ttl_secs * 1000) r fs _ back others
        (set-Has json s r opener now d empty))

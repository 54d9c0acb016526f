-- ===== src/Candidates.antt =====
-- apps/byos/src/infra/candidate-store.ts: validated proposals held in memory until /solve. The
-- JavaScript Map is a list of candidates in insertion order, with no id twice.
pub mod Laws
use byos_service_ts.Prelude.{
  ℕ, Bool, true, false, Option, none, some, List, [], ◌∷◌, Text, filter, is_some, ◌==◌,
  if◌then◌else◌,
}
use byos_service_ts.Domain.Proposal.{Interaction}
use byos_service_ts.Domain.Order.{token_eq}
use byos_service_ts.Store.Table.{find, delete_where}

pub record Candidate : Type 0 where
  pub id : ℕ
  pub sub_solver : Text
  pub order_uid : Text
  pub order_uid_hash : Text
  pub sell_amount : ℕ
  pub min_buy_amount : ℕ
  pub quote_buy_amount : ℕ
  pub sell_token : Text
  pub buy_token : Text
  pub interactions : List Interaction
  pub interactions_hash : Text
  pub valid_until : ℕ
  pub nonce : ℕ
  pub signature : Text
  pub auction_id : ℕ
  pub gas_used : ℕ
  pub trampoline : Text
  pub simulation_buy_amount : Option ℕ
  pub sell_token_ref_price : ℕ
  pub created_at : ℕ

abbrev pub candidate_id : Candidate → ℕ
candidate_id c = c.id

abbrev pub CandidateStore : Type 0
CandidateStore = List Candidate

-- `Map.set`: an old entry keeps its place.
unfoldable pub add : Candidate → CandidateStore → CandidateStore
add c [] = c ∷ []
add c (d ∷ s) = if c.id == d.id then c ∷ s else d ∷ add c s

unfoldable pub get : ℕ → CandidateStore → Option Candidate
get i s = find candidate_id i s

unfoldable pub remove : ℕ → CandidateStore → Bool × CandidateStore
unfolding get
remove i s = (is_some (get i s), delete_where (λ c. i == c.id) s)

unfoldable pub remove_all : List ℕ → CandidateStore → CandidateStore
remove_all [] s = s
remove_all (i ∷ ids) s = remove_all ids (delete_where (λ c. i == c.id) s)

unfoldable pub snapshot_for_auction : ℕ → CandidateStore → List Candidate
snapshot_for_auction auction s = filter (λ c. c.auction_id == auction) s

abbrev pub owned_by : Text → Option Candidate → Option Candidate
owned_by owner none = none
owned_by owner (some c) = if token_eq c.sub_solver owner then some c else none

unfoldable pub get_for_owner : ℕ → Text → CandidateStore → Option Candidate
unfolding get
get_for_owner i owner s = owned_by owner (get i s)

unfoldable pub get_all : CandidateStore → List Candidate
get_all s = s

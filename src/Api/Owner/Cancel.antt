-- ===== src/Api/Owner/Cancel.antt =====
-- DELETE /proposal/:id of apps/byos/src/infra/api/routes.ts: what a cancellation changes.
use byos_service_ts.Prelude.{ℕ, ◌≡◌, ◌⊎◌, refl, ap, false, Option, none, some, Text, to_lower}
use byos_service_ts.Domain.Proposal.{Proposal}
use byos_service_ts.Domain.Status.{Status}
use byos_service_ts.Domain.Order.{token_eq}
use byos_service_ts.Store.Rows.{ProposalRow}
use byos_service_ts.Candidates.{Candidate, get_for_owner}
use byos_service_ts.Store.Reads.{get_live}
use byos_service_ts.Api.{Kind, thrown}
use byos_service_ts.Api.Ingestion.{Service}
use byos_service_ts.Api.Owner.{not_cancellable, cancel_proposal}

abbrev pub NotOwn : Text → Option Proposal → Type 0
NotOwn canceller none = Unit {0}
NotOwn canceller (some p) = token_eq p.sub_solver canceller ≡ false

missing_lem :
    (canceller : Text) (o : Option Proposal)
    → NotOwn canceller o
    → not_cancellable canceller o ≡ thrown Kind.proposal_not_found
missing_lem canceller none h = refl
missing_lem canceller (some p) h = rw h refl

-- A cancellation by someone who owns neither a candidate nor a live row with the id changes nothing
-- and is answered as for an id that does not exist.
pub cancel_proposal-missing :
    (i : ℕ) (canceller : Text) (now : ℕ) (s : Service)
    → get_for_owner i canceller s.store ≡ none
    → NotOwn canceller (get_live i s.tables)
    → cancel_proposal i canceller now s ≡ (thrown Kind.proposal_not_found, s)
unfolding cancel_proposal
cancel_proposal-missing i canceller now s h other =
    rw h (ap (λ a. (a, s)) (missing_lem canceller (get_live i s.tables) other))

-- What the candidate's sub-solver signed stands in the row, its texts in lower case.
abbrev pub IsOf : Candidate → ProposalRow → Type 0
IsOf c l =
    (l.sub_solver ≡ to_lower c.sub_solver)
    × (l.order_uid ≡ to_lower c.order_uid)
    × (l.sell_amount ≡ c.sell_amount)
    × (l.min_buy_amount ≡ c.min_buy_amount)
    × (l.quote_buy_amount ≡ c.quote_buy_amount)
    × (l.sell_token ≡ to_lower c.sell_token)
    × (l.buy_token ≡ to_lower c.buy_token)
    × (l.interactions_hash ≡ to_lower c.interactions_hash)
    × (l.valid_until ≡ c.valid_until)
    × (l.nonce ≡ c.nonce)
    × (l.signature ≡ to_lower c.signature)

-- A log row that was there is kept; a new one is cancelled and has what was signed.
abbrev pub IsCancelled : Candidate → (before after : Option ProposalRow) → Type 0
IsCancelled c before after =
    (l : ProposalRow) × (after ≡ some l)
    × ((before ≡ some l) ⊎ ((before ≡ none) × (l.status ≡ Status.cancelled) × IsOf c l))

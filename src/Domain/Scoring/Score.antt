-- ===== src/Domain/Scoring/Score.antt =====
-- What `scoreProposal` of apps/byos/src/domain/scoring.ts computes.
use byos_service_ts.Prelude.{
  ℕ, ◌+◌, ◌-◌, ◌*◌, ◌/◌, ◌≡◌, ◌↔◌, true, false, some, arith, Bool-cases, inl, inr, ◌⊎◌,
}
use byos_service_ts.Domain.Scoring.{Candidate, ether, score_proposal}

-- The improvement over the order's limit, where there is one.
abbrev pub Surplus : Candidate → ℕ → Type 0
Surplus c s =
    ((c.is_sell_order ≡ true) × (c.order_buy + s ≡ c.proposal_buy))
    ⊎ ((c.is_sell_order ≡ false) × (c.proposal_sell + s ≡ c.order_sell))

-- A proposal scores `v` exactly when it beats the order's limit by some surplus
-- whose worth in wei is `v` more than the gas cost.
pub score_proposal_iff :
    (c : Candidate) (price v : ℕ)
    → (score_proposal c price ≡ some v)
      ↔ ((s : ℕ) × Surplus c s × (v + c.gas_cost ≡ (s * price) / ether))
unfolding score_proposal
score_proposal_iff c price v = (
  λ h. elim (Bool-cases c.is_sell_order) [
    | inl sell ↦ (c.proposal_buy - c.order_buy, inl (sell, ground arith), ground arith)
    | inr buy ↦ (c.order_sell - c.proposal_sell, inr (buy, ground arith), ground arith)
  ],
  λ h. ground arith,
)

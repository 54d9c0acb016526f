-- ===== src/Solve/Limits.antt =====
-- What a bid of apps/byos/src/infra/api/solve.ts guarantees the user and the service.
use byos_service_ts.Prelude.{
  ℕ, ◌+◌, ◌*◌, ◌/◌, ◌<◌, ◌≡◌, inl, inr, refl, sym, subst, ap, ◌∙◌, Bool, true, false, ◌&&◌, Option,
  none, some, arith, leb, ◌==◌, if◌then◌else◌, Bool-cases,
}
use byos_service_ts.Domain.Scoring.{ether, scaled_to_fill, score_proposal}
use byos_service_ts.Domain.Scoring as Scoring
use byos_service_ts.Domain.Scoring.Score.{Surplus, score_proposal_iff}
use byos_service_ts.Domain.GasCut.{GasCut, gas_cut_size}
use byos_service_ts.Domain.GasCut.Limits.{CoversGas, KeepsLimit, gas_cut_size_iff}
use byos_service_ts.Candidates.{Candidate}
use byos_service_ts.Solve.{
  Market, Bid, exceeds, scoring_candidate, with_cut, with_score, with_scaled, bid_of,
}

-- The bid stems from this scaled candidate.
abbrev pub ScoredAs : Market → Bid → Scoring.Candidate → Type 0
ScoredAs m b s =
    (0 < b.score)
    × (score_proposal s m.surplus_price ≡ some b.score)
    × (gas_cut_size s m.sell_token_price ≡ some b.cut)

abbrev CutIs : ℕ → Option GasCut → Option Bid → Type 0
CutIs n cut none = Unit {0}
CutIs n cut (some b) = (b.score ≡ n) × (cut ≡ some b.cut)

with_cut-CutIs : (n : ℕ) (cut : Option GasCut) → CutIs n cut (with_cut n cut)
with_cut-CutIs n none = tt
with_cut-CutIs n (some cut) = (refl, refl)

cut_bid :
    (m : Market) (s : Scoring.Candidate) (b : Bid) (n : ℕ)
    → score_proposal s m.surplus_price ≡ some n
    → (n == 0) ≡ false
    → with_cut n (gas_cut_size s m.sell_token_price) ≡ some b
    → ScoredAs m b s
cut_bid m s b n e z h =
    let (same, cut) =
      subst (CutIs n (gas_cut_size s m.sell_token_price)) h
        (with_cut-CutIs n (gas_cut_size s m.sell_token_price)) in
    (rw same (ground arith), e ∙ ap (λ k. some k) (sym same), cut)

picked : (t : Bool) (o : Option Bid) → t ≡ false → (if t then none else o) ≡ o
picked t o h = rw h refl

score_bid :
    (m : Market) (s : Scoring.Candidate) (b : Bid) (o : Option ℕ)
    → score_proposal s m.surplus_price ≡ o
    → with_score m s o ≡ some b
    → ScoredAs m b s
score_bid m s b none e h = absurd cc
score_bid m s b (some n) e h = elim (Bool-cases (n == 0)) [
  | inl z ↦ absurd (ground arith)
  | inr nz ↦
      cut_bid m s b n e nz
        (sym (picked (n == 0) (with_cut n (gas_cut_size s m.sell_token_price)) nz) ∙ h)
]

scaled_bid :
    (m : Market) (b : Bid) (o : Option Scoring.Candidate)
    → with_scaled m o ≡ some b
    → (s : Scoring.Candidate) × (o ≡ some s) × ScoredAs m b s
scaled_bid m b none h = absurd cc
scaled_bid m b (some s) h = (s, refl, score_bid m s b (score_proposal s m.surplus_price) refl h)

branches :
    (late over : Bool) (o : Option Bid) (b : Bid)
    → (if late then none else if over then none else o) ≡ some b
    → (late ≡ false) × (over ≡ false) × (o ≡ some b)
branches true over o b h = absurd cc
branches false true o b h = absurd cc
branches false false o b h = (refl, refl, h)

bid_shape :
    (m : Market) (c : Candidate) (b : Bid)
    → bid_of m c ≡ some b
    → (leb c.valid_until m.now ≡ false)
      × ((m.order.partially_fillable && exceeds m.order c) ≡ false)
      × (with_scaled m (scaled_to_fill (scoring_candidate m c) m.order.partially_fillable) ≡ some b)
unfolding bid_of
bid_shape m c b h =
    branches (leb c.valid_until m.now) (m.order.partially_fillable && exceeds m.order c)
      (with_scaled m (scaled_to_fill (scoring_candidate m c) m.order.partially_fillable)) b h

-- A candidate bids only while it is valid; and the limits that scoring scaled to its fill are
-- then beaten by a surplus worth the score, which is above 0, and the gas; the cut is the least
-- that pays the gas in sell tokens, and the execution around it keeps those limits.
pub bid_of-KeepsLimit :
    (m : Market) (c : Candidate) (b : Bid)
    → bid_of m c ≡ some b
    → (m.now < c.valid_until)
      × ((s : Scoring.Candidate) × (scaled_to_fill
              (scoring_candidate m c)
              m.order.partially_fillable
            ≡ some s)
          × (0 < b.score)
          × ((t : ℕ) × Surplus s t × (b.score + s.gas_cost ≡ (t * m.surplus_price) / ether))
          × CoversGas s m.sell_token_price b.cut.amount
          × KeepsLimit s b.cut)
bid_of-KeepsLimit m c b h =
    let (live, fits, scored) = bid_shape m c b h in
    let (s, e, (positive, score, cut)) =
      scaled_bid m b (scaled_to_fill (scoring_candidate m c) m.order.partially_fillable) scored in
    let kept = (gas_cut_size_iff s m.sell_token_price b.cut).0 cut in
    (
      ground arith,
      (s, e, positive, (score_proposal_iff s m.surplus_price b.score).0 score, kept.1, kept.2),
    )

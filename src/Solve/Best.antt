-- ===== src/Solve/Best.antt =====
-- The candidate that the loop of apps/byos/src/infra/api/solve.ts chooses for an order.
use byos_service_ts.Prelude.{
  ℕ, ◌≤◌, ◌<◌, ◌≡◌, ◌⊎◌, inl, inr, refl, sym, subst, ◌∙◌, Bool, true, false, ◌&&◌, Option, none,
  some, List, [], ◌∷◌, All, arith, ltb, leb, ◌==◌, if◌then◌else◌, Bool-cases,
}
use byos_service_ts.Domain.Scoring.{scaled_to_fill, score_proposal}
use byos_service_ts.Domain.Scoring as Scoring
use byos_service_ts.Domain.GasCut.{GasCut, gas_cut_size}
use byos_service_ts.Candidates.{Candidate}
use byos_service_ts.Solve.{
  Market, Bid, Choice, exceeds, scoring_candidate, with_cut, with_score, with_scaled, bid_of,
  best_score, better, choose, select_best,
}

abbrev pub AtMost : ℕ → Option Bid → Type 0
AtMost n none = Unit {0}
AtMost n (some b) = b.score ≤ n

abbrev pub IsPositive : Option Bid → Type 0
IsPositive none = Unit {0}
IsPositive (some b) = 0 < b.score

-- One of the candidates is the choice's, with the choice's bid.
abbrev pub Offered : Market → Choice → List Candidate → Type 0
Offered m b [] = ⊥
Offered m b (c ∷ cs) = ((c ≡ b.candidate) × (bid_of m c ≡ some b.bid)) ⊎ Offered m b cs

abbrev pub IsBest : Market → List Candidate → Option Choice → Type 0
IsBest m cs none = All (λ c. bid_of m c ≡ none) cs
IsBest m cs (some b) = Offered m b cs × All (λ c. AtMost b.bid.score (bid_of m c)) cs

with_cut-IsPositive : (n : ℕ) (cut : Option GasCut) → 0 < n → IsPositive (with_cut n cut)
with_cut-IsPositive n none h = tt
with_cut-IsPositive n (some cut) h = h

with_score-IsPositive :
    (m : Market) (s : Scoring.Candidate) (o : Option ℕ) → IsPositive (with_score m s o)
with_score-IsPositive m s none = tt
with_score-IsPositive m s (some n) = elim (Bool-cases (n == 0)) [
  | inl z ↦ rw z tt
  | inr nz ↦ rw nz (with_cut-IsPositive n (gas_cut_size s m.sell_token_price) (ground arith))
]

with_scaled-IsPositive : (m : Market) (o : Option Scoring.Candidate) → IsPositive (with_scaled m o)
with_scaled-IsPositive m none = tt
with_scaled-IsPositive m (some s) = with_score-IsPositive m s (score_proposal s m.surplus_price)

bid_of-IsPositive : (m : Market) (c : Candidate) → IsPositive (bid_of m c)
unfolding bid_of
bid_of-IsPositive m c = elim (Bool-cases (leb c.valid_until m.now)) [
  | inl late ↦ rw late tt
  | inr live ↦ rw live (elim (Bool-cases (m.order.partially_fillable && exceeds m.order c)) [
    | inl over ↦ rw over tt
    | inr fits ↦ rw fits (
        with_scaled-IsPositive m
          (scaled_to_fill (scoring_candidate m c) m.order.partially_fillable))
  ])
]

better_grows :
    (c : Candidate) (o : Option Bid) (best : Option Choice)
    → best_score best ≤ best_score (better c o best)
better_grows c none best = omega arith
better_grows c (some b) best = elim (Bool-cases (ltb (best_score best) b.score)) [
  | inl more ↦ rw more (ground arith)
  | inr less ↦ rw less (omega arith)
]

better-AtMost :
    (c : Candidate) (o : Option Bid) (best : Option Choice)
    → AtMost (best_score (better c o best)) o
better-AtMost c none best = tt
better-AtMost c (some b) best = elim (Bool-cases (ltb (best_score best) b.score)) [
  | inl more ↦ rw more (omega arith)
  | inr less ↦ rw less (ground arith)
]

AtMost-mono : (a b : ℕ) (o : Option Bid) → a ≤ b → AtMost a o → AtMost b o
AtMost-mono a b none h k = tt
AtMost-mono a b (some x) h k = omega arith

module _ (m : Market) where
  choose_grows :
      (cs : List Candidate) (best : Option Choice) → best_score best ≤ best_score (choose m cs best)
  unfolding choose
  choose_grows [] best = omega arith
  choose_grows (c ∷ cs) best =
      omega (arith, better_grows c (bid_of m c) best, choose_grows cs (better c (bid_of m c) best))

  choose-AtMost :
      (cs : List Candidate) (best : Option Choice)
      → All (λ c. AtMost (best_score (choose m cs best)) (bid_of m c)) cs
  unfolding choose
  choose-AtMost [] best = tt
  choose-AtMost (c ∷ cs) best =
      let next = better c (bid_of m c) best in
      (
        AtMost-mono (best_score next) (best_score (choose m cs next)) (bid_of m c)
            (choose_grows cs next) (better-AtMost c (bid_of m c) best),
        choose-AtMost cs next,
      )

  -- The choice is the old one, or is offered by the list.
  abbrev Comes : List Candidate → Option Choice → Option Choice → Type 0
  Comes cs best none = best ≡ none
  Comes cs best (some b) = (best ≡ some b) ⊎ Offered m b cs

  abbrev MadeOf : Candidate → Option Choice → Type 0
  MadeOf c none = Unit {0}
  MadeOf c (some b) = (c ≡ b.candidate) × (bid_of m c ≡ some b.bid)

  taken :
      (t : Bool) {b : Choice} (best : Option Choice)
      → t ≡ true
      → (if t then some b else best) ≡ some b
  taken t best h = rw h refl

  passed :
      (t : Bool) (b : Choice) (best : Option Choice)
      → t ≡ false
      → (if t then some b else best) ≡ best
  passed t b best h = rw h refl

  better-none :
      (c : Candidate) (o : Option Bid) (best : Option Choice) → better c o best ≡ none → best ≡ none
  better-none c none best h = h
  better-none c (some x) none h = refl
  better-none c (some x) (some b) h = elim (Bool-cases (ltb b.bid.score x.score)) [
    | inl more ↦ absurd (ground arith)
    | inr less ↦ absurd (ground arith)
  ]

  better_comes :
      (c : Candidate) (cs : List Candidate) (best : Option Choice) (b : Choice) (o : Option Bid)
      → bid_of m c ≡ o
      → better c o best ≡ some b
      → (best ≡ some b) ⊎ Offered m b (c ∷ cs)
  better_comes c cs best b none e h = inl h
  better_comes c cs best b (some x) e h = elim (Bool-cases (ltb (best_score best) x.score)) [
    | inl more ↦ inr (
        inl
          (subst (MadeOf c) (sym (taken (ltb (best_score best) x.score) best more) ∙ h) (refl, e)))
    | inr less ↦ inl (
        sym (passed (ltb (best_score best) x.score) (record { candidate = c; bid = x }) best less)
        ∙ h)
  ]

  choose-Comes :
      (cs : List Candidate) (best r : Option Choice) → choose m cs best ≡ r → Comes cs best r
  unfolding choose
  choose-Comes [] best none h = h
  choose-Comes [] best (some b) h = inl h
  choose-Comes (c ∷ cs) best none h =
      better-none c (bid_of m c) best (choose-Comes cs (better c (bid_of m c) best) none h)
  choose-Comes (c ∷ cs) best (some b) h =
      elim (choose-Comes cs (better c (bid_of m c) best) (some b) h) [
        | inl now ↦ better_comes c cs best b (bid_of m c) refl now
        | inr later ↦ inr (inr later)
      ]

  no_bid : (o : Option Bid) → IsPositive o → AtMost 0 o → o ≡ none
  no_bid none p a = refl
  no_bid (some b) p a = absurd (omega (arith, p, a))

  no_bids :
      (cs : List Candidate) → All (λ c. AtMost 0 (bid_of m c)) cs → All (λ c. bid_of m c ≡ none) cs
  no_bids [] a = tt
  no_bids (c ∷ cs) a = (no_bid (bid_of m c) (bid_of-IsPositive m c) a.0, no_bids cs a.1)

  chosen-IsBest :
      (cs : List Candidate) (r : Option Choice)
      → Comes cs none r
      → All (λ c. AtMost (best_score r) (bid_of m c)) cs
      → IsBest m cs r
  chosen-IsBest cs none h a = no_bids cs a
  chosen-IsBest cs (some b) h a = elim h [ inl never ↦ absurd cc | inr offered ↦ (offered, a) ]

-- The loop's choice is a candidate of the list with its own bid, which no candidate's bid
-- exceeds; and where it chooses none, no candidate has a bid.
pub select_best-IsBest : (m : Market) (cs : List Candidate) → IsBest m cs (select_best m cs)
unfolding select_best
select_best-IsBest m cs =
    chosen-IsBest m cs (choose m cs none) (choose-Comes m cs none (choose m cs none) refl)
      (choose-AtMost m cs none)

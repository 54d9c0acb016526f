-- ===== src/Domain/Order/Scored.antt =====
-- How the envelope of apps/byos/src/domain/order.ts meets the scoring of scoring.ts.
use native.Mathlib.Nat.{mul-le-mul_right}
use byos_service_ts.Prelude.{
  ℕ, ◌*◌, ◌≤◌, ◌<◌, ◌≡◌, ◌⊎◌, inl, inr, Bool, true, false, none, some, arith, refl, ap,
  Option-cases,
}
use byos_service_ts.Domain.Proposal.{Proposal}
use byos_service_ts.Domain.Scoring.{Candidate, scaled_to_fill}
use byos_service_ts.Domain.Scoring.Fill.{
  WithinLimit, MeetsLimitPrice, scaled_to_fill-WithinLimit_iff, scaled_to_fill-none_iff,
}
use byos_service_ts.Domain.Order.{OrderKind, CowOrder, OrderRecord, check_envelope}
use byos_service_ts.Domain.Order.Envelope.{FitsKind, check_envelope_iff}

abbrev pub is_sell : OrderKind → Bool
is_sell OrderKind.sell = true
is_sell OrderKind.buy = false

-- The candidate that is scored for a proposal that delivers `delivered`.
abbrev pub candidate_of : OrderKind → CowOrder → Proposal → ℕ → ℕ → Candidate
candidate_of k o p delivered gas_cost = record {
  order_sell = o.sell_amount;
  order_buy = o.buy_amount;
  proposal_sell = p.sell_amount;
  proposal_buy = delivered;
  is_sell_order = is_sell k;
  gas_cost = gas_cost;
}

-- Scaling succeeds where there is something to divide by.
scaled_within :
    (c : Candidate)
    → (c.is_sell_order ≡ true → 0 < c.order_sell)
    → (c.is_sell_order ≡ false → 0 < c.order_buy)
    → MeetsLimitPrice c
    → (s : Candidate) × (scaled_to_fill c true ≡ some s) × WithinLimit s
scaled_within c hs hb m = elim (Option-cases (scaled_to_fill c true)) [
  | inl e ↦ absurd (ground (arith, (scaled_to_fill-none_iff c true).0 e))
  | inr (s, e) ↦ (s, e, (scaled_to_fill-WithinLimit_iff c s e).1 m)
]

within_of :
    (k : OrderKind) (partially_fillable : Bool) (o : CowOrder) (p : Proposal) (d g : ℕ)
    → FitsKind k partially_fillable o p
    → p.min_buy_amount ≤ d
    → (k ≡ OrderKind.sell) ⊎ (partially_fillable ≡ true)
    → (s : Candidate) × (scaled_to_fill (candidate_of k o p d g) partially_fillable ≡ some s)
      × WithinLimit s
unfolding scaled_to_fill
within_of OrderKind.sell false o p d g f h e =
    (candidate_of OrderKind.sell o p d g, refl, inl (refl, omega arith))
within_of OrderKind.buy false o p d g f h e = absurd (ground arith)
within_of OrderKind.sell true o p d g f h e =
    scaled_within (candidate_of OrderKind.sell o p d g) (λ _. omega arith) (λ never. cc)
      (omega (arith, mul-le-mul_right {m = p.min_buy_amount} {n = d} o.sell_amount h))
within_of OrderKind.buy true o p d g f h e =
    scaled_within (candidate_of OrderKind.buy o p d g) (λ never. cc) (λ _. omega arith)
      (omega (
        arith,
        mul-le-mul_right {m = p.min_buy_amount} {n = d} o.sell_amount h,
        ap (λ (t : ℕ). t * o.sell_amount) f.0,
      ))

-- A proposal that passes the envelope is never below the order's limit when it is scored, as long
-- as the route delivers at least `minBuyAmount`: scaling succeeds and the candidate is within its
-- limits. Fill-or-kill buy orders are left out, whose sell amount the envelope does not test.
pub check_envelope-WithinLimit :
    (r : OrderRecord) (p : Proposal) (delivered gas_cost : ℕ)
    → check_envelope r p ≡ none
    → p.min_buy_amount ≤ delivered
    → (r.order.kind ≡ OrderKind.sell) ⊎ (r.order.partially_fillable ≡ true)
    → (s : Candidate) × (scaled_to_fill
          (candidate_of r.order.kind r.order p delivered gas_cost)
          r.order.partially_fillable
        ≡ some s)
      × WithinLimit s
check_envelope-WithinLimit r p d g h k o =
    within_of r.order.kind r.order.partially_fillable r.order p d g ((check_envelope_iff r p).0 h).4
      k o

-- ===== src/Domain/Scoring/Fill.antt =====
-- What `scaledToFill` of apps/byos/src/domain/scoring.ts does to an order's limits.
use native.Mathlib.Nat.{div-lt_iff_lt-mul, le-div_iff_mul-le}
use byos_service_ts.Prelude.{
  ℕ, suc, ◌+◌, ◌-◌, ◌*◌, ◌/◌, ◌≤◌, ◌<◌, ◌≡◌, ◌↔◌, Bool, true, false, none, some, arith, ◌⊎◌,
}
use byos_service_ts.Domain.Scoring.{Candidate, ceil_div, scaled_to_fill}

-- The rounded-up quotient is the least number whose multiple by the divisor reaches the dividend.
pub ceil_div-le_iff : (a b c : ℕ) → 0 < b → (ceil_div a b ≤ c) ↔ (a ≤ c * b)
unfolding ceil_div
ceil_div-le_iff a b c h = (
  λ p. omega (arith, (div-lt_iff_lt-mul {x = a + b - 1} {y = suc c} h).0 (omega arith)),
  λ p. omega (arith, (div-lt_iff_lt-mul {x = a + b - 1} {y = suc c} h).1 (omega arith)),
)

pub le_div_iff : (k x y : ℕ) → 0 < k → (x ≤ y / k) ↔ (x * k ≤ y)
le_div_iff k x y h = le-div_iff_mul-le h

-- The proposal stays inside the limits that the candidate carries.
abbrev pub WithinLimit : Candidate → Type 0
WithinLimit c =
    ((c.is_sell_order ≡ true) × (c.order_buy ≤ c.proposal_buy))
    ⊎ ((c.is_sell_order ≡ false) × (c.proposal_sell ≤ c.order_sell))

-- The proposal's price is no worse than the order's limit price, cross-multiplied.
abbrev pub MeetsLimitPrice : Candidate → Type 0
MeetsLimitPrice c = c.proposal_sell * c.order_buy ≤ c.proposal_buy * c.order_sell

-- Scaling a partially fillable order to the proposal's fill neither loosens nor tightens the
-- limit: the scaled candidate is inside its limits exactly when the price is.
pub scaled_to_fill-WithinLimit_iff :
    (c s : Candidate) → scaled_to_fill c true ≡ some s → WithinLimit s ↔ MeetsLimitPrice c
unfolding scaled_to_fill
scaled_to_fill-WithinLimit_iff c s h = (
  λ w. ground (
    arith,
    ceil_div-le_iff (c.order_buy * c.proposal_sell) c.order_sell c.proposal_buy,
    le_div_iff c.order_buy c.proposal_sell (c.order_sell * c.proposal_buy),
  ),
  λ m. ground (
    arith,
    ceil_div-le_iff (c.order_buy * c.proposal_sell) c.order_sell c.proposal_buy,
    le_div_iff c.order_buy c.proposal_sell (c.order_sell * c.proposal_buy),
  ),
)

-- Scaling fails exactly on a partially fillable order with nothing to divide by.
pub scaled_to_fill-none_iff :
    (c : Candidate) (partially_fillable : Bool)
    → (scaled_to_fill c partially_fillable ≡ none) ↔ (
        (partially_fillable ≡ true)
        × (((c.is_sell_order ≡ true) × (c.order_sell ≡ 0))
            ⊎ ((c.is_sell_order ≡ false) × (c.order_buy ≡ 0))))
unfolding scaled_to_fill
scaled_to_fill-none_iff c p = (λ h. ground arith, λ h. ground arith)

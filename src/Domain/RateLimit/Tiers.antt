-- ===== src/Domain/RateLimit/Tiers.antt =====
-- The tiers of apps/byos/src/domain/rate-limit.ts: bounds and order.
use native.Mathlib.Nat.{mul-le-mul_right}
use byos_service_ts.Prelude.{ℕ, ◌*◌, ◌/◌, ◌≤◌, ◌<◌, ◌≡◌, some, arith}
use byos_service_ts.Domain.Scoring.Fill.{le_div_iff}
use byos_service_ts.Domain.RateLimit.{TierParams, clamp, rate_for_balance}

div_mono : (a b k : ℕ) → 0 < k → a ≤ b → a / k ≤ b / k
div_mono a b k h l =
    (le_div_iff k (a / k) b h).1 (omega (arith, (le_div_iff k (a / k) a h).0 (omega arith)))

clamp_mono :
    (r s : ℕ) (p : TierParams)
    → r ≤ s
    → p.min_rate ≤ p.max_rate
    → (p.min_rate ≤ clamp r p) × (clamp r p ≤ clamp s p) × (clamp s p ≤ p.max_rate)
clamp_mono r s p h m = ground arith

-- With a unit above 0 and a floor below the ceiling, every balance has a rate between the two,
-- and a larger balance has no smaller rate.
pub rate_for_balance_mono :
    (balance larger : ℕ) (p : TierParams)
    → balance ≤ larger
    → 0 < p.rate_unit_wei
    → p.min_rate ≤ p.max_rate
    → (r : ℕ) × ((s : ℕ) × (rate_for_balance balance p ≡ some r)
        × (rate_for_balance larger p ≡ some s)
        × (p.min_rate ≤ r)
        × (r ≤ s)
        × (s ≤ p.max_rate))
unfolding rate_for_balance
rate_for_balance_mono balance larger p h u m =
    let few = (balance / p.rate_unit_wei) * p.rate_per_unit in
    let many = (larger / p.rate_unit_wei) * p.rate_per_unit in
    let units = div_mono balance larger p.rate_unit_wei u h in
    let bounds =
      clamp_mono few many p
        (mul-le-mul_right {m = balance / p.rate_unit_wei} {n = larger / p.rate_unit_wei}
          p.rate_per_unit units)
        m in
    (clamp few p, (clamp many p, ground arith, ground arith, bounds.0, bounds.1, bounds.2))

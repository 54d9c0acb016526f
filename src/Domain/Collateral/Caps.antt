-- ===== src/Domain/Collateral/Caps.antt =====
-- Bounds on the caps of apps/byos/src/domain/collateral.ts.
use native.Mathlib.Nat.{mul-le-mul_right}
use byos_service_ts.Prelude.{
  ℕ, ◌*◌, ◌/◌, ◌≤◌, ◌≡◌, ◌⊎◌, refl, Option, none, some, ℤ, pos, ◌+ℤ◌, ◌≤ℤ◌, int_laws, arith,
}
use byos_service_ts.Domain.Collateral.{
  penalty_cap, per_proposal_cl, available_collateral, native_sell_value,
}

-- The cap is the lesser of the two bounds of the policy: it is below both, and equal to one.
pub penalty_cap-min :
    (value ratio min_collateral : ℕ)
    → let cap = penalty_cap (some value) ratio min_collateral in
      (cap ≤ min_collateral)
      × (cap ≤ (value * ratio) / 10_000)
      × ((cap ≡ min_collateral) ⊎ (cap ≡ (value * ratio) / 10_000))
unfolding penalty_cap
penalty_cap-min value ratio m = ground arith

pub penalty_cap-le : (value : Option ℕ) (ratio m : ℕ) → penalty_cap value ratio m ≤ m
unfolding penalty_cap
penalty_cap-le value ratio m = ground arith

penalty_cap_mono :
    (v w ratio m : ℕ) → v ≤ w → penalty_cap (some v) ratio m ≤ penalty_cap (some w) ratio m
unfolding penalty_cap
penalty_cap_mono v w ratio m h = ground (arith, mul-le-mul_right {m = v} {n = w} ratio h)

native_sell_value_mono :
    (s t price : ℕ) → s ≤ t → native_sell_value s price ≤ native_sell_value t price
unfolding native_sell_value
native_sell_value_mono s t price h = ground (arith, mul-le-mul_right {m = s} {n = t} price h)

per_proposal_cl-unpriced :
    (s ratio m : ℕ)
    → (per_proposal_cl s none ratio m ≡ m) × (per_proposal_cl s (some 0) ratio m ≡ m)
unfolding per_proposal_cl penalty_cap
per_proposal_cl-unpriced s ratio m = (refl, refl)

per_proposal_cl_grows :
    (s t : ℕ) (price : Option ℕ) (ratio m : ℕ)
    → s ≤ t
    → per_proposal_cl s price ratio m ≤ per_proposal_cl t price ratio m
unfolding per_proposal_cl
per_proposal_cl_grows s t none ratio m h = omega arith
per_proposal_cl_grows s t (some price) ratio m h = ground (
  arith,
  penalty_cap_mono (native_sell_value s price) (native_sell_value t price) ratio m
      (native_sell_value_mono s t price h),
)

per_proposal_cl-le : (s : ℕ) (price : Option ℕ) (ratio m : ℕ) → per_proposal_cl s price ratio m ≤ m
unfolding per_proposal_cl
per_proposal_cl-le s price ratio m = penalty_cap-le _ ratio m

-- A larger order never reserves less; an order with no price, or with the price 0, reserves the
-- absolute bound, and no order reserves more.
pub per_proposal_cl_mono :
    (sell larger : ℕ) (price : Option ℕ) (ratio min_collateral : ℕ)
    → sell ≤ larger
    → (per_proposal_cl sell price ratio min_collateral
        ≤ per_proposal_cl larger price ratio min_collateral)
      × (per_proposal_cl larger price ratio min_collateral ≤ min_collateral)
      × (per_proposal_cl larger none ratio min_collateral ≡ min_collateral)
      × (per_proposal_cl larger (some 0) ratio min_collateral ≡ min_collateral)
per_proposal_cl_mono s t price ratio m h = (
  per_proposal_cl_grows s t price ratio m h,
  per_proposal_cl-le t price ratio m,
  (per_proposal_cl-unpriced t ratio m).0,
  (per_proposal_cl-unpriced t ratio m).1,
)

-- What is available is at most the escrow; it is all of the escrow for a buffer balance that is
-- not positive, and otherwise the escrow less the buffer balance.
pub available_collateral_lem :
    (escrow : ℕ) (buffer : ℤ)
    → (available_collateral escrow buffer ≤ℤ pos escrow)
      × (((buffer ≤ℤ pos 0) × (available_collateral escrow buffer ≡ pos escrow))
          ⊎ ((pos 0 ≤ℤ buffer) × (available_collateral escrow buffer +ℤ buffer ≡ pos escrow)))
unfolding available_collateral
available_collateral_lem escrow buffer = grind int_laws

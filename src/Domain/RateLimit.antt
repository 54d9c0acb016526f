-- ===== src/Domain/RateLimit.antt =====
-- apps/byos/src/domain/rate-limit.ts: the requests that a signer's escrow balance buys.
pub mod Tiers
use byos_service_ts.Prelude.{
  ℕ, ◌*◌, ◌/◌, ◌≤◌, ◌<◌, ◌≡◌, ◌⊎◌, inl, inr, refl, Bool, true, false, Option, none, some, arith,
  leb, ◌==◌, if◌then◌else◌, Bool-cases,
}

pub record TierParams : Type 0 where
  pub rate_unit_wei : ℕ
  pub rate_per_unit : ℕ
  pub min_rate : ℕ
  pub max_rate : ℕ

-- The floor is tested first.
abbrev pub clamp : ℕ → TierParams → ℕ
clamp rate p =
    if leb rate p.min_rate then p.min_rate else if leb p.max_rate rate then p.max_rate else rate

-- `none` is the error that a division by 0 throws.
unfoldable pub rate_for_balance : ℕ → TierParams → Option ℕ
rate_for_balance balance p =
    if p.rate_unit_wei == 0
    then none
    else some (clamp ((balance / p.rate_unit_wei) * p.rate_per_unit) p)

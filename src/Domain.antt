-- ===== src/Domain.antt =====
-- The pure decision rules of apps/byos/src/domain and the statuses of packages/common/src/dto.ts.
pub mod Status
pub mod Proposal
pub mod Scoring
pub mod GasCut
pub mod Collateral
pub mod Order
pub mod RateLimit
pub mod Audit

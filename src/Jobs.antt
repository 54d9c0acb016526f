-- ===== src/Jobs.antt =====
-- apps/byos/src/infra/jobs: what one tick of each worker does.
pub mod Outcomes
pub mod Reverts
pub mod Sources
pub mod Buffers
pub mod Penalties

-- ===== src/Store.antt =====
-- apps/byos/src/infra/storage.ts: the proposals table and its permanent mirror, proposals_log.
pub mod Reads
pub mod Queries
pub mod Table
pub mod Rows
pub mod Invariant
pub mod Validity
pub mod Operations
pub mod Creation
pub mod History
pub mod Behaviour
pub mod Once
pub mod Outcome

-- ===== src/Tests.antt =====
-- Concrete runs: each theorem that has hypotheses is applied at an input that meets them.
mod Data
mod Amounts
mod Orders
mod Lifecycle
mod Debits
mod Auctions
mod Buffers
mod Charges
mod Requests
mod Ticks
mod Validations
mod Opened
mod Enrolled
mod Abandoned

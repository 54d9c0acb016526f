-- ===== src/Lib.antt =====
-- A model of the BYOS service (apps/byos), which lets sub-solvers propose settlements of CoW
-- Protocol orders, picks the best proposal in each auction, follows its settlement, and charges
-- the sub-solver's escrow for failures.
--
-- The parts and how they interact. POST /proposals admits a signed request, runs the validation
-- pipeline on it and keeps what it accepts as a candidate in memory; what it refuses goes into the
-- log. /solve scores the candidates, takes the gas out of the sell amount, and inserts the
-- chosen one into the table `proposals`, which a trigger mirrors into `proposals_log`. The
-- driver's notifications and the workers then move its status by guarded writes, and the penalty
-- worker charges a failed one through a durable debit operation.
--
--   Domain       apps/byos/src/domain and packages/common/src/{dto,settlement,types}.ts
--     Scoring      scoring.ts: scaledToFill, scoreProposal
--     GasCut       gas-cut.ts: gasCutSize
--     Collateral   collateral.ts, penalty.ts: caps and debits
--     Order        order.ts: checkEnvelope, checkProposalSlippage
--     RateLimit    rate-limit.ts: rateForBalance
--     Proposal, Status, Audit   proposal.ts, dto.ts, audit.ts: the data
--   Candidates   apps/byos/src/infra/candidate-store.ts: the map of validated candidates
--   Store        apps/byos/src/infra/storage.ts, apps/byos/src/db/schema.ts: the proposal tables
--     Table, Rows  SQL statements on lists of rows; the trigger of
--                  apps/byos/drizzle/0014_proposal_lifecycle_refactor.sql
--     Outcome      applySettlementOutcome, transition; Outcome/Writes: applyLostOutcome,
--                  applyLateLostCorrection, recordPenalty, snapshotSettleFailedFromLog
--     Creation     writeToLog, insertAsSubmitted, redactOldLogEntries
--     Invariant, Validity, Operations, History   what the writes keep
--     Behaviour, Once   what single writes do
--   Debit        apps/byos/src/infra/storage.ts: the table debit_operations, its leases
--     Leases, Payload, Charges   who holds an operation, its bytes, what it charges
--     Worker       apps/byos/src/infra/jobs/penalty.ts: durableDebit
--   Solve        apps/byos/src/infra/api/solve.ts: the best candidate for an order
--     Auction      the loop over the orders, the insertions and the flush
--   Buffer       apps/byos/src/infra/storage.ts: the table buffer_entries
--   Attempts     apps/byos/src/infra/settlement-attempts.ts: the state of a settlement attempt, with
--                resumeDebitOperation of storage.ts
--   Validation   apps/byos/src/infra/blockchain/validator.ts, escrow.ts: the floor, its cache of
--                balances, the reads and the gates one by one
--     Gates        SimulationValidator.validate: the gates in their order
--     Escrow       InsufficientEscrowValidator, ProposalValidator.validate
--     Accepts, Floor   what is accepted
--   Auction      apps/byos/src/infra/auction-state.ts: each replica's copy of the auction and the
--                shared one
--     Wire         how a state is written for the shared store
--     Orders       auctionOrderToRecord
--     Finished     requests that finish beside an open auction
--   Api          apps/byos/src/infra/api: error.ts, the errors of the routes and their statuses
--     Limits       middleware.ts: the rate limits, exact on a window of requests
--     Request      routes.ts: parsing, the signature, the limits, the order of the checks
--     Ingestion    routes.ts: POST /proposals from the id on
--     Owner        routes.ts: cancelProposal and the reads of the owner's proposals
--     Notify       notify.ts: the driver's notification
--   Balances     apps/byos/src/infra/balance-cache.ts, apps/byos/src/infra/jobs/balance-refresh.ts:
--                the balances that the limits read, and their refresh
--   Jobs         apps/byos/src/infra/jobs
--     Outcomes     outcome-worker.ts: submitted proposals without an outcome
--     Reverts      penalty.ts: the charge of failed settlements
--     Sources      penalty.ts: the source id of a debit
--     Buffers      penalty.ts: the slash of outstanding buffers
--     Penalties    penalty.ts, settlement-attempts.ts: the charge of abandoned settlements
--   Store/Reads, Store/Queries   apps/byos/src/infra/storage.ts: the reads the routes and jobs use
--   Service      the routes and the outcome worker, interleaved as runs
--   Tests        witnesses at concrete data
--
-- Conventions. Bigints and decimal columns that cannot be negative are natural numbers, signed
-- ones are integers; division on bigints truncates. Addresses, hashes and hex strings are lists
-- of character codes, with toLowerCase on the letters A to Z. A table is a list of rows and a
-- transaction is a function on the tables; the database's locks and serialization make each
-- transaction one step, and interleavings are sequences of steps. Clocks are parameters `now`.
-- A function of the source that changes tables returns its result with the new tables. Recursion
-- is on lists, except that a number is printed digit by digit: an id with sixteen digits at most,
-- which are enough for a safe integer, and a bigint with as many as its successor counts.
--
-- Parameters: the operator's answers (signing, broadcasting, the state of a transaction) are a
-- record of functions, as is whether a proposal's settlement attempt needs reconciliation.
-- A new row's id comes from a database sequence, so it is a hypothesis that no row has it. The
-- chain's answers are records of functions (Reads of Validation, ChainReads of Jobs/Outcomes), as
-- are JSON, the recovery of a signer and the answers of the limiter's store and of the balance
-- cache. Whether the tables' writes of a debit fail, and the next ids of operations and buffer entries,
-- are parameters of the jobs.
--
-- An attempt's row is changed in place by one transaction at a time; a transaction that throws
-- changes nothing. The writes of settlement-attempts.ts on the proposal tables are in
-- Jobs/Penalties, not among the steps of Store.
--
-- A run of Service has the requests, the notifications and the outcome worker, but not /solve,
-- which Solve/Auction models by itself. The sliding window's weight is an exact fraction where the
-- source has a floating-point number.
--
-- Not modelled: the order book, the reading of the chain, the details of a schema's error message,
-- the limiter's keys in Redis and their expiry, calls of Redis that fail, rows that fail to parse,
-- database errors other than a taken key, retries of the job queue, HTTP, metrics and logging, ABI
-- encoding and hashing, the sub-solver clients and the admin dashboard, which are input and output
-- around the parts above.
pub mod Prelude
pub mod Domain
pub mod Store
pub mod Candidates
pub mod Debit
pub mod Solve
pub mod Buffer
pub mod Attempts
pub mod Validation
pub mod Api
pub mod Jobs
pub mod Service
pub mod Auction
pub mod Balances
pub mod Tests
